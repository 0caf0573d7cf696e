-- ===== src/Tasks/Failure.antt =====
-- `_deployment_error_event` of deployer/tasks/deployment.py, with `as_dict` of deployer/tasks/util.py,
-- and the task `_register_upstreams`.
pub mod Released
use cluster_deployer.Common.{ℕ, String, Option, none, some, foldl}
use cluster_deployer.Common.Result.{Result, ok, err}
use cluster_deployer.Conf.{state_failed, level_failed}
use cluster_deployer.Value.{Value, null, str, obj, Fields, end, field}
use cluster_deployer.Services.Lock.EtcdClient.{Etcd}
use cluster_deployer.Services.Proxy.{UpstreamConfig, ProxyError, register_upstreams}
use cluster_deployer.Services.Storage.Mongo.{add_event, update_state}
use cluster_deployer.Tasks.Platform.{Platform}
use cluster_deployer.Tasks.Canvas.{Deployment, Sig, notify, failure}
use cluster_deployer.Tasks.Exceptions.{TaskError, to_dict, proxy_error}
use cluster_deployer.Tasks.Monad.{World, Task, Outcome, raise, ◌>>=◌, ◌>>◌, send, change_store}
use cluster_deployer.Tasks.Fleet.{event}
use cluster_deployer.Common.{List}

-- `as_dict` of an exception; the text is its `repr`, which shows where it has no `to_dict`
abbrev pub as_dict : (text : String) → TaskError → Value
unfolding to_dict
as_dict text error = elim (to_dict text error) [
  | some d ↦ d
  | none ↦ obj (field "message" (str text) (field "code" (str "INTERNAL") end))
]

module _ (p : Platform) (e : Etcd) (now : ℕ → ℕ) where
  -- `_deployment_error_event`; the result of the task that failed is an argument
  unfoldable pub deployment_error_event_task :
      (now_event : ℕ → ℕ)
      → TaskError
      → (text : String) → Deployment
      → Fields
      → Task (World p e) (Unit {0})
  deployment_error_event_task now_event result text d search_params = do
    send (notify (failure result) level_failed d)
    change_store (update_state p.mongo now d.id state_failed)
    event p e now_event "DEPLOYMENT_FAILED"
        (obj (field "deployment-error" (as_dict text result) end)) search_params

  abbrev pub registered : Fields → Result ProxyError (Unit {0}) → Task (World p e) (Unit {0})
  registered search_params (err x) = raise (proxy_error x)
  registered search_params (ok _) = event p e now "UPSTREAMS_REGISTERED" null search_params

  -- `_register_upstreams`
  unfoldable pub register_upstreams_task :
      (app_name app_version : String)
      → List UpstreamConfig
      → (deployment_mode : String) → Fields
      → Task (World p e) (Unit {0})
  unfolding register_upstreams
  register_upstreams_task app_name app_version upstreams deployment_mode search_params w =
      let (calls, result) =
        register_upstreams p.as_upstream app_name app_version upstreams deployment_mode in
      registered search_params result
        (record w { cluster = foldl (λ c call. p.call_proxy call c) w.cluster calls })
