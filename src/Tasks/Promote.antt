-- ===== src/Tasks/Promote.antt =====
-- `_pre_create_undeploy`, `_promote_deployment` and `_promote_success` of deployer/tasks/deployment.py.
pub mod Chains
pub mod Single
pub mod Wired
use cluster_deployer.Common.{
  ℕ, String, Bool, Option, none, some, List, [], ◌∷◌, str_eq, foldl, if◌then◌else◌, true, false,
}
use cluster_deployer.Conf.{blue_green, red_green, state_promoted, level_success}
use cluster_deployer.Value.{Value, null, str, obj, Fields, end, field}
use cluster_deployer.Services.Lock.EtcdClient.{Etcd}
use cluster_deployer.Services.Storage.Mongo.{add_event, update_state, get_deployment}
use cluster_deployer.Common.Result.{Result, ok, err}
use cluster_deployer.Services.Proxy.{wire_proxy, ProxyError}
use cluster_deployer.Tasks.Exceptions.{proxy_error}
use cluster_deployer.Tasks.Platform.{Platform}
use cluster_deployer.Tasks.Canvas.{
  message, Deployment, Sig, Sigs, nil, cons, Next, nothing, next, joined, chain, fleet_stop,
  wait_for_stop, fleet_undeploy, wait_for_undeploy, promote_success, notify,
}
use cluster_deployer.Tasks.Monad.{
  World, Task, Outcome, returned, pure, raise, ◌>>=◌, ◌>>◌, send, change_store,
}
use cluster_deployer.Tasks.Fleet.{event, send_next}

-- `if next_task: undeploy_chain.append(next_task)`
abbrev pub followed_by : Sig → Next → Sigs
followed_by s nothing = cons s nil
followed_by s (next t) = cons s (cons t nil)

-- the undeploy of the version, or of all versions, before the next task
abbrev pub undeploy_chain : String → (version : Option String) → Fields → (next_task : Next) → Sigs
undeploy_chain name version search_params next_task =
    cons
      (joined
        (joined (fleet_stop name version none 0)
          (wait_for_stop name version none none none search_params))
        (fleet_undeploy name version none false))
      (followed_by (wait_for_undeploy name version none search_params) next_task)

-- what is undeployed at first: the version, all versions, or nothing
pub data Before : Type 0 where
  version_only : Before
  all_versions : Before
  no_undeploy : Before

abbrev pub undeployed_before : (mode : String) → Before
undeployed_before mode =
    if str_eq mode blue_green
    then version_only
    else if str_eq mode red_green
    then all_versions
    else no_undeploy

-- the tasks of a promotion
abbrev pub promotion_tasks : Deployment → Fields → Sigs
promotion_tasks d search_params =
    if str_eq d.mode blue_green
    then cons (fleet_stop d.name none (some d.version) 60) (
        cons
          (wait_for_stop d.name none (some d.version) (some d.stop_timeout)
            (some d.stop_check_retries) search_params)
          (cons (fleet_undeploy d.name none (some d.version) false) (
            cons (wait_for_undeploy d.name none (some d.version) search_params)
              (cons (promote_success d search_params) nil))))
    else cons (promote_success d search_params) nil

module _ (p : Platform) (e : Etcd) (now : ℕ → ℕ) where
  -- the branches of `_pre_create_undeploy`
  abbrev pub undeploy_before :
      Before → Deployment → Fields → (next_task : Next) → Task (World p e) (Unit {0})
  undeploy_before version_only d search_params next_task =
      send (chain (undeploy_chain d.name (some d.version) search_params next_task))
  undeploy_before all_versions d search_params next_task =
      send (chain (undeploy_chain d.name none search_params next_task))
  undeploy_before no_undeploy d search_params next_task = send_next p e now next_task

  -- `_pre_create_undeploy`
  unfoldable pub pre_create_undeploy_task :
      Deployment → Fields → (next_task : Next) → Task (World p e) (Unit {0})
  pre_create_undeploy_task d = undeploy_before (undeployed_before d.mode) d

  -- `_promote_deployment` after the calls of the proxy
  abbrev pub wired :
      Deployment → Fields → Result ProxyError (Unit {0}) → Task (World p e) (Unit {0})
  wired d search_params (err x) = raise (proxy_error x)
  wired d search_params (ok _) =
      event p e now "WIRED"
        (obj
          (field "name" (str d.name) (field "version" (str d.version) (field "proxy" d.proxy end))))
        search_params
      >> send (chain (promotion_tasks d search_params))

  -- `_promote_deployment`; no mode is passed to `wire_proxy`, which then takes the blue-green one
  unfoldable pub promote_deployment_task : Deployment → Fields → Task (World p e) (Unit {0})
  unfolding wire_proxy
  promote_deployment_task d search_params w =
      let (calls, result) =
        wire_proxy p.as_upstream d.name d.version d.hosts_and_listeners blue_green in
      wired d search_params result
        (record w { cluster = foldl (λ c call. p.call_proxy call c) w.cluster calls })

  -- `_promote_success`
  unfoldable pub promote_success_task :
      (now_event : ℕ → ℕ) → Deployment → Fields → Task (World p e) (Option Fields)
  promote_success_task now_event d search_params w =
      let s =
        update_state p.mongo now d.id state_promoted
          (add_event p.mongo now_event "PROMOTED" null search_params w.store) in
      (
        returned (get_deployment p.mongo d.id s),
        (send (notify (message "Promoted") level_success d) (record w { store = s })).1,
      )
