-- ===== src/Tasks/Check.antt =====
-- The checks of a deployment before it is promoted: `_check_discover`, `_check_deployment`,
-- `_deployment_check_passed` and `_check_node` of deployer/tasks/deployment.py.
pub mod Gates
use cluster_deployer.Common.{
  ℕ, zero, suc, ◌-◌, ◌/◌, String, text_append, Bool, true, false, Option, none, some, List, [], ◌∷◌,
  map, length, ltb, str_eq, if◌then◌else◌,
}
use cluster_deployer.Common.Result.{Result, ok, err}
use cluster_deployer.Conf.{check_node_retry_delay}
use cluster_deployer.Util.Interval.{to_milliseconds, InvalidInterval}
use cluster_deployer.Util.Text.{codes}
use cluster_deployer.Value.{Value, null, str, obj, Fields, end, field}
use cluster_deployer.Services.Lock.EtcdClient.{Etcd}
use cluster_deployer.Services.Proxy.{use_version}
use cluster_deployer.Tasks.Platform.{Platform}
use cluster_deployer.Tasks.Canvas.{
  Sig, Sigs, Next, nothing, next, chord, signatures, check_node, deployment_check_passed,
}
use cluster_deployer.Tasks.Exceptions.{
  node_values, min_nodes_not_discovered, node_check_failed, invalid_interval,
}
use cluster_deployer.Tasks.Monad.{
  World, Task, Outcome, returned, try_again, raise, pure, ◌>>=◌, ◌>>◌, send,
}
use cluster_deployer.Tasks.Fleet.{event, send_next}

-- `'/' + path if not path.startswith('/') else path`
abbrev pub absolute : String → String
absolute String.[] = "/"
absolute (String.◌∷◌ c s) =
    if str_eq (String.◌∷◌ c "") "/" then String.◌∷◌ c s else text_append "/" (String.◌∷◌ c s)

-- `'http://{0}{1}'.format(node, path)`
abbrev pub check_url : (node path : String) → String
check_url node path = text_append "http://" (text_append node (absolute path))

module _ (p : Platform) (e : Etcd) (now : ℕ → ℕ) where
  -- `get_discovered_nodes`, with a port
  abbrev pub get_discovered_nodes :
      (app_name app_version check_port deployment_mode : String)
      → p.Cluster
      → List (String × String)
  get_discovered_nodes app_name app_version check_port deployment_mode =
      p.get_nodes (p.as_upstream app_name check_port (use_version app_version deployment_mode))

  abbrev pub discovered_or_retry :
      (app_name app_version : String) (min_nodes : ℕ)
      → Fields
      → List (String × String)
      → Task (World p e) (List (String × String))
  discovered_or_retry app_name app_version min_nodes search_params nodes =
      if ltb (length nodes) min_nodes
      then try_again (min_nodes_not_discovered app_name app_version min_nodes nodes) none none
      else (event p e now "NODES_DISCOVERED" (obj (node_values nodes)) search_params >> pure nodes)

  -- `_check_discover`; the port is shown as text, and `none` is also an empty port and the port 0
  unfoldable pub check_discover_task :
      (app_name app_version : String) (check_port : Option String) (min_nodes : ℕ)
      (deployment_mode : String)
      → Fields
      → Task (World p e) (List (String × String))
  check_discover_task app_name app_version none min_nodes deployment_mode search_params w =
      pure [] w
  check_discover_task app_name app_version (some port) min_nodes deployment_mode search_params w =
      discovered_or_retry app_name app_version min_nodes search_params
        (get_discovered_nodes app_name app_version port deployment_mode w.cluster) w

  -- `_check_deployment` with a path that is not empty
  abbrev pub check_nodes :
      List (String × String)
      → (path : String) (attempts : ℕ) (timeout : String) → Fields
      → (next_task : Next) → Task (World p e) (Unit {0})
  check_nodes [] path attempts timeout search_params next_task = send_next p e now next_task
  check_nodes (n ∷ ns) path attempts timeout search_params next_task = send (
      chord (signatures (λ node. check_node node.1 path attempts timeout) (n ∷ ns))
        (deployment_check_passed search_params next_task))

  -- `_check_deployment`
  unfoldable pub check_deployment_task :
      List (String × String)
      → (path : Option String) (attempts : ℕ) (timeout : String) → Fields
      → (next_task : Next) → Task (World p e) (Unit {0})
  check_deployment_task nodes none attempts timeout search_params next_task =
      send_next p e now next_task
  check_deployment_task nodes (some path) attempts timeout search_params next_task =
      if str_eq path ""
      then send_next p e now next_task
      else check_nodes nodes path attempts timeout search_params next_task

  -- `_deployment_check_passed`
  unfoldable pub deployment_check_passed_task :
      Fields → (next_task : Next) → Task (World p e) (Unit {0})
  deployment_check_passed_task search_params next_task =
      event p e now "DEPLOYMENT_CHECK_PASSED" null search_params >> send_next p e now next_task

  -- the request of `_check_node`, and its `except` clause
  abbrev pub request_node :
      (url : String) (attempts : ℕ) → Result InvalidInterval ℕ → Task (World p e) (Unit {0})
  request_node url attempts (err x) w = raise (invalid_interval x) w
  request_node url attempts (ok timeout_ms) w = elim (p.urlopen url (timeout_ms / 1000) w.cluster) [
    | ok _ ↦ (returned tt, w)
    | err reason ↦
        try_again (node_check_failed url reason attempts) (some (attempts - 1))
          (some check_node_retry_delay) w
  ]

  -- `_check_node`. The number of retries is one less than that of attempts; for 0 attempts the source
  -- gives -1, and the model 0.
  unfoldable pub check_node_task :
      (node path : String) (attempts : ℕ) (timeout : String) → Task (World p e) (Unit {0})
  check_node_task node path attempts timeout =
      request_node (check_url node path) attempts (to_milliseconds (codes timeout))
