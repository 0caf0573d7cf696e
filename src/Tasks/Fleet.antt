-- ===== src/Tasks/Fleet.antt =====
-- The tasks of deployer/tasks/deployment.py that call the fleet provider: deploy, start, stop,
-- undeploy, and the waits for what they begin.
pub mod Waits
pub mod Undeploy
use cluster_deployer.Common.{
  ℕ, zero, suc, ◌+◌, ◌*◌, ◌/◌, max, String, Bool, true, false, not, ◌||◌, Option, none, some, List,
  [], ◌∷◌, ltb, str_eq, length, if◌then◌else◌, map,
}
use cluster_deployer.Common.Result.{Result, ok, err}
use cluster_deployer.Conf.{
  state_decommissioned, state_promoted, default_stop_timeout, default_deployment_stop_check_retries,
  deployment_stop_min_check_retry_delay,
}
use cluster_deployer.Util.Interval.{to_milliseconds, InvalidInterval}
use cluster_deployer.Value.{
  Value, null, bool, str, num, arr, obj, Items, nil, cons, Fields, end, field,
}
use cluster_deployer.Services.Lock.EtcdClient.{Etcd}
use cluster_deployer.Services.Storage.Collection.{keep}
use cluster_deployer.Services.Storage.Mongo.{update_state_bulk, add_event}
use cluster_deployer.Tasks.Platform.{
  Platform, Fault, FleetUnit, FleetDeployment, Template, codes, is_started,
}
use cluster_deployer.Tasks.Canvas.{Sig, Next, nothing, next}
use cluster_deployer.Tasks.Exceptions.{
  text_or_null, unit_value, units_value, TaskError, fleet_fault, node_not_undeployed,
  node_not_stopped, min_nodes_not_running, invalid_interval,
}
use cluster_deployer.Tasks.Monad.{
  World, Task, Outcome, pure, try_again, raise, ◌>>=◌, ◌>>◌, send, change_store, fleet_call,
  fetch_units,
}

-- `unit['active'] not in ('inactive', 'loaded', 'failed')`
abbrev pub is_active : FleetUnit → Bool
is_active u =
    not (str_eq u.active "inactive" || (str_eq u.active "loaded" || str_eq u.active "failed"))

-- `timeout or DEPLOYMENT_DEFAULTS[...]['deployment']['stop']['timeout']`
abbrev pub timeout_or_default : Option String → String
timeout_or_default none = default_stop_timeout
timeout_or_default (some t) = if str_eq t "" then default_stop_timeout else t

-- `check_retries or TASK_SETTINGS['DEFAULT_DEPLOYMENT_STOP_CHECK_RETRIES']`
abbrev pub retries_or_default : Option ℕ → ℕ
retries_or_default none = default_deployment_stop_check_retries
retries_or_default (some zero) = default_deployment_stop_check_retries
retries_or_default (some (suc n)) = suc n

-- `max((timout_seconds / check_retries)+1, ...)`; both divisions are of integers
abbrev pub check_interval : (milliseconds check_retries : ℕ) → ℕ
check_interval ms n = max (ms / 1000 / n + 1) deployment_stop_min_check_retry_delay

abbrev pub deployment_details : String → (version exclude_version : Option String) → Fields → Value
deployment_details name version exclude_version rest = obj (
    field "deployment"
      (obj (
        field "name" (str name) (
          field "version" (text_or_null version)
            (field "exclude-version" (text_or_null exclude_version) rest))))
      end)

abbrev pub unit_details :
    (name version : String) (nodes : ℕ) (service_type : String) → Template → Value
unit_details name version nodes service_type t = obj (
    field "name" (str name) (
      field "version" (str version) (
        field "nodes" (num nodes) (
          field "service_type" (str service_type) (
            field "template"
              (obj (
                field "name" (str t.name)
                  (field "enabled" (bool t.enabled) (field "args" t.args end))))
              end)))))

module _ (p : Platform) (e : Etcd) (now : ℕ → ℕ) where
  abbrev pub event : String → Value → Fields → Task (World p e) (Unit {0})
  event event_type details search_params =
      change_store (add_event p.mongo now event_type details search_params)

  -- `_fleet_undeploy`
  unfoldable pub fleet_undeploy_task :
      String
      → (version exclude_version : Option String) → (ignore_error : Bool)
      → Task (World p e) (Unit {0})
  fleet_undeploy_task name version exclude_version ignore_error = do
    fleet_call (p.undeploy name version exclude_version)
        (λ f. if ignore_error then pure tt else raise (fleet_fault f))
    change_store (
        update_state_bulk p.mongo p.cluster_name now name state_decommissioned (some state_promoted)
          version)

  -- `_fleet_stop`
  unfoldable pub fleet_stop_task :
      String
      → (version exclude_version : Option String) → (ignore_error : Bool)
      → Task (World p e) (Unit {0})
  fleet_stop_task name version exclude_version ignore_error =
      fleet_call (p.stop name version exclude_version)
        (λ f. if ignore_error then pure tt else raise (fleet_fault f))

  abbrev pub undeployed_or_retry :
      String
      → (version exclude_version : Option String) → Fields
      → List FleetUnit
      → Task (World p e) (Unit {0})
  undeployed_or_retry name version exclude_version search_params [] =
      event "DEPLOYMENTS_UNDEPLOYED" (deployment_details name version exclude_version end)
        search_params
  undeployed_or_retry name version exclude_version search_params (u ∷ us) =
      try_again (node_not_undeployed name version (u ∷ us)) none none

  -- `_wait_for_undeploy`
  unfoldable pub wait_for_undeploy_task :
      String → (version exclude_version : Option String) → Fields → Task (World p e) (Unit {0})
  wait_for_undeploy_task name version exclude_version search_params = do
    deployed_units ← fetch_units name version exclude_version
    undeployed_or_retry name version exclude_version search_params deployed_units

  abbrev pub stopped_or_retry :
      String
      → (version exclude_version : Option String) → (check_retries interval : ℕ) → Fields
      → (deployed_units active_units : List FleetUnit) → Task (World p e) (Unit {0})
  stopped_or_retry name version exclude_version n interval search_params units [] =
      event "DEPLOYMENTS_STOPPED"
        (deployment_details name version exclude_version
          (field "matching-units" (arr (units_value units)) (field "active-units" (arr nil) end)))
        search_params
  stopped_or_retry name version exclude_version n interval search_params units (u ∷ us) =
      try_again (node_not_stopped name version (u ∷ us)) (some (n + 1)) (some interval)

  -- `_wait_for_stop` after `to_milliseconds`
  abbrev pub check_stopped :
      String
      → (version exclude_version : Option String) → (check_retries : ℕ) → Fields
      → Result InvalidInterval ℕ
      → Task (World p e) (Unit {0})
  check_stopped name version exclude_version n search_params (err i) = raise (invalid_interval i)
  check_stopped name version exclude_version n search_params (ok ms) = do
    deployed_units ← fetch_units name version exclude_version
    stopped_or_retry name version exclude_version n (check_interval ms n) search_params
        deployed_units (keep is_active deployed_units)

  -- `_wait_for_stop`
  unfoldable pub wait_for_stop_task :
      String
      → (version exclude_version timeout : Option String) → (check_retries : Option ℕ) → Fields
      → Task (World p e) (Unit {0})
  wait_for_stop_task name version exclude_version timeout check_retries search_params =
      check_stopped name version exclude_version (retries_or_default check_retries) search_params
        (to_milliseconds (codes (timeout_or_default timeout)))

  abbrev pub send_next : Next → Task (World p e) (Unit {0})
  send_next nothing = pure tt
  send_next (next s) = send s

  -- what `_fleet_check_deploy` does with the units that the fleet reports
  abbrev pub running_or_retry :
      (name version : String) (expected_cnt : ℕ)
      → Fields
      → (next_task : Next) → List FleetUnit
      → Task (World p e) (Unit {0})
  running_or_retry name version expected_cnt search_params next_task units =
      let running_units = keep is_started units in
      if ltb (length running_units) expected_cnt
      then try_again (min_nodes_not_running name version expected_cnt units) none none
      else event "UNITS_DEPLOYED" (arr (units_value running_units)) search_params
        >> send_next next_task

  -- `_fleet_check_deploy`; its result, the running units or that of `delay`, is used by no task
  unfoldable pub fleet_check_deploy_task :
      (name version : String) (service_cnt min_nodes : ℕ)
      → Fields
      → (next_task : Next) → Task (World p e) (Unit {0})
  fleet_check_deploy_task name version service_cnt min_nodes search_params next_task = do
    units ← fetch_units name (some version) none
    running_or_retry name version (min_nodes * service_cnt) search_params next_task units

  -- `_fleet_deploy`
  unfoldable pub fleet_deploy_task :
      Fields
      → (name version : String) (nodes : ℕ) (service_type : String) → Template
      → (security_profile : String) → Task (World p e) (Unit {0})
  fleet_deploy_task search_params name version nodes service_type template security_profile = do
    fleet_call
        (p.deploy (record {
          name = name;
          version = version;
          template = template.name;
          nodes = nodes;
          template_args = p.decrypt_config template.args security_profile;
          service_type = service_type;
          timer = str_eq service_type "timer";
        }))
        (λ f. raise (fleet_fault f))
    event "UNITS_ADDED" (unit_details name version nodes service_type template) search_params

  -- `_fleet_start`
  unfoldable pub fleet_start_task :
      Fields
      → (name version : String) (nodes : ℕ) (service_type : String) → Template
      → Task (World p e) (Unit {0})
  fleet_start_task search_params name version nodes service_type template = do
    fleet_call
        (p.start_units (record {
          name = name;
          version = version;
          template = template.name;
          nodes = nodes;
          template_args = template.args;
          service_type = service_type;
          timer = str_eq service_type "timer";
        }))
        (λ f. raise (fleet_fault f))
    event "UNITS_STARTED" (unit_details name version nodes service_type template) search_params
