-- ===== src/Tasks/Create.antt =====
-- The tasks that put a deployment together: `create`, `delete`, `_deploy_all` and
-- `_fleet_start_and_wait` of deployer/tasks/deployment.py. The deployment is the one that
-- `apply_defaults` has completed, and the parameters of `create_search_parameters` are an argument.
pub mod Sent
pub mod Deployed
use cluster_deployer.Common.{
  ℕ, zero, String, Bool, true, false, Option, none, some, List, [], ◌∷◌, map, length, str_eq,
  if◌then◌else◌,
}
use cluster_deployer.Common.Result.{Result, ok, err}
use cluster_deployer.Conf.{level_started}
use cluster_deployer.Value.{Fields}
use cluster_deployer.Services.Lock.EtcdClient.{Etcd}
use cluster_deployer.Services.Storage.Collection.{keep}
use cluster_deployer.Services.Storage.Mongo.{KeyError, MongoStore, create_deployment, add_event}
use cluster_deployer.Tasks.Platform.{Platform, Template, FleetUnit}
use cluster_deployer.Tasks.Canvas.{
  message, Deployment, Sig, Sigs, nil, cons, Next, nothing, next, joined, chord, signatures,
  start_deployment, pre_create_undeploy, register_upstreams, deploy_all, check_discover,
  check_deployment, promote_deployment, deployment_error_event, fleet_undeploy, fleet_stop,
  wait_for_stop, wait_for_undeploy, using_lock, notify, fleet_deploy, fleet_start,
  fleet_start_and_wait, fleet_check_deploy,
}
use cluster_deployer.Tasks.Exceptions.{key_error}
use cluster_deployer.Tasks.Monad.{
  World, Task, Outcome, raise, pure, ◌>>=◌, ◌>>◌, send, change_store, fetch_units,
}
use cluster_deployer.Tasks.Fleet.{event}

-- `deployment['deployment'].get('check', {}).get('min-nodes', nodes)`
abbrev pub min_nodes_of : Deployment → ℕ
min_nodes_of d = elim d.min_nodes [ none ↦ d.nodes | some n ↦ n ]

-- the enabled templates, with their service types
abbrev pub enabled_templates : Deployment → List (String × Template)
enabled_templates d = keep (λ t. t.1.enabled) d.templates

-- `templates[service_type]`
abbrev pub template_of : String → List (String × Template) → Option Template
template_of service_type [] = none
template_of service_type (t ∷ ts) =
    let rest = template_of service_type ts in if str_eq t.0 service_type then some t.1 else rest

-- the tasks on an error of the deployment, before the release of its lock
abbrev pub create_error_tasks : Deployment → Fields → Sigs
create_error_tasks d search_params =
    cons (deployment_error_event d search_params)
      (cons (fleet_undeploy d.name (some d.version) none true) nil)

-- the tasks of a deployment, each the next task of the one before
abbrev pub create_tasks : Deployment → Fields → Sig
create_tasks d search_params = joined (start_deployment d.id) (
    pre_create_undeploy d search_params (
      next (
        joined (register_upstreams d.name d.version d.upstreams d.mode search_params) (
          deploy_all d search_params (
            next (
              joined
                (check_discover d.name d.version d.check_port (min_nodes_of d) d.mode search_params)
                (check_deployment d.check_path d.attempts d.check_timeout search_params
                  (next (promote_deployment d search_params)))))))))

-- the tasks of a deletion
abbrev pub delete_tasks : String → Option String → Fields → Sig
delete_tasks name version search_params =
    joined
      (joined
        (joined (fleet_stop name version none zero)
          (wait_for_stop name version none none none search_params))
        (fleet_undeploy name version none false))
      (wait_for_undeploy name version none search_params)

-- what `_deploy_all` sends
abbrev pub deploy_chord : Deployment → Fields → (next_task : Next) → Sig
deploy_chord d search_params next_task =
    chord
      (signatures
        (λ t. fleet_deploy search_params d.name d.version d.nodes t.0 t.1 d.security_profile)
        (enabled_templates d))
      (fleet_start_and_wait d search_params next_task)

-- what `_fleet_start_and_wait` sends for the service types
abbrev pub start_chord : Deployment → Fields → (next_task : Next) → List (String × Template) → Sig
start_chord d search_params next_task services =
    chord (signatures (λ t. fleet_start search_params d.name d.version d.nodes t.0 t.1) services) (
      fleet_check_deploy d.name d.version (length services) (min_nodes_of d) search_params
        next_task)

module _ (p : Platform) (e : Etcd) (now : ℕ → ℕ) where
  -- `store.create_deployment(deployment)`
  abbrev pub store_deployment : Deployment → Task (World p e) (Unit {0})
  store_deployment d w = elim (create_deployment p.mongo now d.document w.store) [
    | ok s ↦ change_store (λ _. s) w
    | err k ↦ raise (key_error k) w
  ]

  -- `create` with the deployment in the store
  abbrev pub use_lock : (now_event : ℕ → ℕ) → Deployment → Fields → Task (World p e) (Unit {0})
  use_lock now_event d search_params = do
    event p e now_event "NEW_DEPLOYMENT" d.document search_params
    send (
        using_lock search_params d.name (create_tasks d search_params)
          (create_error_tasks d search_params))

  -- `create`
  unfoldable pub create_task :
      (now_event : ℕ → ℕ) → Deployment → Fields → Task (World p e) (Unit {0})
  create_task now_event d search_params = do
    send (notify (message "Started provisioning") level_started d)
    store_deployment d
    use_lock now_event d search_params

  -- `delete`
  unfoldable pub delete_task : String → Option String → Fields → Task (World p e) (Unit {0})
  delete_task name version search_params =
      send (using_lock search_params name (delete_tasks name version search_params) nil)

  -- `_deploy_all`, with `deployment['templates']['app']`
  abbrev pub deploy_enabled :
      Deployment → Fields → (next_task : Next) → Option Template → Task (World p e) (Unit {0})
  deploy_enabled d search_params next_task none = raise (key_error (record { key = "app" }))
  deploy_enabled d search_params next_task (some t) =
      if t.enabled then send (deploy_chord d search_params next_task) else pure tt

  -- `_deploy_all`
  unfoldable pub deploy_all_task :
      Deployment → Fields → (next_task : Next) → Task (World p e) (Unit {0})
  deploy_all_task d search_params next_task =
      deploy_enabled d search_params next_task (template_of "app" d.templates)

  -- `templates['timer']`, and its start
  abbrev pub start_timer :
      Deployment → Fields → (next_task : Next) → Option Template → Task (World p e) (Unit {0})
  start_timer d search_params next_task none = raise (key_error (record { key = "timer" }))
  start_timer d search_params next_task (some t) =
      send (start_chord d search_params next_task (("timer", t) ∷ []))

  -- the service types to start: those enabled, or `timer` alone for a schedule
  abbrev pub start_services :
      Deployment → Fields → (next_task : Next) → Option String → Task (World p e) (Unit {0})
  start_services d search_params next_task none =
      send (start_chord d search_params next_task (enabled_templates d))
  start_services d search_params next_task (some s) =
      if str_eq s ""
      then send (start_chord d search_params next_task (enabled_templates d))
      else start_timer d search_params next_task (template_of "timer" d.templates)

  -- `_fleet_start_and_wait`
  unfoldable pub fleet_start_and_wait_task :
      Deployment → Fields → (next_task : Next) → Task (World p e) (Unit {0})
  fleet_start_and_wait_task d search_params next_task =
      start_services d search_params next_task d.schedule
