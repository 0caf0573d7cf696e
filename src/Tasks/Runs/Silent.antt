-- ===== src/Tasks/Runs/Silent.antt =====
-- The tasks that send nothing: those that change the cluster, and the start of a deployment.
use cluster_deployer.Common.{
  ℕ, String, Bool, true, false, inl, inr, Option, some, List, Bool-cases, foldl, str_eq,
  if◌then◌else◌,
}
use cluster_deployer.Common.Result.{Result, ok, err}
use cluster_deployer.Conf.{state_decommissioned, state_promoted}
use cluster_deployer.Services.Lock.EtcdClient.{Etcd}
use cluster_deployer.Services.Proxy.{UpstreamConfig, ProxyError, register_upstreams}
use cluster_deployer.Services.Storage.Mongo.{MongoStore, add_event, update_state_bulk}
use cluster_deployer.Value.{Fields}
use cluster_deployer.Tasks.Canvas.{Sig}
use cluster_deployer.Tasks.Exceptions.{fleet_fault}
use cluster_deployer.Tasks.Failure.{registered, register_upstreams_task}
use cluster_deployer.Tasks.Fleet.{
  fleet_undeploy_task, fleet_stop_task, fleet_deploy_task, fleet_start_task, unit_details,
}
use cluster_deployer.Tasks.Monad.{World, Task, pure, raise, ◌>>◌, change_store, fleet_call}
use cluster_deployer.Tasks.Platform.{Platform, Template, Fault}
use cluster_deployer.Tasks.Start.{
  TaskSettings, start_deployment_task, limit_reached, used_concurrency,
}
use cluster_deployer.Tasks.Runs.Sends.{SendsOnly, bind-SendsOnly, fleet_call-SendsOnly}

module _ (p : Platform) (e : Etcd) (now : ℕ → ℕ) where
  abbrev pub IsSilent : {A : Type 0} → Task (World p e) A → Type 1
  IsSilent m = (R : e.State → Type 0) (Q : Sig → Type 0) → SendsOnly R Q m

  abbrev ignored : (ignore_error : Bool) → Fault → Task (World p e) (Unit {0})
  ignored ignore_error f = if ignore_error then pure tt else raise (fleet_fault f)

  ignored-IsSilent : (ignore_error : Bool) (f : Fault) → IsSilent (ignored ignore_error f)
  ignored-IsSilent true f R Q w h = h
  ignored-IsSilent false f R Q w h = h

  call_then_store-IsSilent :
      (call : p.Cluster → Result Fault (Unit {0}) × p.Cluster)
      (on_other : Fault → Task (World p e) (Unit {0})) (f : MongoStore p.mongo → MongoStore p.mongo)
      → ((x : Fault) → IsSilent (on_other x))
      → IsSilent (fleet_call call on_other >> change_store f)
  call_then_store-IsSilent call on_other f h R Q =
      bind-SendsOnly R Q (fleet_call call on_other) (λ _. change_store f)
        (fleet_call-SendsOnly R Q call on_other (λ x. h x R Q)) (λ _ w k. k)

  pub start_deployment-IsSilent :
      (settings : TaskSettings) (id : String) → IsSilent (start_deployment_task p e now settings id)
  unfolding start_deployment_task
  start_deployment-IsSilent settings id R Q w h =
      elim (Bool-cases (limit_reached settings.concurrency (used_concurrency p e now w.store))) [
        | inl q ↦ rw q h
        | inr q ↦ rw q h
      ]

  registered-IsSilent :
      (f : Fields) (r : Result ProxyError (Unit {0})) → IsSilent (registered p e now f r)
  registered-IsSilent f (ok x) R Q w h = h
  registered-IsSilent f (err x) R Q w h = h

  pub register_upstreams-IsSilent :
      (name version : String) (us : List UpstreamConfig) (mode : String) (f : Fields)
      → IsSilent (register_upstreams_task p e now name version us mode f)
  unfolding register_upstreams_task
  register_upstreams-IsSilent name version us mode f R Q w h =
      registered-IsSilent f (register_upstreams p.as_upstream name version us mode).1 R Q
        (record w {
          cluster =
              foldl (λ c call. p.call_proxy call c) w.cluster
                (register_upstreams p.as_upstream name version us mode).0;
        })
        h

  pub fleet_deploy-IsSilent :
      (f : Fields) (name version : String) (nodes : ℕ) (service_type : String) (t : Template)
      (profile : String)
      → IsSilent (fleet_deploy_task p e now f name version nodes service_type t profile)
  unfolding fleet_deploy_task
  fleet_deploy-IsSilent f name version nodes service_type t profile R Q =
      call_then_store-IsSilent
        (p.deploy (record {
          name = name;
          version = version;
          template = t.name;
          nodes = nodes;
          template_args = p.decrypt_config t.args profile;
          service_type = service_type;
          timer = str_eq service_type "timer";
        }))
        (λ f. raise (fleet_fault f))
        (add_event p.mongo now "UNITS_ADDED" (unit_details name version nodes service_type t) f)
        (λ f R Q w h. h) R Q

  pub fleet_start-IsSilent :
      (f : Fields) (name version : String) (nodes : ℕ) (service_type : String) (t : Template)
      → IsSilent (fleet_start_task p e now f name version nodes service_type t)
  unfolding fleet_start_task
  fleet_start-IsSilent f name version nodes service_type t R Q =
      call_then_store-IsSilent
        (p.start_units (record {
          name = name;
          version = version;
          template = t.name;
          nodes = nodes;
          template_args = t.args;
          service_type = service_type;
          timer = str_eq service_type "timer";
        }))
        (λ f. raise (fleet_fault f))
        (add_event p.mongo now "UNITS_STARTED" (unit_details name version nodes service_type t) f)
        (λ f R Q w h. h) R Q

  pub fleet_stop-IsSilent :
      (name : String) (version exclude_version : Option String) (ignore_error : Bool)
      → IsSilent (fleet_stop_task p e now name version exclude_version ignore_error)
  unfolding fleet_stop_task
  fleet_stop-IsSilent name version exclude_version ignore_error R Q =
      fleet_call-SendsOnly R Q (p.stop name version exclude_version) (ignored ignore_error)
        (λ f. ignored-IsSilent ignore_error f R Q)

  pub fleet_undeploy-IsSilent :
      (name : String) (version exclude_version : Option String) (ignore_error : Bool)
      → IsSilent (fleet_undeploy_task p e now name version exclude_version ignore_error)
  unfolding fleet_undeploy_task
  fleet_undeploy-IsSilent name version exclude_version ignore_error R Q =
      call_then_store-IsSilent (p.undeploy name version exclude_version) (ignored ignore_error)
        (update_state_bulk p.mongo p.cluster_name now name state_decommissioned
          (some state_promoted) version)
        (ignored-IsSilent ignore_error) R Q
