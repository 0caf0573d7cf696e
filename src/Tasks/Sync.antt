-- ===== src/Tasks/Sync.antt =====
-- `sync_units` and `sync_upstreams` of deployer/services/deployment.py, and
-- the tasks of deployer/tasks/deployment.py that use them: `sync_promoted_units`,
-- `sync_promoted_upstreams`, with `_get_job_lock`, `recover_cluster` and `list_units`.
pub mod Quiet
pub mod Released
pub mod Recovery
pub mod Tests
use cluster_deployer.Common.{
  ℕ, zero, suc, ◌+◌, String, Bool, true, false, not, Option, none, some, List, [], ◌∷◌, ◌++◌, map,
  if◌then◌else◌,
}
use cluster_deployer.Common.Result.{Result, ok, err}
use cluster_deployer.Conf.{state_promoted, lock_job_base}
use cluster_deployer.Services.Deployment.Clone.{clone_deployment}
use cluster_deployer.Services.Deployment.Upstreams.{port_text}
use cluster_deployer.Services.Deployment.Ports.{Port, no_port, number, text, get_exposed_ports}
use cluster_deployer.Services.Lock.{LockService, Lock, ResourceLocked, apply_lock}
use cluster_deployer.Services.Lock.EtcdClient.{Etcd}
use cluster_deployer.Services.Proxy.{use_version}
use cluster_deployer.Services.Storage.Mongo.{
  Query, filter_deployments, get_deployment, update_runtime_units, update_runtime_upstreams,
}
use cluster_deployer.Tasks.Canvas.{Sig, Sigs, create, chord, async_wait, release_lock, signatures}
use cluster_deployer.Tasks.Exceptions.{TaskError, units_value, fleet_fault, access_error}
use cluster_deployer.Tasks.Locking.{wait_for_deployment}
use cluster_deployer.Tasks.Monad.{
  World, Task, Outcome, returned, retry, raised, send, pure, raise, ◌>>=◌,
}
use cluster_deployer.Tasks.Upstreams.{name_and_version, id_of, fetch_runtime_upstreams}
use cluster_deployer.Tasks.Platform.{Platform, FleetUnit, Fault}
use cluster_deployer.Util.Merge.{dict_merge}
use cluster_deployer.Value.{Value, null, str, arr, obj, Items, nil, cons, Fields, end, field}
use cluster_deployer.Value.Access.{Access, item, item_at, get, wrong_type}

-- a computation on a document, as a part of a task
abbrev pub access : {W A : Type 0} → Access A → Task W A
access (ok a) = pure a
access (err x) = raise (access_error x)

abbrev pub fault_or : {W A : Type 0} → Result Fault A → Task W A
fault_or (ok a) = pure a
fault_or (err x) = raise (fleet_fault x)

infix 4 ◌finally◌
-- `finally`: the second task runs however the first one ends.
abbrev pub ◌finally◌ : {W A : Type 0} → Task W A → Task W (Unit {0}) → Task W A
◌finally◌ m k w = let (r, w1) = m w in (r, (k w1).1)

-- the output of a synchronisation
abbrev pub sync_output : (deployment_id : String) → Fields → Value
sync_output deployment_id rest = obj (field "deployment_id" (str deployment_id) rest)

-- the arguments of `filter_deployments` for the deployments in a state
abbrev pub in_state : String → (only_ids : Bool) → Query
in_state state only_ids = record {
  name = none;
  version = none;
  only_running = true;
  only_ids = only_ids;
  state = some state;
  exclude_names = [];
}

-- `recovery_params`
pub record RecoveryParams : Type 0 where
  pub state : Option String
  pub name : Option String
  pub version : Option String
  pub exclude_names : List String

-- the arguments of `filter_deployments` in `recover_cluster`; a state that is missing is `PROMOTED`
abbrev pub recovery_query : RecoveryParams → Query
recovery_query params = record {
  name = params.name;
  version = params.version;
  only_running = true;
  only_ids = false;
  state = elim params.state [ none ↦ some state_promoted | some s ↦ some s ];
  exclude_names = params.exclude_names;
}

-- `LockService(lock_base=LOCK_JOB_BASE)`
abbrev pub job_service : LockService → LockService
job_service service = record service { lock_base = lock_job_base }

module _ (p : Platform) (e : Etcd) (now : ℕ → ℕ) (error_text : TaskError → String) where
  -- `except Exception`, which ignores the error or raises it again
  abbrev pub ignoring :
      (deployment_id : String)
      → (ignore_error : Bool) → Task (World p e) Value
      → Task (World p e) Value
  ignoring deployment_id ignore_error m w =
      let (r, w1) = m w in
      elim r [
        | returned v ↦ (returned v, w1)
        | retry x n c ↦ (retry x n c, w1)
        | raised x ↦
            if ignore_error
            then (
              returned (
                  sync_output deployment_id
                    (field "error" (str (error_text x)) (field "state" (str "failed") end))),
              w1,
            )
            else (raised x, w1)
      ]

  -- the `try` of `sync_units`
  abbrev pub store_units : (deployment_id : String) → List FleetUnit → Task (World p e) Value
  store_units deployment_id units w = (
    returned (
        sync_output deployment_id
          (field "units" (arr (units_value units)) (field "state" (str "success") end))),
    record w {
      store = update_runtime_units p.mongo now deployment_id (arr (units_value units)) w.store;
    },
  )

  abbrev pub units_named : String × String → Task (World p e) (List FleetUnit)
  units_named (name, version) w = fault_or (p.filter_units name (some version) none w.cluster) w

  abbrev pub try_sync_units : (deployment_id : String) → Value → Task (World p e) Value
  try_sync_units deployment_id deployment =
      (access (name_and_version deployment) >>= units_named) >>= store_units deployment_id

  -- the `try` of `sync_upstreams`
  abbrev pub store_upstreams : (deployment_id : String) → Value → Task (World p e) Value
  store_upstreams deployment_id upstreams w = (
    returned (
        sync_output deployment_id
          (field "upstreams" upstreams (field "state" (str "success") end))),
    record w { store = update_runtime_upstreams p.mongo now deployment_id upstreams w.store },
  )

  abbrev pub try_sync_upstreams : (deployment_id : String) → Value → Task (World p e) Value
  try_sync_upstreams deployment_id deployment =
      (λ w. access (fetch_runtime_upstreams p deployment w.cluster) w)
      >>= store_upstreams deployment_id

  -- `sync_units`
  unfoldable pub sync_units :
      (deployment_id : String) → (ignore_error : Bool) → Task (World p e) Value
  sync_units deployment_id ignore_error w = elim (get_deployment p.mongo deployment_id w.store) [
    | none ↦ (returned (sync_output deployment_id end), w)
    | some d ↦ ignoring deployment_id ignore_error (try_sync_units deployment_id (obj d)) w
  ]

  -- `sync_upstreams`
  unfoldable pub sync_upstreams :
      (deployment_id : String) → (ignore_error : Bool) → Task (World p e) Value
  unfolding fetch_runtime_upstreams
  sync_upstreams deployment_id ignore_error w =
      elim (get_deployment p.mongo deployment_id w.store) [
        | none ↦ (returned (sync_output deployment_id end), w)
        | some d ↦ ignoring deployment_id ignore_error (try_sync_upstreams deployment_id (obj d)) w
      ]

  -- the comprehension over the deployments: each is synchronised in turn, until one raises
  pub sync_each : (String → Task (World p e) Value) → List Fields → Task (World p e) (List Value)
  sync_each sync [] = pure []
  sync_each sync (d ∷ ds) = (access (id_of d) >>= sync) >>= λ output.
      sync_each sync ds >>= λ outputs. pure (output ∷ outputs)

  -- the body of a job, with or without the lock
  abbrev pub kept_output : {A : Type 0} → Outcome A × World p e → Outcome (Option A) × World p e
  kept_output (returned a, w) = (returned (some a), w)
  kept_output (retry x n c, w) = (retry x n c, w)
  kept_output (raised x, w) = (raised x, w)

  abbrev pub with_job_lock :
      {A : Type 0}
      → Result ResourceLocked Lock × e.State
      → Task (World p e) A
      → Task (World p e) (Option A)
  with_job_lock (err r, s) body w = (returned none, w)
  with_job_lock (ok lock, s) body w =
      kept_output ((body finally send (release_lock lock)) (record w { locks = s }))

  -- `_get_job_lock`: a lock that is taken is no lock
  unfoldable pub get_job_lock :
      LockService → (lock_value job_name : String) → e.State → Result ResourceLocked Lock × e.State
  get_job_lock service lock_value job_name = apply_lock e (job_service service) job_name lock_value

  -- `sync_promoted_units`
  unfoldable pub sync_promoted_units_task :
      LockService → (lock_value job_name : String) → Task (World p e) (Option (List Value))
  unfolding sync_each get_job_lock
  sync_promoted_units_task service lock_value job_name w =
      with_job_lock (get_job_lock service lock_value job_name w.locks)
        (λ w1.
          sync_each (λ id. sync_units id true)
            (filter_deployments p.mongo p.cluster_name (in_state state_promoted true) w1.store) w1)
        w

  -- `sync_promoted_upstreams`
  unfoldable pub sync_promoted_upstreams_task :
      LockService → (lock_value job_name : String) → Task (World p e) (Option (List Value))
  unfolding sync_each get_job_lock
  sync_promoted_upstreams_task service lock_value job_name w =
      with_job_lock (get_job_lock service lock_value job_name w.locks)
        (λ w1.
          sync_each (λ id. sync_upstreams id true)
            (filter_deployments p.mongo p.cluster_name (in_state state_promoted false) w1.store) w1)
        w

  -- `list_units`
  unfoldable pub list_units_task : String → Option String → Task (World p e) (List FleetUnit)
  list_units_task name version w = fault_or (p.filter_units name version none w.cluster) w

  -- the deployments of `recover_cluster`, each cloned; `uuid i` is the i-th value that is drawn
  unfoldable pub clone_each : (uuid : ℕ → String) → ℕ → List Fields → Access (List Value)
  clone_each uuid i [] = ok []
  clone_each uuid i (d ∷ ds) = elim (clone_deployment (uuid i) (obj d)) [
    | err x ↦ err x
    | ok v ↦ elim (clone_each uuid (i + 1) ds) [ ok vs ↦ ok (v ∷ vs) | err x ↦ err x ]
  ]

  abbrev pub recovery_chord : List Value → Sig
  recovery_chord vs = chord (signatures create vs) wait_for_deployment

  -- `recover_cluster`
  unfoldable pub recover_cluster_task :
      (uuid : ℕ → String) → RecoveryParams → Task (World p e) (Unit {0})
  unfolding clone_each
  recover_cluster_task uuid params w =
      (do
        clones ← access (
            clone_each uuid 0
              (filter_deployments p.mongo p.cluster_name (recovery_query params) w.store))
        send (recovery_chord clones))
        w
