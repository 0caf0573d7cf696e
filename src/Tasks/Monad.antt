-- ===== src/Tasks/Monad.antt =====
-- A task run: it reads and changes the world, and returns, asks Celery for a retry, or raises. What it
-- sends with `delay` or `apply_async` is recorded in the order of sending.
use cluster_deployer.Common.{ℕ, String, Option, some, List, [], ◌∷◌, ◌++◌}
use cluster_deployer.Common.Result.{Result, ok, err}
use cluster_deployer.Services.Lock.EtcdClient.{Etcd}
use cluster_deployer.Services.Storage.Mongo.{MongoStore}
use cluster_deployer.Tasks.Platform.{Platform, Fault, retryable, other, FleetUnit}
use cluster_deployer.Tasks.Canvas.{Sig}
use cluster_deployer.Tasks.Exceptions.{TaskError, fleet_fault}
use cluster_deployer.Conf.{ssh_retries, ssh_retry_delay}

-- `raise self.retry(exc=..., max_retries=..., countdown=...)`; without the last two Celery takes those
-- of the task's decorator.
pub data Outcome (A : Type 0) : Type 0 where
  returned : A → Outcome A
  retry : TaskError → (max_retries countdown : Option ℕ) → Outcome A
  raised : TaskError → Outcome A

pub record World (p : Platform) (e : Etcd) : Type 0 where
  pub store : MongoStore p.mongo
  pub cluster : p.Cluster
  pub locks : e.State
  pub sent : List Sig

abbrev pub Task : Type 0 → Type 0 → Type 0
Task W A = W → Outcome A × W

module _ {W : Type 0} where
  abbrev pub pure : {A : Type 0} → A → Task W A
  pure a w = (returned a, w)

  abbrev pub try_again : {A : Type 0} → TaskError → Option ℕ → Option ℕ → Task W A
  try_again x max_retries countdown w = (retry x max_retries countdown, w)

  abbrev pub raise : {A : Type 0} → TaskError → Task W A
  raise x w = (raised x, w)

  infixl 5 ◌>>=◌ ◌>>◌
  abbrev pub ◌>>=◌ : {A B : Type 0} → Task W A → (A → Task W B) → Task W B
  ◌>>=◌ m f w =
      let (r, w') = m w in
      elim r [ returned a ↦ f a w' | retry x n c ↦ (retry x n c, w') | raised x ↦ (raised x, w') ]

  abbrev pub ◌>>◌ : {B : Type 0} → Task W (Unit {0}) → Task W B → Task W B
  m >> k = m >>= λ _. k

module _ {p : Platform} {e : Etcd} where
  -- `signature.delay()`
  abbrev pub send : Sig → Task (World p e) (Unit {0})
  send s w = (returned tt, record w { sent = w.sent ++ s ∷ [] })

  abbrev pub change_store : (MongoStore p.mongo → MongoStore p.mongo) → Task (World p e) (Unit {0})
  change_store f w = (returned tt, record w { store = f w.store })

  -- The clause `except RETRYABLE_FLEET_EXCEPTIONS as exc`, on a call that changes the cluster,
  -- whether it returns or raises; `on_other` is what follows any other exception.
  abbrev pub fleet_call :
      (p.Cluster → Result Fault (Unit {0}) × p.Cluster)
      → (on_other : Fault → Task (World p e) (Unit {0})) → Task (World p e) (Unit {0})
  fleet_call call on_other w =
      let w1 : World p e = record w { cluster = (call w.cluster).1 } in
      elim (call w.cluster).0 [
        | ok _ ↦ (returned tt, w1)
        | err (retryable x) ↦
            (retry (fleet_fault (retryable x)) (some ssh_retries) (some ssh_retry_delay), w1)
        | err (other x) ↦ on_other (other x) w1
      ]

  -- The same clause on `fetch_runtime_units`; any other exception goes on.
  abbrev pub fetch_units :
      String → (version exclude_version : Option String) → Task (World p e) (List FleetUnit)
  fetch_units name version exclude_version w =
      elim (p.filter_units name version exclude_version w.cluster) [
        | ok units ↦ (returned units, w)
        | err (retryable x) ↦
            (retry (fleet_fault (retryable x)) (some ssh_retries) (some ssh_retry_delay), w)
        | err (other x) ↦ (raised (fleet_fault (other x)), w)
      ]
