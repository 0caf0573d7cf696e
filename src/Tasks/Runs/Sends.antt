-- ===== src/Tasks/Runs/Sends.antt =====
-- Tasks that send only signatures with a property, and leave a property of the locks.
use cluster_deployer.Common.{String, sym, subst, inl, inr, Option, [], ◌∷◌, All, All-append}
use cluster_deployer.Common.Result.{Result, Result-cases}
use cluster_deployer.Services.Lock.EtcdClient.{Etcd}
use cluster_deployer.Tasks.Canvas.{Sig}
use cluster_deployer.Tasks.Monad.{
  World, Task, Outcome, returned, retry, raised, ◌>>=◌, send, fleet_call, fetch_units,
}
use cluster_deployer.Tasks.Platform.{Platform, Fault, retryable, other}
use cluster_deployer.Tasks.Rules.{after, bind-after}

module _ {p : Platform} {e : Etcd} (R : e.State → Type 0) (Q : Sig → Type 0) where
  -- the locks and what is sent have the properties
  abbrev pub Keeps : World p e → Type 0
  Keeps w = R w.locks × All Q w.sent

  abbrev pub SendsOnly : {A : Type 0} → Task (World p e) A → Type 0
  SendsOnly m = (w : World p e) → Keeps w → Keeps (m w).1

  pub bind-SendsOnly :
      {A B : Type 0} (m : Task (World p e) A) (k : A → Task (World p e) B)
      → SendsOnly m
      → ((a : A) → SendsOnly (k a))
      → SendsOnly (m >>= k)
  bind-SendsOnly {A} {B} m k hm hk w h =
      subst (λ (r : Outcome B × World p e). Keeps r.1) (sym (bind-after m k w)) (go (m w) (hm w h))
    where
      go : (r : Outcome A × World p e) → Keeps r.1 → Keeps (after k r).1
      go (returned a, w1) h1 = hk a w1 h1
      go (retry x n c, w1) h1 = h1
      go (raised x, w1) h1 = h1

  pub send-SendsOnly : (s : Sig) → Q s → SendsOnly (send s)
  send-SendsOnly s q w h = (h.0, All-append Q w.sent (s ∷ []) h.1 (q, tt))

  pub fleet_call-SendsOnly :
      (call : p.Cluster → Result Fault (Unit {0}) × p.Cluster)
      (on_other : Fault → Task (World p e) (Unit {0}))
      → ((f : Fault) → SendsOnly (on_other f))
      → SendsOnly (fleet_call call on_other)
  fleet_call-SendsOnly call on_other k w h = elim (Result-cases (call w.cluster).0) [
    | inl (u, q) ↦ rw (q, fleet_call) h
    | inr (retryable x, q) ↦ rw (q, fleet_call) h
    | inr (other x, q) ↦
        rw (q, fleet_call) (k (other x) (record w { cluster = (call w.cluster).1 }) h)
  ]

  pub fetch_units-SendsOnly :
      (name : String) (version exclude_version : Option String)
      → SendsOnly (fetch_units name version exclude_version)
  fetch_units-SendsOnly name version exclude_version w h =
      elim (Result-cases (p.filter_units name version exclude_version w.cluster)) [
        | inl (units, q) ↦ rw (q, fetch_units) h
        | inr (retryable x, q) ↦ rw (q, fetch_units) h
        | inr (other x, q) ↦ rw (q, fetch_units) h
      ]
