-- ===== src/Tasks/Rules.antt =====
-- Case rules for the calls that may fail: what holds of the run of a task that begins with the call
-- follows from the cases of the call.
use cluster_deployer.Common.{
  String, ◌≡◌, refl, sym, ap, subst, Option, some, inl, inr, ◌∙◌, List, ℕ,
}
use cluster_deployer.Common.Result.{Result, ok, err, Result-cases}
use cluster_deployer.Conf.{ssh_retries, ssh_retry_delay}
use cluster_deployer.Services.Lock.EtcdClient.{Etcd}
use cluster_deployer.Tasks.Platform.{Platform, Fault, retryable, other, FleetUnit}
use cluster_deployer.Tasks.Exceptions.{fleet_fault}
use cluster_deployer.Tasks.Monad.{
  World, Task, Outcome, returned, retry, raised, ◌>>=◌, fleet_call, fetch_units,
}

-- A run that stops, in a retry or an exception, has changed nothing; one that returns satisfies `Q`.
abbrev pub Passes : {W A : Type 0} → (A → W → Type 0) → W → Outcome A × W → Type 0
Passes Q w (returned a, w') = Q a w'
Passes Q w (retry x n c, w') = w' ≡ w
Passes Q w (raised x, w') = w' ≡ w

-- The step from the run of an action to that of the block that it begins.
abbrev pub after : {W A B : Type 0} → (A → Task W B) → Outcome A × W → Outcome B × W
after k (returned a, w) = k a w
after k (retry x n c, w) = (retry x n c, w)
after k (raised x, w) = (raised x, w)

-- A run that stops satisfies `S`; one that returns satisfies `Q`.
abbrev pub Ends : {W A : Type 0} → (W → Type 0) → (A → W → Type 0) → Outcome A × W → Type 0
Ends S Q (returned a, w') = Q a w'
Ends S Q (retry x n c, w') = S w'
Ends S Q (raised x, w') = S w'

module _ {W A B : Type 0} where
  pub bind-after : (m : Task W A) (k : A → Task W B) (w : W) → (m >>= k) w ≡ after k (m w)
  bind-after m k w = go (m w)
    where
      go :
          (r : Outcome A × W)
          → elim r.0 [
            | returned a ↦ k a r.1
            | retry x n c ↦ (retry x n c, r.1)
            | raised x ↦ (raised x, r.1)
          ]
            ≡ after k r
      go (returned a, w') = refl
      go (retry x n c, w') = refl
      go (raised x, w') = refl

module _ {p : Platform} {e : Etcd} {B : Type 0} (P : Outcome B × World p e → Type 0)
    (w : World p e) where
  pub starts :
      {A : Type 0} (m : Task (World p e) A) (k : A → Task (World p e) B) (r : Outcome A × World p e)
      → m w ≡ r
      → P (after k r)
      → P ((m >>= k) w)
  starts m k r q h = subst P (sym (bind-after m k w ∙ ap (after k) q)) h

  pub fetch_units_cases :
      (name : String) (version exclude_version : Option String)
      (k : List FleetUnit → Task (World p e) B)
      → ((units : List FleetUnit)
          → p.filter_units name version exclude_version w.cluster ≡ ok units
          → P (k units w))
      → ((f : Fault) (n c : Option ℕ) → P (retry (fleet_fault f) n c, w))
      → ((f : Fault) → P (raised (fleet_fault f), w))
      → P ((fetch_units name version exclude_version >>= k) w)
  fetch_units_cases name version exclude_version k good again bad =
      let m : Task (World p e) (List FleetUnit) = fetch_units name version exclude_version in
      elim (Result-cases (p.filter_units name version exclude_version w.cluster)) [
        | inl (units, q) ↦ starts m k (returned units, w) (rw (q, fetch_units)) (good units q)
        | inr (retryable x, q) ↦
            starts m k
              (retry (fleet_fault (retryable x)) (some ssh_retries) (some ssh_retry_delay), w)
              (rw (q, fetch_units)) (again (retryable x) (some ssh_retries) (some ssh_retry_delay))
        | inr (other x, q) ↦
            starts m k (raised (fleet_fault (other x)), w) (rw (q, fetch_units)) (bad (other x))
      ]

  pub fleet_call_cases :
      (call : p.Cluster → Result Fault (Unit {0}) × p.Cluster)
      (on_other : Fault → Task (World p e) (Unit {0})) (k : Unit {0} → Task (World p e) B)
      → ((call w.cluster).0 ≡ ok tt → P (k tt (record w { cluster = (call w.cluster).1 })))
      → ((x : String)
          → (call w.cluster).0 ≡ err (retryable x)
          → P (
            retry (fleet_fault (retryable x)) (some ssh_retries) (some ssh_retry_delay),
            record w { cluster = (call w.cluster).1 },
          ))
      → ((x : String)
          → (call w.cluster).0 ≡ err (other x)
          → P (after k (on_other (other x) (record w { cluster = (call w.cluster).1 }))))
      → P ((fleet_call call on_other >>= k) w)
  fleet_call_cases call on_other k good again bad =
      let m : Task (World p e) (Unit {0}) = fleet_call call on_other in
      let w1 : World p e = record w { cluster = (call w.cluster).1 } in
      elim (Result-cases (call w.cluster).0) [
        | inl (u, q) ↦ starts m k (returned tt, w1) (rw (q, fleet_call)) (good q)
        | inr (retryable x, q) ↦
            starts m k
              (retry (fleet_fault (retryable x)) (some ssh_retries) (some ssh_retry_delay), w1)
              (rw (q, fleet_call)) (again x q)
        | inr (other x, q) ↦ starts m k (on_other (other x) w1) (rw (q, fleet_call)) (bad x q)
      ]
