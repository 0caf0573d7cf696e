-- ===== src/Tasks/Sync/Quiet.antt =====
-- The synchronisations send nothing and change neither the locks nor the cluster.
use cluster_deployer.Common.{
  ℕ, String, ◌≡◌, refl, sym, ◌∙◌, subst, Bool, inl, inr, none, some, List, [], ◌∷◌, Bool-cases,
  Option-cases,
}
use cluster_deployer.Common.Result.{Result, ok, err}
use cluster_deployer.Services.Lock.EtcdClient.{Etcd}
use cluster_deployer.Services.Storage.Mongo.{get_deployment}
use cluster_deployer.Tasks.Exceptions.{TaskError}
use cluster_deployer.Tasks.Monad.{World, Task, Outcome, returned, retry, raised, pure, ◌>>=◌}
use cluster_deployer.Tasks.Platform.{Platform, Fault}
use cluster_deployer.Tasks.Rules.{bind-after, after}
use cluster_deployer.Tasks.Upstreams.{name_and_version, id_of, fetch_runtime_upstreams}
use cluster_deployer.Tasks.Sync.{
  access, fault_or, ignoring, units_named, store_units, store_upstreams, try_sync_units,
  try_sync_upstreams, sync_units, sync_upstreams, sync_each,
}
use cluster_deployer.Value.{Value, Fields, obj}
use cluster_deployer.Value.Access.{Access}

module _ {p : Platform} {e : Etcd} where
  -- However the task ends, it has sent nothing, and the locks and the cluster are as they were.
  abbrev pub SameBut : World p e → World p e → Type 0
  SameBut w w' = (w'.sent ≡ w.sent) × (w'.locks ≡ w.locks) × (w'.cluster ≡ w.cluster)

  abbrev pub IsQuiet : {A : Type 0} → Task (World p e) A → Type 0
  IsQuiet m = (w : World p e) → SameBut w (m w).1

  SameBut-trans : (u v w : World p e) → SameBut u v → SameBut v w → SameBut u w
  SameBut-trans u v w (a, b, c) (a', b', c') = (a' ∙ a, b' ∙ b, c' ∙ c)

  bind-IsQuiet :
      {A B : Type 0} (m : Task (World p e) A) (k : A → Task (World p e) B)
      → IsQuiet m
      → ((a : A) → IsQuiet (k a))
      → IsQuiet (m >>= k)
  bind-IsQuiet {A} {B} m k hm hk w =
      subst (λ (r : Outcome B × World p e). SameBut w r.1) (sym (bind-after m k w))
        (go (m w) (hm w))
    where
      go : (r : Outcome A × World p e) → SameBut w r.1 → SameBut w (after k r).1
      go (returned a, w1) h = SameBut-trans w w1 (k a w1).1 h (hk a w1)
      go (retry x n c, w1) h = h
      go (raised x, w1) h = h

  access-IsQuiet : {A : Type 0} (a : Access A) → IsQuiet (access a)
  access-IsQuiet (ok a) w = (refl, refl, refl)
  access-IsQuiet (err x) w = (refl, refl, refl)

  fault_or-IsQuiet : {A : Type 0} (r : World p e → Result Fault A) → IsQuiet (λ w. fault_or (r w) w)
  fault_or-IsQuiet {A} r w = go (r w)
    where
      go : (x : Result Fault A) → SameBut w (fault_or x w).1
      go (ok a) = (refl, refl, refl)
      go (err x) = (refl, refl, refl)

module _ (p : Platform) (e : Etcd) (now : ℕ → ℕ) (error_text : TaskError → String) where
  ignoring-IsQuiet :
      (deployment_id : String) (ignore_error : Bool) (m : Task (World p e) Value)
      → IsQuiet m
      → IsQuiet (ignoring p e now error_text deployment_id ignore_error m)
  ignoring-IsQuiet deployment_id ignore_error m h w = go (m w) (h w)
    where
      go :
          (r : Outcome Value × World p e)
          → SameBut w r.1
          → SameBut w (ignoring p e now error_text deployment_id ignore_error (λ _. r) w).1
      go (returned v, w1) q = q
      go (retry x n c, w1) q = q
      go (raised x, w1) q = elim (Bool-cases ignore_error) [ inl b ↦ rw b q | inr b ↦ rw b q ]

  units_named-IsQuiet : (i : String × String) → IsQuiet (units_named p e now error_text i)
  units_named-IsQuiet (name, version) w =
      fault_or-IsQuiet (λ w1. p.filter_units name (some version) none w1.cluster) w

  pub sync_units-IsQuiet :
      (deployment_id : String) (ignore_error : Bool)
      → IsQuiet (sync_units p e now error_text deployment_id ignore_error)
  unfolding sync_units
  sync_units-IsQuiet deployment_id ignore_error w =
      elim (Option-cases (get_deployment p.mongo deployment_id w.store)) [
        | inl q ↦ rw (q, sync_units) (refl, refl, refl)
        | inr (d, q) ↦
            rw (q, sync_units)
              (let source = access (name_and_version (obj d)) in
                ignoring-IsQuiet deployment_id ignore_error
                  (try_sync_units p e now error_text deployment_id (obj d))
                  (bind-IsQuiet (source >>= units_named p e now error_text)
                    (store_units p e now error_text deployment_id)
                    (bind-IsQuiet source (units_named p e now error_text)
                      (access-IsQuiet (name_and_version (obj d))) units_named-IsQuiet)
                    (λ units w1. (refl, refl, refl)))
                  w)
      ]

  pub sync_upstreams-IsQuiet :
      (deployment_id : String) (ignore_error : Bool)
      → IsQuiet (sync_upstreams p e now error_text deployment_id ignore_error)
  unfolding sync_upstreams
  sync_upstreams-IsQuiet deployment_id ignore_error w =
      elim (Option-cases (get_deployment p.mongo deployment_id w.store)) [
        | inl q ↦ rw (q, sync_upstreams) (refl, refl, refl)
        | inr (d, q) ↦
            rw (q, sync_upstreams)
              (ignoring-IsQuiet deployment_id ignore_error
                (try_sync_upstreams p e now error_text deployment_id (obj d))
                (bind-IsQuiet (λ w1. access (fetch_runtime_upstreams p (obj d) w1.cluster) w1)
                  (store_upstreams p e now error_text deployment_id)
                  (λ w1. access-IsQuiet (fetch_runtime_upstreams p (obj d) w1.cluster) w1)
                  (λ upstreams w1. (refl, refl, refl)))
                w)
      ]

  pub sync_each-IsQuiet :
      (sync : String → Task (World p e) Value)
      → ((id : String) → IsQuiet (sync id))
      → (ds : List Fields) (w : World p e) → SameBut w (sync_each p e now error_text sync ds w).1
  unfolding sync_each
  sync_each-IsQuiet sync h [] w = (refl, refl, refl)
  sync_each-IsQuiet sync h (d ∷ ds) w =
      bind-IsQuiet (access (id_of d) >>= sync)
        (λ output. sync_each p e now error_text sync ds >>= λ outputs. pure (output ∷ outputs))
        (bind-IsQuiet (access (id_of d)) sync (access-IsQuiet (id_of d)) h)
        (λ output.
          bind-IsQuiet (sync_each p e now error_text sync ds) (λ outputs. pure (output ∷ outputs))
            (sync_each-IsQuiet sync h ds) (λ outputs w. (refl, refl, refl)))
        w
