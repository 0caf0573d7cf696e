-- ===== src/Tasks/Sync/Released.antt =====
-- The synchronisation jobs: what they change, and the release of their lock.
use cluster_deployer.Common.{
  ℕ, String, ◌≡◌, ◌≢◌, refl, ◌∙◌, ap, true, false, ◌⊎◌, inl, inr, Option, none, some, [], ◌∷◌, ◌++◌,
}
use cluster_deployer.Common.Result.{Result, ok}
use cluster_deployer.Conf.{state_promoted}
use cluster_deployer.Services.Lock.{LockService, Lock, ResourceLocked, apply_lock}
use cluster_deployer.Services.Lock.EtcdClient.{Etcd}
use cluster_deployer.Services.Lock.Laws.{lock_of, apply_lock_exact, Updates}
use cluster_deployer.Services.Storage.Mongo.{filter_deployments}
use cluster_deployer.Tasks.Canvas.{Sig, release_lock}
use cluster_deployer.Tasks.Exceptions.{TaskError}
use cluster_deployer.Tasks.Monad.{World, Task, Outcome, returned, retry, raised, send}
use cluster_deployer.Tasks.Platform.{Platform}
use cluster_deployer.Tasks.Sync.{
  ◌finally◌, sync_units, sync_upstreams, sync_each, kept_output, with_job_lock, job_service,
  get_job_lock, sync_promoted_units_task, sync_promoted_upstreams_task, in_state,
}
use cluster_deployer.Tasks.Sync.Quiet.{
  SameBut, IsQuiet, sync_units-IsQuiet, sync_upstreams-IsQuiet, sync_each-IsQuiet,
}

-- The run of a job that takes the lock, does its work and hands the lock back; or, where the lock is
-- taken, does nothing and returns no result.
abbrev pub RunsLocked :
    {A : Type 0} (p : Platform) (e : Etcd)
    → Lock
    → World p e
    → Outcome (Option A) × World p e
    → Type 0
RunsLocked p e lock w (r, w') =
    ((e.value w.locks lock.key ≡ none)
      × (r ≢ returned none)
      × Updates e w.locks w'.locks lock.key (some lock.value)
      × (w'.sent ≡ w.sent ++ release_lock lock ∷ [])
      × (w'.cluster ≡ w.cluster))
    ⊎ (((u : String) × (e.value w.locks lock.key ≡ some u)) × (r ≡ returned none) × (w' ≡ w))

module _ (p : Platform) (e : Etcd) (now : ℕ → ℕ) (error_text : TaskError → String) where
  kept_output-some :
      {A : Type 0} (r : Outcome A × World p e)
      → (kept_output p e now error_text r).0 ≢ returned none
  kept_output-some (returned a, w) q = cc
  kept_output-some (retry x n c, w) q = cc
  kept_output-some (raised x, w) q = cc

  kept_output-world :
      {A : Type 0} (r : Outcome A × World p e) → (kept_output p e now error_text r).1 ≡ r.1
  kept_output-world (returned a, w) = refl
  kept_output-world (retry x n c, w) = refl
  kept_output-world (raised x, w) = refl

  finally-send :
      {A : Type 0} (body : Task (World p e) A) (s : Sig) (w : World p e)
      → IsQuiet body
      → SameBut (record w { sent = w.sent ++ s ∷ [] }) ((body finally send s) w).1
  finally-send body s w h = let (a, b, c) = h w in (ap (λ ss. ss ++ s ∷ []) a, b, c)

  with_job_lock-RunsLocked :
      {A : Type 0} (service : LockService) (v job_name : String) (body : Task (World p e) A)
      (w : World p e)
      → IsQuiet body
      → RunsLocked p e (lock_of (job_service service) job_name v) w (
          with_job_lock p e now error_text
            (get_job_lock p e now error_text service v job_name w.locks)
            body
            w)
  unfolding get_job_lock
  with_job_lock-RunsLocked {A} service v job_name body w h =
      elim (apply_lock_exact e (job_service service) job_name v w.locks) [
        | inl (free, got, changed) ↦
            held (apply_lock e (job_service service) job_name v w.locks) free got changed
        | inr (taken, same) ↦ rw same (inr (taken, refl, refl))
      ]
    where
      lock : Lock
      lock = lock_of (job_service service) job_name v

      held :
          (r : Result ResourceLocked Lock × e.State)
          → e.value w.locks lock.key ≡ none
          → r.0 ≡ ok lock
          → Updates e w.locks r.1 lock.key (some v)
          → RunsLocked p e lock w (with_job_lock p e now error_text r body w)
      held (x, s) free got changed = rw got (
          let w1 : World p e = record w { locks = s } in
          let run : Outcome A × World p e = (body finally send (release_lock lock)) w1 in
          let (a, b, c) = finally-send body (release_lock lock) w1 h in
          let q = kept_output-world run in
          inl (
            free,
            kept_output-some run,
            (λ j. ap (λ l. e.value l j) (ap (λ u. u.locks) q ∙ b) ∙ changed j),
            ap (λ u. u.sent) q ∙ a,
            ap (λ u. u.cluster) q ∙ c,
          ))

  -- Both synchronisations of the promoted deployments run under the lock of their job. Where its key is
  -- free, the job returns no empty result, the key now has the drawn value and no other key changes, the
  -- cluster is as it was, and the one task that is sent releases that lock: so it is after every outcome,
  -- be it outputs or an exception. Where the key has a value, the job returns no result and changes
  -- nothing.
  pub sync_jobs_release :
      (service : LockService) (v job_name : String) (w : World p e)
      → RunsLocked p e
          (lock_of (job_service service) job_name v)
          w
          (sync_promoted_units_task p e now error_text service v job_name w)
        × RunsLocked p e
            (lock_of (job_service service) job_name v)
            w
            (sync_promoted_upstreams_task p e now error_text service v job_name w)
  unfolding sync_promoted_units_task sync_promoted_upstreams_task
  sync_jobs_release service v job_name w = (
    with_job_lock-RunsLocked service v job_name
        (λ w1.
          sync_each p e now error_text (λ id. sync_units p e now error_text id true)
            (filter_deployments p.mongo p.cluster_name (in_state state_promoted true) w1.store) w1)
        w
        (λ w1.
          sync_each-IsQuiet p e now error_text (λ id. sync_units p e now error_text id true)
            (λ id. sync_units-IsQuiet p e now error_text id true)
            (filter_deployments p.mongo p.cluster_name (in_state state_promoted true) w1.store) w1),
    with_job_lock-RunsLocked service v job_name
        (λ w1.
          sync_each p e now error_text (λ id. sync_upstreams p e now error_text id true)
            (filter_deployments p.mongo p.cluster_name (in_state state_promoted false) w1.store) w1)
        w
        (λ w1.
          sync_each-IsQuiet p e now error_text (λ id. sync_upstreams p e now error_text id true)
            (λ id. sync_upstreams-IsQuiet p e now error_text id true)
            (filter_deployments p.mongo p.cluster_name (in_state state_promoted false) w1.store)
            w1),
  )
