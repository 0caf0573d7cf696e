-- ===== src/Tasks/Locking/Released.antt =====
-- `_using_lock`: the lock that it acquires is released after success and after an error.
use cluster_deployer.Common.{ℕ, String, ◌≡◌, refl, none, some, inl, inr, List, [], ◌∷◌, ◌++◌}
use cluster_deployer.Value.{Fields}
use cluster_deployer.Services.Lock.{LockService, Lock, lock_key}
use cluster_deployer.Services.Lock.EtcdClient.{Etcd}
use cluster_deployer.Services.Lock.Laws.{lock_of, apply_lock_exact, Updates}
use cluster_deployer.Tasks.Platform.{Platform}
use cluster_deployer.Tasks.Canvas.{
  Sig, Sigs, nil, cons, Next, nothing, next, joined, linked, release_lock, append_sig,
}
use cluster_deployer.Tasks.Monad.{World, Outcome, returned, retry, raised}
use cluster_deployer.Tasks.Exceptions.{resource_locked}
use cluster_deployer.Tasks.Rules.{Passes}
use cluster_deployer.Tasks.Locking.{wait_for_deployment, using_lock_task}

-- the last signature of a list
abbrev pub last : Sigs → Next
last nil = nothing
last (cons s nil) = next s
last (cons s (cons t ts)) = last (cons t ts)

last-append_sig : (ss : Sigs) (s : Sig) → last (append_sig ss s) ≡ next s
last-append_sig nil s = refl
last-append_sig (cons t nil) s = refl
last-append_sig (cons t (cons u us)) s = last-append_sig (cons u us) s

-- The task is sent, and both the tasks after its success and those after its error end with the
-- release of the lock.
abbrev pub SendsReleased : Lock → Sig → List Sig → List Sig → Type 0
SendsReleased lock do_task sent sent' =
    (link : Sigs) × (link_error : Sigs) × (sent'
      ≡ sent ++ linked (joined do_task wait_for_deployment) link link_error ∷ [])
    × (last link ≡ next (release_lock lock))
    × (last link_error ≡ next (release_lock lock))

module _ (p : Platform) (e : Etcd) (now : ℕ → ℕ) where
  -- If `_using_lock` returns, it has the lock, and has sent the task with its release.
  pub using_lock_gate :
      (service : LockService) (v : String) (search_params : Fields) (name : String) (do_task : Sig)
      (cleanup_tasks error_tasks : Sigs) (w : World p e)
      → Passes
          (λ _ w'.
            (e.value w.locks (lock_key service name) ≡ none)
            × Updates e w.locks w'.locks (lock_key service name) (some v)
            × SendsReleased (lock_of service name v) do_task w.sent w'.sent
            × (w'.cluster ≡ w.cluster))
          w
          (using_lock_task p e now service v search_params name do_task cleanup_tasks error_tasks w)
  unfolding using_lock_task
  using_lock_gate service v search_params name do_task cleanup_tasks error_tasks w =
      let lock = lock_of service name v in
      elim (apply_lock_exact e service name v w.locks) [
        | inl (free, got, changed) ↦
            rw (got, using_lock_task)
              (
                free,
                changed,
                (
                  append_sig cleanup_tasks (release_lock lock),
                  append_sig error_tasks (release_lock lock),
                  refl,
                  last-append_sig cleanup_tasks (release_lock lock),
                  last-append_sig error_tasks (release_lock lock),
                ),
                refl,
              )
        | inr ((u, taken), same) ↦ rw (same, using_lock_task) refl
      ]

  -- how a run ends that does not have the lock
  abbrev pub AsksAgain : Lock → (before : e.State) → Outcome (Unit {0}) × World p e → Type 0
  AsksAgain lock before (returned u, w') = Unit
  AsksAgain lock before (retry x n c, w') =
      (x ≡ resource_locked (record { name = lock.name; key = lock.key }))
      × (n ≡ none)
      × (c ≡ none)
      × ((u : String) × (e.value before lock.key ≡ some u))
  AsksAgain lock before (raised x, w') = ⊥

  -- `_using_lock` sends no task without the lock, and no task without the release of the lock. If it
  -- returns, the lock's key was free and now has the value, no other key has changed, and what it has
  -- sent is the task, with two lists that both end with the release of the lock: one for after its success,
  -- one for after its error; the cluster is as it was. Otherwise the key had a value, and it asks for a
  -- retry, for a resource that is locked and with the delay and the retries of the task, and has changed
  -- nothing. It never ends with a failure.
  pub using_lock_exact :
      (service : LockService) (v : String) (search_params : Fields) (name : String) (do_task : Sig)
      (cleanup_tasks error_tasks : Sigs) (w : World p e)
      → Passes
          (λ _ w'.
            (e.value w.locks (lock_key service name) ≡ none)
            × Updates e w.locks w'.locks (lock_key service name) (some v)
            × SendsReleased (lock_of service name v) do_task w.sent w'.sent
            × (w'.cluster ≡ w.cluster))
          w
          (using_lock_task p e now service v search_params name do_task cleanup_tasks error_tasks w)
        × AsksAgain (lock_of service name v) w.locks (
            using_lock_task p e now service v search_params name do_task cleanup_tasks error_tasks
              w)
  unfolding using_lock_task
  using_lock_exact service v search_params name do_task cleanup_tasks error_tasks w = (
    using_lock_gate service v search_params name do_task cleanup_tasks error_tasks w,
    elim (apply_lock_exact e service name v w.locks) [
      | inl (free, got, changed) ↦ rw (got, using_lock_task) tt
      | inr ((u, taken), same) ↦ rw (same, using_lock_task) (refl, refl, refl, (u, taken))
    ],
  )
