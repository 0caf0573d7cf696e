-- ===== src/Tasks/Locking.antt =====
-- `_using_lock` and `_release_lock` of deployer/tasks/deployment.py.
pub mod Released
use cluster_deployer.Common.{ℕ, String, Option, none, some, List, [], ◌∷◌, ◌++◌, Bool}
use cluster_deployer.Common.Result.{Result, ok, err}
use cluster_deployer.Conf.{deployment_wait_retries, deployment_wait_retry_delay}
use cluster_deployer.Value.{Value, str, obj, Fields, end, field}
use cluster_deployer.Services.Lock.{LockService, Lock, ResourceLocked, apply_lock, release}
use cluster_deployer.Services.Lock.EtcdClient.{Etcd}
use cluster_deployer.Services.Storage.Mongo.{add_event}
use cluster_deployer.Tasks.Platform.{Platform}
use cluster_deployer.Tasks.Canvas.{Sig, Sigs, joined, linked, release_lock, async_wait, append_sig}
use cluster_deployer.Tasks.Exceptions.{resource_locked}
use cluster_deployer.Tasks.Monad.{World, Task, Outcome, returned, retry}

-- the wait for the task and the tasks that it begins
abbrev pub wait_for_deployment : Sig
wait_for_deployment = async_wait deployment_wait_retry_delay deployment_wait_retries

-- what `_using_lock` sends with a lock
abbrev pub locked_run : Lock → Sig → (cleanup_tasks error_tasks : Sigs) → Sig
locked_run lock do_task cleanup_tasks error_tasks =
    linked (joined do_task wait_for_deployment) (append_sig cleanup_tasks (release_lock lock))
      (append_sig error_tasks (release_lock lock))

module _ (p : Platform) (e : Etcd) (now : ℕ → ℕ) where
  -- `_using_lock`; the last two arguments are lists, empty for `None`
  unfoldable pub using_lock_task :
      LockService
      → (lock_value : String) → Fields
      → (name : String) → (do_task : Sig) → (cleanup_tasks error_tasks : Sigs)
      → Task (World p e) (Unit {0})
  unfolding apply_lock
  using_lock_task service lock_value search_params name do_task cleanup_tasks error_tasks w =
      let (r, locks) = apply_lock e service name lock_value w.locks in
      elim r [
        | err locked ↦ (retry (resource_locked locked) none none, w)
        | ok lock ↦ (
          returned tt,
          record w {
            locks = locks;
            store =
                add_event p.mongo now "ACQUIRED_LOCK" (obj (field "name" (str name) end))
                  search_params w.store;
            sent = w.sent ++ locked_run lock do_task cleanup_tasks error_tasks ∷ [];
          },
        )
      ]

  -- `_release_lock`
  unfoldable pub release_lock_task : Lock → Task (World p e) Bool
  release_lock_task lock w =
      let (released, locks) = release e (some lock) w.locks in
      (returned released, record w { locks = locks })
