-- ===== src/Tasks/Failure/Released.antt =====
-- What the tasks on an error of a deployment leave behind.
use cluster_deployer.Common.{
  ℕ, String, ◌≡◌, ◌≢◌, refl, sym, ap, ◌∙◌, subst, Bool, true, false, inl, inr, none, some, All,
}
use cluster_deployer.Common.Result.{err}
use cluster_deployer.Conf.{state_failed, state_decommissioned}
use cluster_deployer.Value.{Fields}
use cluster_deployer.Services.Lock.{Lock, release}
use cluster_deployer.Services.Lock.EtcdClient.{Etcd}
use cluster_deployer.Services.Lock.Laws.{Updates, release_exact}
use cluster_deployer.Services.Storage.Mongo.{add_event}
use cluster_deployer.Services.Storage.Mongo.States.{entries_of, AreDeployments}
use cluster_deployer.Services.Storage.Mongo.Kept.{
  is_promoted_app, update_state_bulk_clears, update_state-AreDeployments,
}
use cluster_deployer.Tasks.Platform.{Platform, retryable}
use cluster_deployer.Tasks.Canvas.{Deployment}
use cluster_deployer.Tasks.Exceptions.{TaskError}
use cluster_deployer.Tasks.Monad.{World, Task, returned, ◌>>◌}
use cluster_deployer.Tasks.Rules.{after, bind-after}
use cluster_deployer.Tasks.Fleet.{fleet_undeploy_task}
use cluster_deployer.Tasks.Fleet.Undeploy.{undeploy_returns}
use cluster_deployer.Tasks.Locking.{release_lock_task}
use cluster_deployer.Tasks.Failure.{deployment_error_event_task}

module _ (p : Platform) (e : Etcd) (now now_event : ℕ → ℕ) where
  release_returns :
      (lock : Lock) (w : World p e)
      → e.value w.locks lock.key ≡ some lock.value
      → (w' : World p e) × (release_lock_task p e now lock w ≡ (returned true, w'))
        × Updates e w.locks w'.locks lock.key none
        × (w'.store ≡ w.store)
  unfolding release_lock_task
  release_returns lock w h = elim (release_exact e lock w.locks) [
    | inl (held, done, free) ↦ (
      record w { locks = (release e (some lock) w.locks).1 },
      rw (done, release_lock_task) refl,
      free,
      refl,
    )
    | inr (lost, same) ↦ absurd (lost h)
  ]

  -- the tasks that `create` and `_using_lock` send for an error of the deployment, in their order
  abbrev pub error_run :
      TaskError → (text : String) → Deployment → Fields → Lock → Task (World p e) Bool
  error_run result text d search_params lock =
      deployment_error_event_task p e now now_event result text d search_params
      >> (fleet_undeploy_task p e now d.name (some d.version) none true
          >> release_lock_task p e now lock)

  -- After an error of a deployment whose lock is still held, and whose undeploy the provider does
  -- not ask to retry, the three tasks run to their end: the lock is released and no other key of the
  -- store of locks changes, and no deployment of the application and the version is promoted. The
  -- store has no array in the fields that filters test.
  pub error_run_releases :
      (result : TaskError) (text : String) (d : Deployment) (search_params : Fields) (lock : Lock)
      (w : World p e)
      → AreDeployments p.mongo w.store
      → e.value w.locks lock.key ≡ some lock.value
      → ((x : String) → (p.undeploy d.name (some d.version) none w.cluster).0 ≢ err (retryable x))
      → (w' : World p e) × (error_run result text d search_params lock w ≡ (returned true, w'))
        × Updates e w.locks w'.locks lock.key none
        × All
            (λ en. is_promoted_app p.cluster_name d.name (some d.version) en ≡ false)
            (entries_of p.mongo w'.store)
  unfolding deployment_error_event_task add_event
  error_run_releases result text d search_params lock w plain held ends =
      let w1 : World p e =
        (deployment_error_event_task p e now now_event result text d search_params w).1 in
      let (w2, undeployed, marked, kept) = undeploy_returns p e now d.name d.version w1 ends in
      let (w3, released, free, same) =
        release_returns lock w2
          (subst (λ l. e.value l lock.key ≡ some lock.value) (sym kept) held) in
      let plain1 : AreDeployments p.mongo w1.store =
        update_state-AreDeployments p.mongo now d.id state_failed w.store plain in
      (
        w3,
        bind-after (fleet_undeploy_task p e now d.name (some d.version) none true)
              (λ _. release_lock_task p e now lock) w1
            ∙ ap (after (λ _. release_lock_task p e now lock)) undeployed
            ∙ released,
        subst (λ l. Updates e l w3.locks lock.key none) kept free,
        subst
            (λ s.
              All (λ en. is_promoted_app p.cluster_name d.name (some d.version) en ≡ false)
                (entries_of p.mongo s))
            (sym (same ∙ marked))
            (update_state_bulk_clears p.mongo p.cluster_name now d.name state_decommissioned
              (some d.version) w1.store plain1 refl),
      )
