-- ===== src/Tasks/Runs/Past.antt =====
-- What has happened in a run: the tasks that have returned, and what was the case when they ran.
use cluster_deployer.Common.{
  ℕ, ◌*◌, ◌≤◌, String, ◌≡◌, refl, sym, subst, false, ◌⊎◌, inl, inr, none, some, List, [], ◌∷◌,
  length, Bool-cases,
}
use cluster_deployer.Services.Lock.{LockService, lock_key}
use cluster_deployer.Services.Lock.EtcdClient.{Etcd}
use cluster_deployer.Services.Storage.Collection.{keep}
use cluster_deployer.Tasks.Canvas.{
  Sig, nil, using_lock, start_deployment, wait_for_undeploy, fleet_check_deploy, check_discover,
}
use cluster_deployer.Tasks.Check.{get_discovered_nodes, check_discover_task}
use cluster_deployer.Tasks.Check.Gates.{check_discover_gate}
use cluster_deployer.Tasks.Fleet.{wait_for_undeploy_task, fleet_check_deploy_task}
use cluster_deployer.Tasks.Fleet.Waits.{Reported, fleet_check_deploy_gate, wait_for_undeploy_gate}
use cluster_deployer.Tasks.Locking.{using_lock_task}
use cluster_deployer.Tasks.Locking.Released.{using_lock_gate}
use cluster_deployer.Tasks.Monad.{World, Outcome, returned, retry, raised}
use cluster_deployer.Tasks.Platform.{Platform, is_started}
use cluster_deployer.Tasks.Rules.{Passes}
use cluster_deployer.Tasks.Runs.Dispatch.{done, Input, ended, dispatch}
use cluster_deployer.Tasks.Runs.Facts.{
  Fact, locked, started, undeployed, running, discovered, Shows,
}
use cluster_deployer.Tasks.Start.{
  TaskSettings, start_deployment_task, limit_reached, used_concurrency,
}

module _ (p : Platform) (e : Etcd) (now now_event : ℕ → ℕ) (settings : TaskSettings)
    (service : LockService) where
  -- what is the case in the world in which a task shows the fact
  abbrev pub Holds : Fact → World p e → Type 0
  Holds (locked name) w = e.value w.locks (lock_key service name) ≡ none
  Holds (started id) w =
      limit_reached settings.concurrency (used_concurrency p e now w.store) ≡ false
  Holds (undeployed name version exclude_version) w =
      Reported p e now name version exclude_version w (λ units. units ≡ [])
  Holds (running name version service_cnt m) w =
      Reported p e now name (some version) none w
        (λ units. m * service_cnt ≤ length (keep is_started units))
  Holds (discovered name version none m mode) w = Unit
  Holds (discovered name version (some port) m mode) w =
      m ≤ length (get_discovered_nodes p e now name version port mode w.cluster)

  -- A task that shows the fact has returned, in a world in which it held.
  abbrev pub Past : List (Sig × World p e) → Fact → Type 0
  Past [] x = ⊥
  Past ((t, w) ∷ past) x = (Shows t x × Holds x w) ⊎ Past past x

  -- What a task shows follows from what holds of it when it returns.
  done_lem :
      {A : Type 0} (i : Input) (Q : A → World p e → Type 0) (R : Type 0) (w : World p e)
      (r : Outcome A × World p e)
      → Passes Q w r
      → ((a : A) (w1 : World p e) → Q a w1 → R)
      → ended i r.0 ≡ done
      → R
  done_lem i Q R w (returned a, w1) h f q = f a w1 h
  done_lem i Q R w (retry x n c, w1) h f q = elim (Bool-cases i.retries_left) [
    | inl b ↦ cc (rw b at q)
    | inr b ↦ cc (rw b at q)
  ]
  done_lem i Q R w (raised x, w1) h f q = cc q

  start_gate :
      (id : String) (w : World p e)
      → Passes (λ _ _. Holds (started id) w) w (start_deployment_task p e now settings id w)
  unfolding start_deployment_task
  start_gate id w =
      elim (Bool-cases (limit_reached settings.concurrency (used_concurrency p e now w.store))) [
        | inl q ↦ rw q refl
        | inr q ↦ rw q refl
      ]

  -- A task that returns shows what held when it ran.
  pub dispatch-Holds :
      (i : Input) (t : Sig) (w : World p e)
      → (dispatch p e now now_event settings service i t w).0 ≡ done
      → (x : Fact) → Shows t x
      → Holds x w
  unfolding dispatch
  dispatch-Holds i (start_deployment id) w q x h =
      subst (λ y. Holds y w) (sym h)
        (done_lem i (λ _ _. Holds (started id) w) _ w (start_deployment_task p e now settings id w)
          (start_gate id w) (λ _ _ k. k) q)
  dispatch-Holds i (using_lock f name t es) w q x h =
      subst (λ y. Holds y w) (sym h)
        (done_lem i _ (Holds (locked name) w) w
          (using_lock_task p e now service i.lock_value f name t nil es w)
          (using_lock_gate p e now service i.lock_value f name t nil es w) (λ _ _ k. k.0) q)
  dispatch-Holds i (wait_for_undeploy name version exclude_version f) w q x h =
      subst (λ y. Holds y w) (sym h)
        (done_lem i _ (Holds (undeployed name version exclude_version) w) w
          (wait_for_undeploy_task p e now name version exclude_version f w)
          (wait_for_undeploy_gate p e now name version exclude_version f w) (λ _ _ k. k.0) q)
  dispatch-Holds i (fleet_check_deploy name version service_cnt m f n) w q x h =
      subst (λ y. Holds y w) (sym h)
        (done_lem i _ (Holds (running name version service_cnt m) w) w
          (fleet_check_deploy_task p e now name version service_cnt m f n w)
          (fleet_check_deploy_gate p e now name version service_cnt m f n w) (λ _ _ k. k.0) q)
  dispatch-Holds i (check_discover name version none m mode f) w q x h =
      subst (λ y. Holds y w) (sym h) tt
  dispatch-Holds i (check_discover name version (some port) m mode f) w q x h =
      subst (λ y. Holds y w) (sym h)
        (done_lem i _ (Holds (discovered name version (some port) m mode) w) w
          (check_discover_task p e now name version (some port) m mode f w)
          (check_discover_gate p e now name version port m mode f w) (λ _ _ k. k.1) q)
  dispatch-Holds i t w q x h = absurd h
