-- ===== src/Tasks/Runs/Kept.antt =====
-- A run of a task whose signature is safe leaves only safe signatures, with what the task shows.
use cluster_deployer.Common.{
  ℕ, ◌≡◌, sym, subst, false, ◌⊎◌, inl, inr, List, [], All, All-mono, if◌then◌else◌,
}
use cluster_deployer.Services.Lock.{LockService}
use cluster_deployer.Services.Lock.EtcdClient.{Etcd}
use cluster_deployer.Tasks.Canvas.{
  Sig, Next, nothing, next, create, start_deployment, pre_create_undeploy, register_upstreams,
  deploy_all, fleet_deploy, fleet_start_and_wait, fleet_start, fleet_check_deploy, check_discover,
  check_deployment, check_node, deployment_check_passed, promote_deployment, promote_success,
  fleet_stop, wait_for_stop, fleet_undeploy, wait_for_undeploy, using_lock, release_lock,
  async_wait, deployment_error_event, notify, joined, chain, chord, linked,
}
use cluster_deployer.Tasks.Fleet.{fleet_check_deploy_task}
use cluster_deployer.Tasks.Fleet.Waits.{next_list, Sends, fleet_check_deploy_gate}
use cluster_deployer.Tasks.Monad.{World, Outcome, returned, retry, raised}
use cluster_deployer.Tasks.Platform.{Platform}
use cluster_deployer.Tasks.Rules.{Passes}
use cluster_deployer.Tasks.Runs.Dispatch.{Ended, done, again, failed, Input, ended, dispatch}
use cluster_deployer.Tasks.Runs.Emits.{
  create-Safe, pre_create_undeploy-Safe, deploy_all-Safe, fleet_start_and_wait-Safe,
}
use cluster_deployer.Tasks.Runs.Promotes.{
  check_deployment-Safe, deployment_check_passed-Safe, promote_deployment-Safe,
  promote_success-Safe, using_lock-Safe, deployment_error_event-Safe,
}
use cluster_deployer.Tasks.Runs.Facts.{Fact, locked, WithTask, Safe, SafeNext}
use cluster_deployer.Tasks.Runs.Sends.{Keeps}
use cluster_deployer.Tasks.Runs.Silent.{
  start_deployment-IsSilent, register_upstreams-IsSilent, fleet_deploy-IsSilent,
  fleet_start-IsSilent, fleet_stop-IsSilent, fleet_undeploy-IsSilent,
}
use cluster_deployer.Tasks.Runs.SilentWaits.{
  wait_for_undeploy-IsSilent, wait_for_stop-IsSilent, check_discover-IsSilent, check_node-IsSilent,
  release_lock-SendsOnly,
}
use cluster_deployer.Tasks.Runs.Weaken.{Weaker, Safe-mono}
use cluster_deployer.Tasks.Start.{TaskSettings}

-- the facts after a run of the task
abbrev pub Gained : (Fact → Type 0) → Sig → Ended → Fact → Type 0
Gained P t done = WithTask P t
Gained P t again = P
Gained P t failed = P

pub Weaker-Gained : (P : Fact → Type 0) (t : Sig) (end : Ended) → Weaker P (Gained P t end)
Weaker-Gained P t done x h = inl h
Weaker-Gained P t again x h = h
Weaker-Gained P t failed x h = h

module _ (p : Platform) (e : Etcd) (now now_event : ℕ → ℕ) (settings : TaskSettings)
    (service : LockService) where
  -- What is safe before the task is safe after it.
  kept :
      (R : e.State → Type 0) (P : Fact → Type 0) (t : Sig) (end : Ended) (locks : e.State)
      (sent : List Sig)
      → R locks × All (Safe P) sent
      → R locks × All (Safe (Gained P t end)) sent
  kept R P t end locks sent (r, h) =
      (r, All-mono (Safe P) (Safe (Gained P t end)) (Safe-mono P _ (Weaker-Gained P t end)) sent h)

  next_list-Safe : (P : Fact → Type 0) (n : Next) → SafeNext P n → All (Safe P) (next_list n)
  next_list-Safe P nothing h = tt
  next_list-Safe P (next s) h = (h, tt)

  -- the check sends the next task only if it returns
  checked :
      (R : e.State → Type 0) (P : Fact → Type 0) (i : Input) (t : Sig) (n : Next) (Q : Type 0)
      (w : World p e) (r : Outcome (Unit {0}) × World p e)
      → R w.locks
      → w.sent ≡ []
      → SafeNext (WithTask P t) n
      → Passes (λ _ w1. Q × Sends p e now (next_list n) w w1) w r
      → Keeps R (Safe (Gained P t (ended i r.0))) r.1
  checked R P i t n Q w (returned a, w1) l q h (k, (sent, c, same)) = (
    subst R (sym same) l,
    subst (All (Safe (WithTask P t))) (sym sent) (rw q (next_list-Safe (WithTask P t) n h)),
  )
  checked R P i t n Q w (retry x m c, w1) l q h k =
      subst (Keeps R (Safe (Gained P t (if i.retries_left then again else failed)))) (sym k)
        (l, rw q tt)
  checked R P i t n Q w (raised x, w1) l q h k = subst (Keeps R (Safe P)) (sym k) (l, rw q tt)

  -- the task changes no lock
  abbrev pub LeavesLocks : Sig → Type 0
  LeavesLocks (using_lock f name t es) = ⊥
  LeavesLocks (release_lock lock) = ⊥
  LeavesLocks _ = Unit

  -- What a task sends is safe with the facts before it, and with what it shows if it returns; what holds of
  -- the locks before it holds after it, if it changes none.
  pub dispatch-Keeps :
      (R : e.State → Type 0) (P : Fact → Type 0) (i : Input) (t : Sig) (w : World p e)
      → LeavesLocks t
      → R w.locks
      → w.sent ≡ []
      → Safe P t
      → let r = dispatch p e now now_event settings service i t w in
        Keeps R (Safe (Gained P t r.0)) r.1
  unfolding dispatch
  dispatch-Keeps R P i (using_lock f name t es) w c r q h = absurd c
  dispatch-Keeps R P i (release_lock lock) w c r q h = absurd c
  dispatch-Keeps R P i (create v) w c r q h =
      kept R P (create v) _ _ _
        (create-Safe p e now R P now_event i.deployment i.search_params w (r, rw q tt))
  dispatch-Keeps R P i (pre_create_undeploy d f n) w c r q (l, h) =
      kept R P (pre_create_undeploy d f n) _ _ _
        (pre_create_undeploy-Safe p e now R P d f n l h w (r, rw q tt))
  dispatch-Keeps R P i (deploy_all d f n) w c r q (h, k) =
      kept R P (deploy_all d f n) _ _ _ (deploy_all-Safe p e now R P d f n h k w (r, rw q tt))
  dispatch-Keeps R P i (fleet_start_and_wait d f n) w c r q (h, k) =
      kept R P (fleet_start_and_wait d f n) _ _ _
        (fleet_start_and_wait-Safe p e now R P d f n h.0 k w (r, rw q tt))
  dispatch-Keeps R P i (fleet_check_deploy name version service_cnt m f n) w c r q h =
      checked R P i (fleet_check_deploy name version service_cnt m f n) n _ w
        (fleet_check_deploy_task p e now name version service_cnt m f n w) r q h
        (fleet_check_deploy_gate p e now name version service_cnt m f n w)
  dispatch-Keeps R P i (check_deployment path attempts timeout f n) w c r q h =
      kept R P (check_deployment path attempts timeout f n) _ _ _
        (check_deployment-Safe p e now R P i.nodes path attempts timeout f n h w (r, rw q tt))
  dispatch-Keeps R P i (deployment_check_passed f n) w c r q h =
      kept R P (deployment_check_passed f n) _ _ _
        (deployment_check_passed-Safe p e now R P f n h w (r, rw q tt))
  dispatch-Keeps R P i (promote_deployment d f) w c r q h =
      kept R P (promote_deployment d f) _ _ _
        (promote_deployment-Safe p e now R P d f h w (r, rw q tt))
  dispatch-Keeps R P i (promote_success d f) w c r q h =
      kept R P (promote_success d f) _ _ _
        (promote_success-Safe p e now R P now_event d f w (r, rw q tt))
  dispatch-Keeps R P i (deployment_error_event d f) w c r q h =
      kept R P (deployment_error_event d f) _ _ _
        (deployment_error_event-Safe p e now R P now_event i.error i.error_text d f w (r, rw q tt))
  dispatch-Keeps R P i (start_deployment id) w c r q h =
      start_deployment-IsSilent p e now settings id R _ w (r, rw q tt)
  dispatch-Keeps R P i (register_upstreams name version us mode f) w c r q h =
      register_upstreams-IsSilent p e now name version us mode f R _ w (r, rw q tt)
  dispatch-Keeps R P i (fleet_deploy f name version nodes service_type t profile) w c r q h =
      fleet_deploy-IsSilent p e now f name version nodes service_type t profile R _ w (r, rw q tt)
  dispatch-Keeps R P i (fleet_start f name version nodes service_type t) w c r q h =
      fleet_start-IsSilent p e now f name version nodes service_type t R _ w (r, rw q tt)
  dispatch-Keeps R P i (check_discover name version port m mode f) w c r q h =
      check_discover-IsSilent p e now name version port m mode f R _ w (r, rw q tt)
  dispatch-Keeps R P i (check_node node path attempts timeout) w c r q h =
      check_node-IsSilent p e now node path attempts timeout R _ w (r, rw q tt)
  dispatch-Keeps R P i (fleet_stop name version exclude_version countdown) w c r q h =
      fleet_stop-IsSilent p e now name version exclude_version false R _ w (r, rw q tt)
  dispatch-Keeps R P i (wait_for_stop name version exclude_version timeout retries f) w c r q h =
      wait_for_stop-IsSilent p e now name version exclude_version timeout retries f R _ w
        (r, rw q tt)
  dispatch-Keeps R P i (fleet_undeploy name version exclude_version ignore_error) w c r q h =
      fleet_undeploy-IsSilent p e now name version exclude_version ignore_error R _ w (r, rw q tt)
  dispatch-Keeps R P i (wait_for_undeploy name version exclude_version f) w c r q h =
      wait_for_undeploy-IsSilent p e now name version exclude_version f R _ w (r, rw q tt)
  dispatch-Keeps R P i (async_wait delay retries) w c r q h = (r, rw q tt)
  dispatch-Keeps R P i (notify n level d) w c r q h = (r, rw q tt)
  dispatch-Keeps R P i (joined a b) w c r q h = (r, rw q tt)
  dispatch-Keeps R P i (chain ts) w c r q h = (r, rw q tt)
  dispatch-Keeps R P i (chord header body) w c r q h = (r, rw q tt)
  dispatch-Keeps R P i (linked t link link_error) w c r q h = (r, rw q tt)

  -- What a task sends is safe, the tasks that change the locks included.
  pub dispatch-Safe :
      (P : Fact → Type 0) (i : Input) (t : Sig) (w : World p e)
      → w.sent ≡ []
      → Safe P t
      → let r = dispatch p e now now_event settings service i t w in
        All (Safe (Gained P t r.0)) r.1.sent
  unfolding dispatch
  dispatch-Safe P i (using_lock f name t es) w q (h, k) =
      let Q : Fact → Type 0 = λ x. P x ⊎ (x ≡ locked name) in
      elim (using_lock-Safe p e now (λ _. Unit {0}) Q service i.lock_value f name t es w q h k) [
        | inl (r, safe) ↦ rw r safe
        | inr none_sent ↦ rw none_sent tt
      ]
  dispatch-Safe P i (release_lock lock) w q h =
      (release_lock-SendsOnly p e now lock _ w (tt, rw q tt)).1
  dispatch-Safe P i t w q h = (dispatch-Keeps (λ _. Unit {0}) P i t w tt tt q h).1
