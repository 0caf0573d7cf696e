-- ===== src/Tasks/Runs/Promotes.antt =====
-- The tasks that check and promote a deployment, or take a lock, send only safe signatures.
use cluster_deployer.Common.{
  ℕ, String, ◌≡◌, refl, ◌⊎◌, inl, inr, Option, none, some, List, [], ◌∷◌, str_eq, Bool-cases, foldl,
  All, All-append,
}
use cluster_deployer.Common.Result.{Result, ok, err}
use cluster_deployer.Conf.{blue_green}
use cluster_deployer.Value.{Fields, null}
use cluster_deployer.Services.Lock.{LockService, Lock}
use cluster_deployer.Services.Lock.Laws.{lock_of, apply_lock_exact}
use cluster_deployer.Services.Lock.EtcdClient.{Etcd}
use cluster_deployer.Services.Proxy.{ProxyError, wire_proxy}
use cluster_deployer.Services.Storage.Mongo.{add_event}
use cluster_deployer.Tasks.Canvas.{
  Deployment, Sig, Sigs, nil, cons, Next, chain, release_lock, append_sig,
}
use cluster_deployer.Tasks.Check.{check_deployment_task, check_nodes, deployment_check_passed_task}
use cluster_deployer.Tasks.Exceptions.{TaskError}
use cluster_deployer.Tasks.Failure.{deployment_error_event_task}
use cluster_deployer.Tasks.Locking.{using_lock_task, locked_run}
use cluster_deployer.Tasks.Monad.{World, returned}
use cluster_deployer.Tasks.Platform.{Platform}
use cluster_deployer.Tasks.Promote.{
  promotion_tasks, wired, promote_deployment_task, promote_success_task,
}
use cluster_deployer.Tasks.Runs.Facts.{Fact, WithTask, ReadyToPromote, Safe, SafeNext, SafeChain}
use cluster_deployer.Tasks.Runs.Orders.{promotion_tasks-Safe, checks-Safe}
use cluster_deployer.Tasks.Runs.Sends.{SendsOnly, send-SendsOnly}
use cluster_deployer.Tasks.Runs.Emits.{send_next-Safe}

module _ (p : Platform) (e : Etcd) (now : ℕ → ℕ) (R : e.State → Type 0) (P : Fact → Type 0) where
  check_nodes-Safe :
      (ns : List (String × String)) (path : String) (attempts : ℕ) (timeout : String) (f : Fields)
      (n : Next)
      → SafeNext P n
      → SendsOnly R (Safe P) (check_nodes p e now ns path attempts timeout f n)
  check_nodes-Safe [] path attempts timeout f n h w k = send_next-Safe p e now R P n h w k
  check_nodes-Safe (x ∷ xs) path attempts timeout f n h w k =
      send-SendsOnly R (Safe P) _ (checks-Safe P path attempts timeout (x ∷ xs), h) w k

  pub check_deployment-Safe :
      (ns : List (String × String)) (path : Option String) (attempts : ℕ) (timeout : String)
      (f : Fields) (n : Next)
      → SafeNext P n
      → SendsOnly R (Safe P) (check_deployment_task p e now ns path attempts timeout f n)
  unfolding check_deployment_task
  check_deployment-Safe ns none attempts timeout f n h w k = send_next-Safe p e now R P n h w k
  check_deployment-Safe ns (some path) attempts timeout f n h w k =
      elim (Bool-cases (str_eq path "")) [
        | inl q ↦ rw q (send_next-Safe p e now R P n h w k)
        | inr q ↦ rw q (check_nodes-Safe ns path attempts timeout f n h w k)
      ]

  pub deployment_check_passed-Safe :
      (f : Fields) (n : Next)
      → SafeNext P n
      → SendsOnly R (Safe P) (deployment_check_passed_task p e now f n)
  unfolding deployment_check_passed_task
  deployment_check_passed-Safe f n h w k =
      send_next-Safe p e now R P n h
        (record w { store = add_event p.mongo now "DEPLOYMENT_CHECK_PASSED" null f w.store }) k

  pub promote_deployment-Safe :
      (d : Deployment) (f : Fields)
      → ReadyToPromote P d
      → SendsOnly R (Safe P) (promote_deployment_task p e now d f)
  unfolding promote_deployment_task
  promote_deployment-Safe d f h w k =
      wired-Safe (wire_proxy p.as_upstream d.name d.version d.hosts_and_listeners blue_green).1
        (record w {
          cluster =
              foldl (λ c call. p.call_proxy call c) w.cluster
                (wire_proxy p.as_upstream d.name d.version d.hosts_and_listeners blue_green).0;
        })
        k
    where
      wired-Safe : (r : Result ProxyError (Unit {0})) → SendsOnly R (Safe P) (wired p e now d f r)
      wired-Safe (err x) w1 a = a
      wired-Safe (ok x) w1 a = (
        a.0,
        All-append (Safe P) w1.sent (chain (promotion_tasks d f) ∷ []) a.1
            (promotion_tasks-Safe P d f h, tt),
      )

  pub promote_success-Safe :
      (now_event : ℕ → ℕ) (d : Deployment) (f : Fields)
      → SendsOnly R (Safe P) (promote_success_task p e now now_event d f)
  unfolding promote_success_task
  promote_success-Safe now_event d f w k = (k.0, All-append (Safe P) w.sent (_ ∷ []) k.1 (tt, tt))

  append_sig-Safe :
      (ts : Sigs) (l : Lock) → SafeChain P ts → SafeChain P (append_sig ts (release_lock l))
  append_sig-Safe ts l = go P ts
    where
      go :
          (Q : Fact → Type 0) (us : Sigs)
          → SafeChain Q us
          → SafeChain Q (append_sig us (release_lock l))
      go Q nil h = (tt, tt)
      go Q (cons t us) (h, k) = (h, go (WithTask Q t) us k)

  -- `_using_lock` sends the task only if it returns.
  pub using_lock-Safe :
      (service : LockService) (lock_value : String) (f : Fields) (name : String) (do_task : Sig)
      (error_tasks : Sigs) (w : World p e)
      → w.sent ≡ []
      → Safe P do_task
      → SafeChain P error_tasks
      → let (r, w1) = using_lock_task p e now service lock_value f name do_task nil error_tasks w in
        ((r ≡ returned tt) × All (Safe P) w1.sent) ⊎ (w1.sent ≡ [])
  unfolding using_lock_task
  using_lock-Safe service lock_value f name do_task error_tasks w q h k =
      let lock = lock_of service name lock_value in
      elim (apply_lock_exact e service name lock_value w.locks) [
        | inl (free, got, changed) ↦
            rw (got, using_lock_task)
              (inl (
                refl,
                All-append (Safe P) w.sent (locked_run lock do_task nil error_tasks ∷ []) (rw q tt)
                    (((h, tt), (tt, tt), append_sig-Safe error_tasks lock k), tt),
              ))
        | inr ((u, taken), same) ↦ rw (same, using_lock_task) (inr q)
      ]

  pub deployment_error_event-Safe :
      (now_event : ℕ → ℕ) (result : TaskError) (text : String) (d : Deployment) (f : Fields)
      → SendsOnly R (Safe P) (deployment_error_event_task p e now now_event result text d f)
  unfolding deployment_error_event_task
  deployment_error_event-Safe now_event result text d f w k =
      (k.0, All-append (Safe P) w.sent (_ ∷ []) k.1 (tt, tt))
