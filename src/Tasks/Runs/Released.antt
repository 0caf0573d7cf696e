-- ===== src/Tasks/Runs/Released.antt =====
-- The lock that `_using_lock` takes is not forgotten: its release waits until it has returned.
use cluster_deployer.Common.{
  ℕ, String, ◌≡◌, ◌≢◌, refl, sym, subst, ◌⊎◌, inl, inr, Option, List, ◌∷◌, ◌++◌, Bool-cases,
}
use cluster_deployer.Value.{Fields}
use cluster_deployer.Services.Lock.{LockService, Lock}
use cluster_deployer.Services.Lock.EtcdClient.{Etcd}
use cluster_deployer.Services.Lock.Laws.{lock_of}
use cluster_deployer.Tasks.Canvas.{Sig, Sigs, nil, chain, linked, release_lock, using_lock}
use cluster_deployer.Tasks.Locking.{using_lock_task}
use cluster_deployer.Tasks.Locking.Released.{using_lock_gate, SendsReleased}
use cluster_deployer.Tasks.Monad.{World, Outcome, returned, retry, raised}
use cluster_deployer.Tasks.Platform.{Platform}
use cluster_deployer.Tasks.Rules.{Passes}
use cluster_deployer.Tasks.Runs.{
  end_in, after_task, Focus, System, MayRun, fresh, left, logged, after_run, Step, runs, creates,
  deletes, loses, delivers_again, drifts, deletion,
}
use cluster_deployer.Tasks.Runs.Dispatch.{
  Ended, done, again, failed, Input, ended, end_of, dispatch,
}
use cluster_deployer.Tasks.Start.{TaskSettings}
use cluster_deployer.Tasks.Runs.Callbacks.{
  Any, Any-front, Any-back, Any-middle, Any-others, done-Releases, failed-Releases, rest-Any,
  Releases, IsCallback,
}

module _ {p : Platform} {e : Etcd} where
  -- the release of the lock has returned
  abbrev pub HasReleased : Lock → List (Sig × World p e) → Type 0
  HasReleased l past = Any (λ (en : Sig × World p e). en.0 ≡ release_lock l) past

  -- A signature with the release of the lock waits, or the release has returned.
  abbrev pub IsRemembered : Lock → System p e → Type 0
  IsRemembered l y = Any (Releases l) y.waiting ⊎ HasReleased l y.returned

  logged-HasReleased :
      (l : Lock) (end : Ended) (t : Sig) (w : World p e) (past : List (Sig × World p e))
      → HasReleased l past
      → HasReleased l (logged end t w past)
  logged-HasReleased l done t w past h = inr h
  logged-HasReleased l again t w past h = h
  logged-HasReleased l failed t w past h = h

  -- What takes the place of a signature that releases the lock does so too, or has done so.
  left-IsRemembered :
      {s t : Sig} {rest : Option Sig} {rescue : List Sig} (l : Lock) (end : Ended) (w : World p e)
      (past : List (Sig × World p e))
      → Focus s t rest rescue
      → (Releases l t → end ≡ again)
      → (IsCallback l s → end ≢ failed)
      → Releases l s
      → Any (Releases l) (left end s rest rescue) ⊎ HasReleased l (logged end t w past)
  left-IsRemembered {rest} l done w past f n c h = elim (done-Releases l f (λ k. cc (n k)) h) [
    | inl k ↦ inl (rest-Any l rest k)
    | inr q ↦ inr (inl q)
  ]
  left-IsRemembered l again w past f n c h = inl (inl h)
  left-IsRemembered l failed w past f n c h =
      inl (failed-Releases l f (λ k. cc (n k)) (λ k. c k refl) h)

module _ (p : Platform) (e : Etcd) (now now_event : ℕ → ℕ) (settings : TaskSettings)
    (service : LockService) where
  -- A composed signature is no task.
  Releases-again :
      (l : Lock) (i : Input) (t : Sig) (w : World p e)
      → Releases l t
      → (dispatch p e now now_event settings service i t w).0 ≡ again
  unfolding dispatch
  Releases-again l i (linked t link link_error) w h = refl
  Releases-again l i (chain ts) w h = refl
  Releases-again l i t w h = absurd h

  -- Neither is a signature lost that releases the lock, nor does a task of such callbacks fail.
  abbrev pub IsCareful :
      Lock → (y z : System p e) → Step p e now now_event settings service y z → Type 0
  IsCareful l y z (runs i before behind {s} {t} q f r) =
      IsCallback l s → (dispatch p e now now_event settings service i t (fresh y.world)).0 ≢ failed
  IsCareful l y z (loses before behind s q r) = ¬ Releases l s
  IsCareful l y z _ = Unit

  -- careful steps, one after the other
  pub data Follows (l : Lock) (y : System p e) : System p e → Type 0 where
    stays : Follows l y y
    steps :
        {u z : System p e}
        → Follows l y u
        → (st : Step p e now now_event settings service u z) → IsCareful l u z st
        → Follows l y z

  runs-IsRemembered :
      (l : Lock) (y : System p e) (i : Input) (before behind : List Sig) (s t : Sig)
      (rest : Option Sig) (rescue : List Sig)
      → y.waiting ≡ before ++ s ∷ behind
      → Focus s t rest rescue
      → (IsCallback l s
          → (dispatch p e now now_event settings service i t (fresh y.world)).0 ≢ failed)
      → IsRemembered l y
      → IsRemembered l (
          after_run y before behind s t rest rescue
            (dispatch p e now now_event settings service i t (fresh y.world)))
  runs-IsRemembered l y i before behind s t rest rescue q f c (inr h) =
      let (end, w) = dispatch p e now now_event settings service i t (fresh y.world) in
      inr (logged-HasReleased l end t (fresh y.world) y.returned h)
  runs-IsRemembered l y i before behind s t rest rescue q f c (inl h) =
      let (end, w) = dispatch p e now now_event settings service i t (fresh y.world) in
      let new = left end s rest rescue in
      elim (Any-middle (Releases l) before s behind (subst (Any (Releases l)) q h)) [
        | inl k ↦
            elim (left-IsRemembered l end (fresh y.world) y.returned f
              (Releases-again l i t (fresh y.world)) c k) [
                | inl a ↦ inl (
                    Any-back (Releases l) before (new ++ (behind ++ w.sent))
                      (Any-front (Releases l) new (behind ++ w.sent) a))
                | inr b ↦ inr b
              ]
        | inr k ↦ inl (Any-others (Releases l) before behind new w.sent k)
      ]

  Step-IsRemembered :
      (l : Lock) (y z : System p e) (st : Step p e now now_event settings service y z)
      → IsCareful l y z st
      → IsRemembered l y
      → IsRemembered l z
  Step-IsRemembered l y z (runs i before behind {s} {t} {rest} {rescue} q f r) c h =
      subst (IsRemembered l) (sym r) (runs-IsRemembered l y i before behind s t rest rescue q f c h)
  Step-IsRemembered l y z (creates v r) c (inl h) = subst (IsRemembered l) (sym r) (inl (inr h))
  Step-IsRemembered l y z (creates v r) c (inr h) = subst (IsRemembered l) (sym r) (inr h)
  Step-IsRemembered l y z (deletes name version f r) c (inl h) = subst (IsRemembered l) (sym r) (
      inl (
        Any-back (Releases l) (deletion p e now now_event settings service name version f y.world)
          y.waiting h))
  Step-IsRemembered l y z (deletes name version f r) c (inr h) =
      subst (IsRemembered l) (sym r) (inr h)
  Step-IsRemembered l y z (loses before behind s q r) c (inl h) =
      elim (Any-middle (Releases l) before s behind (subst (Any (Releases l)) q h)) [
        | inl k ↦ absurd (c k)
        | inr k ↦ subst (IsRemembered l) (sym r) (inl k)
      ]
  Step-IsRemembered l y z (loses before behind s q r) c (inr h) =
      subst (IsRemembered l) (sym r) (inr h)
  Step-IsRemembered l y z (delivers_again before behind s q r) c (inl h) =
      subst (IsRemembered l) (sym r) (inl (inr h))
  Step-IsRemembered l y z (delivers_again before behind s q r) c (inr h) =
      subst (IsRemembered l) (sym r) (inr h)
  Step-IsRemembered l y z (drifts w r) c h = subst (IsRemembered l) (sym r) h

  Follows-IsRemembered :
      (l : Lock) (y z : System p e) → Follows l y z → IsRemembered l y → IsRemembered l z
  Follows-IsRemembered l y z stays h = h
  Follows-IsRemembered l y z (steps {u} f st c) h =
      Step-IsRemembered l u z st c (Follows-IsRemembered l y u f h)

  -- what a `_using_lock` that returns has sent
  sent_lem :
      (l : Lock) (i : Input) (do_task : Sig) (Q R : World p e → Type 0) (w : World p e)
      (r : Outcome (Unit {0}) × World p e)
      → Passes
          (λ _ w1. Q w1 × R w1 × SendsReleased l do_task w.sent w1.sent × (w1.cluster ≡ w.cluster))
          w
          r
      → ended i r.0 ≡ done
      → Any (Releases l) r.1.sent
  sent_lem l i do_task Q R w (returned a, w1) (free, up, (link, link_error, sent, a1, a2), same) q =
      subst (Any (Releases l)) (sym sent) (Any-back (Releases l) w.sent _ (inl (a1, a2)))
  sent_lem l i do_task Q R w (retry x n c, w1) h q = elim (Bool-cases i.retries_left) [
    | inl b ↦ cc (rw b at q)
    | inr b ↦ cc (rw b at q)
  ]
  sent_lem l i do_task Q R w (raised x, w1) h q = cc q

  -- Once a `_using_lock` has returned with its lock, then in every order of the tasks and with any changes
  -- to the cluster, the locks and the store, as long as no signature is lost whose callbacks release this
  -- lock and no task of these callbacks fails: a signature waits whose callbacks, those after its success
  -- and those after its error, both end with the release of this lock, or that is what is left of such
  -- callbacks, or the release of this lock has returned.
  pub lock-IsRemembered :
      (i : Input) (f : Fields) (name : String) (do_task : Sig) (error_tasks : Sigs)
      (y z : System p e) (m : MayRun y (using_lock f name do_task error_tasks))
      → end_in p e now now_event settings service i (using_lock f name do_task error_tasks) y ≡ done
      → Follows
          (lock_of service name i.lock_value)
          (after_task p e now now_event settings service i
            (using_lock f name do_task error_tasks)
            y
            m)
          z
      → IsRemembered (lock_of service name i.lock_value) z
  unfolding dispatch
  lock-IsRemembered i f name do_task error_tasks y z m q follows =
      let l = lock_of service name i.lock_value in
      let w = fresh y.world in
      let t = using_lock f name do_task error_tasks in
      let r = using_lock_task p e now service i.lock_value f name do_task nil error_tasks w in
      let sent : Any (Releases l) r.1.sent =
        sent_lem l i do_task _ _ w r
          (using_lock_gate p e now service i.lock_value f name do_task nil error_tasks w) q in
      Follows-IsRemembered l
        (after_run y m.before m.behind m.signature t m.rest m.rescue (end_of i r)) z follows
        (inl (
          Any-back (Releases l) m.before _ (
            Any-back (Releases l) (left (ended i r.0) m.signature m.rest m.rescue) _
              (Any-back (Releases l) m.behind r.1.sent sent))))
