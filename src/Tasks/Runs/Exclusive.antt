-- ===== src/Tasks/Runs/Exclusive.antt =====
-- While a lock is held, no other `_using_lock` of the application gets it, in any order of the tasks.
use cluster_deployer.Common.{
  ℕ, String, ◌≡◌, ◌≢◌, refl, sym, subst, ◌∙◌, inl, inr, none, some, eq_refl, Bool-cases,
}
use cluster_deployer.Value.{Fields}
use cluster_deployer.Services.Lock.{LockService, Lock, lock_key}
use cluster_deployer.Services.Lock.EtcdClient.{Etcd}
use cluster_deployer.Services.Lock.Laws.{lock_of, Updates}
use cluster_deployer.Tasks.Canvas.{Sig, Sigs, nil, using_lock}
use cluster_deployer.Tasks.Locking.{using_lock_task}
use cluster_deployer.Tasks.Locking.Released.{using_lock_gate}
use cluster_deployer.Tasks.Monad.{World, Outcome, returned, retry, raised}
use cluster_deployer.Tasks.Platform.{Platform}
use cluster_deployer.Tasks.Rules.{Passes}
use cluster_deployer.Tasks.Runs.{
  end_in, after_task, System, MayRun, fresh, after_run, Step, runs, creates, deletes, loses,
  delivers_again, drifts, Reach, goes_on,
}
use cluster_deployer.Tasks.Runs.Dispatch.{done, Input, ended, end_of, dispatch}
use cluster_deployer.Tasks.Runs.Gated.{may_run-Safe}
use cluster_deployer.Tasks.Runs.Past.{Past}
use cluster_deployer.Tasks.Start.{TaskSettings}
use cluster_deployer.Tasks.Runs.Held.{IsHeld, LetsGo, dispatch-IsHeld}

module _ (p : Platform) (e : Etcd) (now now_event : ℕ → ℕ) (settings : TaskSettings)
    (service : LockService) where
  -- The step neither releases the lock nor takes its value away from outside, as an expiry would.
  abbrev pub HoldsOn :
      Lock → (y z : System p e) → Step p e now now_event settings service y z → Type 0
  HoldsOn l y z (runs i before behind {t} q f r) = ¬ LetsGo p e now now_event settings service l t
  HoldsOn l y z (drifts w r) = e.value w.locks l.key ≡ e.value y.world.locks l.key
  HoldsOn l y z _ = Unit

  -- such steps, one after the other
  pub data Undisturbed (l : Lock) (y : System p e) : System p e → Type 0 where
    stays : Undisturbed l y y
    steps :
        {u z : System p e}
        → Undisturbed l y u
        → (st : Step p e now now_event settings service u z) → HoldsOn l u z st
        → Undisturbed l y z

  Step-HoldsOn :
      (l : Lock) (y z : System p e)
      → Reach p e now now_event settings service y
      → (st : Step p e now now_event settings service y z) → HoldsOn l y z st
      → IsHeld p e now now_event settings service l y.world
      → IsHeld p e now now_event settings service l z.world
  Step-HoldsOn l y z r (runs i before behind {s} {t} {rest} {rescue} q f e1) n h =
      let m : MayRun y t = record {
        before = before;
        behind = behind;
        signature = s;
        rest = rest;
        rescue = rescue;
        waits = q;
        focus = f;
      } in
      subst (λ (x : System p e). IsHeld p e now now_event settings service l x.world) (sym e1)
        (dispatch-IsHeld p e now now_event settings service
          (Past p e now now_event settings service y.returned) l i t (fresh y.world) h n refl
          (may_run-Safe p e now now_event settings service y t r m))
  Step-HoldsOn l y z r (creates v e1) n h =
      subst (λ (x : System p e). IsHeld p e now now_event settings service l x.world) (sym e1) h
  Step-HoldsOn l y z r (deletes name version f e1) n h =
      subst (λ (x : System p e). IsHeld p e now now_event settings service l x.world) (sym e1) h
  Step-HoldsOn l y z r (loses before behind s q e1) n h =
      subst (λ (x : System p e). IsHeld p e now now_event settings service l x.world) (sym e1) h
  Step-HoldsOn l y z r (delivers_again before behind s q e1) n h =
      subst (λ (x : System p e). IsHeld p e now now_event settings service l x.world) (sym e1) h
  Step-HoldsOn l y z r (drifts w e1) n h =
      subst (λ (x : System p e). IsHeld p e now now_event settings service l x.world) (sym e1)
        (n ∙ h)

  Undisturbed-IsHeld :
      (l : Lock) (y z : System p e)
      → Reach p e now now_event settings service y
      → IsHeld p e now now_event settings service l y.world
      → Undisturbed l y z
      → Reach p e now now_event settings service z
        × IsHeld p e now now_event settings service l z.world
  Undisturbed-IsHeld l y z r h stays = (r, h)
  Undisturbed-IsHeld l y z r h (steps {u} f st n) =
      let (ru, hu) = Undisturbed-IsHeld l y u r h f in
      (goes_on ru st, Step-HoldsOn l u z ru st n hu)

  -- a `_using_lock` that returns has the lock, and found it free
  taken_lem :
      (i : Input) (name : String) (Q : World p e → Type 0) (w : World p e)
      (r : Outcome (Unit {0}) × World p e)
      → Passes
          (λ _ w1.
            (e.value w.locks (lock_key service name) ≡ none)
            × Updates e w.locks w1.locks (lock_key service name) (some i.lock_value)
            × Q w1
            × (w1.cluster ≡ w.cluster))
          w
          r
      → ended i r.0 ≡ done
      → (e.value w.locks (lock_key service name) ≡ none)
        × IsHeld p e now now_event settings service (lock_of service name i.lock_value) r.1
  taken_lem i name Q w (returned a, w1) (free, up, k, same) q =
      (free, up (lock_key service name) ∙ rw (eq_refl (lock_key service name)) refl)
  taken_lem i name Q w (retry x n c, w1) h q = elim (Bool-cases i.retries_left) [
    | inl b ↦ cc (rw b at q)
    | inr b ↦ cc (rw b at q)
  ]
  taken_lem i name Q w (raised x, w1) h q = cc q

  -- Once a `_using_lock` of an application has returned in a run, then, in every order of the tasks that
  -- follows, no other `_using_lock` of the application returns, as long as its release is not run and the
  -- value of its key does not change from outside the tasks, as it would when the lock expires.
  pub lock_excludes :
      (i j : Input) (f g : Fields) (name : String) (t u : Sig) (es us : Sigs) (y z : System p e)
      → Reach p e now now_event settings service y
      → (m : MayRun y (using_lock f name t es))
      → end_in p e now now_event settings service i (using_lock f name t es) y ≡ done
      → Undisturbed
          (lock_of service name i.lock_value)
          (after_task p e now now_event settings service i (using_lock f name t es) y m)
          z
      → end_in p e now now_event settings service j (using_lock g name u us) z ≢ done
  unfolding dispatch
  lock_excludes i j f g name t u es us y z reach m q follows again_done =
      let l = lock_of service name i.lock_value in
      let w = fresh y.world in
      let r = using_lock_task p e now service i.lock_value f name t nil es w in
      let (free, held) =
        taken_lem i name _ w r (using_lock_gate p e now service i.lock_value f name t nil es w) q in
      let y1 =
        after_run y m.before m.behind m.signature (using_lock f name t es) m.rest m.rescue
          (end_of i r) in
      let reach1 : Reach p e now now_event settings service y1 =
        goes_on reach (runs i m.before m.behind m.waits m.focus refl) in
      let (reach_z, held_z) = Undisturbed-IsHeld l y1 z reach1 held follows in
      let w2 = fresh z.world in
      let (free2, h2) =
        taken_lem j name _ w2 (using_lock_task p e now service j.lock_value g name u nil us w2)
          (using_lock_gate p e now service j.lock_value g name u nil us w2) again_done in
      cc (sym free2 ∙ held_z)
