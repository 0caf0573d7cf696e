-- ===== src/Tasks/Runs/Held.antt =====
-- A lock that is held stays held, whatever task runs but its release.
use cluster_deployer.Common.{
  ℕ, String, ◌≡◌, ◌≢◌, sym, subst, ◌∙◌, inl, inr, Option, none, some, [], str-cases,
}
use cluster_deployer.Services.Lock.{LockService, Lock, lock_key, release}
use cluster_deployer.Services.Lock.EtcdClient.{Etcd}
use cluster_deployer.Services.Lock.Laws.{Updates, release_exact}
use cluster_deployer.Tasks.Canvas.{Sig, nil, release_lock, using_lock}
use cluster_deployer.Tasks.Locking.{using_lock_task, release_lock_task}
use cluster_deployer.Tasks.Locking.Released.{using_lock_gate}
use cluster_deployer.Tasks.Monad.{World, Outcome, returned, retry, raised}
use cluster_deployer.Tasks.Platform.{Platform}
use cluster_deployer.Tasks.Rules.{Passes}
use cluster_deployer.Tasks.Runs.Dispatch.{Input, dispatch}
use cluster_deployer.Tasks.Runs.Facts.{Fact, Safe}
use cluster_deployer.Tasks.Runs.Kept.{dispatch-Keeps}
use cluster_deployer.Tasks.Start.{TaskSettings}

module _ (p : Platform) (e : Etcd) (now now_event : ℕ → ℕ) (settings : TaskSettings)
    (service : LockService) where
  -- the value of the lock stands at its key
  abbrev pub IsHeld : Lock → World p e → Type 0
  IsHeld l w = e.value w.locks l.key ≡ some l.value

  -- the task releases the lock
  abbrev pub LetsGo : Lock → Sig → Type 0
  LetsGo l (release_lock m) = (m.key ≡ l.key) × (m.value ≡ l.value)
  LetsGo l _ = ⊥

  -- a key that is not free is not the one that is updated
  other_key :
      (l : Lock) (s s' : e.State) (key : String) (v : Option String)
      → e.value s l.key ≡ some l.value
      → key ≢ l.key
      → Updates e s s' key v
      → e.value s' l.key ≡ some l.value
  other_key l s s' key v h n up = elim (str-cases key l.key) [
    | inl (b, q) ↦ absurd (n q)
    | inr (b, q) ↦ up l.key ∙ rw b h
  ]

  Updates-IsHeld :
      (l : Lock) (name v : String) (Q : World p e → Type 0) (w : World p e)
      (r : Outcome (Unit {0}) × World p e)
      → IsHeld l w
      → Passes
          (λ _ w1.
            (e.value w.locks (lock_key service name) ≡ none)
            × Updates e w.locks w1.locks (lock_key service name) (some v)
            × Q w1
            × (w1.cluster ≡ w.cluster))
          w
          r
      → IsHeld l r.1
  Updates-IsHeld l name v Q w (returned a, w1) h (free, up, k, same) =
      other_key l w.locks w1.locks (lock_key service name) (some v) h
        (λ q. cc (sym (subst (λ x. e.value w.locks x ≡ none) q free) ∙ h)) up
  Updates-IsHeld l name v Q w (retry x m c, w1) h k = subst (IsHeld l) (sym k) h
  Updates-IsHeld l name v Q w (raised x, w1) h k = subst (IsHeld l) (sym k) h

  release-IsHeld :
      (l m : Lock) (w : World p e)
      → IsHeld l w
      → ¬ LetsGo l (release_lock m)
      → IsHeld l (release_lock_task p e now m w).1
  unfolding release_lock_task
  release-IsHeld l m w h n = elim (release_exact e m w.locks) [
    | inl (held, r, up) ↦
        other_key l w.locks (release e (some m) w.locks).1 m.key none h
          (λ q. n (q, cc (sym (subst (λ x. e.value w.locks x ≡ some m.value) q held) ∙ h))) up
    | inr (lost, same) ↦ rw same h
  ]

  pub dispatch-IsHeld :
      (P : Fact → Type 0) (l : Lock) (i : Input) (t : Sig) (w : World p e)
      → IsHeld l w
      → ¬ LetsGo l t
      → w.sent ≡ []
      → Safe P t
      → IsHeld l (dispatch p e now now_event settings service i t w).1
  unfolding dispatch
  dispatch-IsHeld P l i (using_lock f name t es) w h n q safe =
      Updates-IsHeld l name i.lock_value _ w
        (using_lock_task p e now service i.lock_value f name t nil es w) h
        (using_lock_gate p e now service i.lock_value f name t nil es w)
  dispatch-IsHeld P l i (release_lock m) w h n q safe = release-IsHeld l m w h n
  dispatch-IsHeld P l i t w h n q safe =
      (dispatch-Keeps p e now now_event settings service (λ s. e.value s l.key ≡ some l.value) P i t
        w tt h q safe).0
