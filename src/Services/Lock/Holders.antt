-- ===== src/Services/Lock/Holders.antt =====
-- Tasks that apply and release locks in any order, on one etcd store.
use cluster_deployer.Common.{
  String, ◌≡◌, ◌≢◌, sym, ◌∙◌, ap, Option, none, some, inl, inr, List, [], ◌∷◌, ◌++◌, eq_iff,
  eq_refl, arith, str-cases, All, All_middle, All-others,
}
use cluster_deployer.Common.Result.{ok, err}
use cluster_deployer.Services.Lock.EtcdClient.{Etcd}
use cluster_deployer.Services.Lock.{
  LockService, Lock, ResourceLocked, lock_key, apply_lock, release,
}
use cluster_deployer.Services.Lock.Laws.{lock_of, Updates, apply_lock_exact, release_exact}

-- No two of the locks have one key.
abbrev pub AreDistinct : List Lock → Type 0
AreDistinct [] = Unit
AreDistinct (l ∷ ls) = All (λ m. l.key ≢ m.key) ls × AreDistinct ls

AreDistinct-others :
    (xs : List Lock) (x : Lock) (ys : List Lock)
    → AreDistinct (xs ++ x ∷ ys)
    → AreDistinct (xs ++ ys)
AreDistinct-others [] x ys h = h.1
AreDistinct-others (y ∷ xs) x ys h =
    (All-others (λ m. y.key ≢ m.key) xs x ys h.0, AreDistinct-others xs x ys h.1)

AreDistinct-apart :
    (xs : List Lock) (x : Lock) (ys : List Lock)
    → AreDistinct (xs ++ x ∷ ys)
    → All (λ m. x.key ≢ m.key) (xs ++ ys)
AreDistinct-apart [] x ys h = h.0
AreDistinct-apart (y ∷ xs) x ys h =
    ((λ q. All_middle (λ m. y.key ≢ m.key) xs x ys h.0 (sym q)), AreDistinct-apart xs x ys h.1)

module _ (e : Etcd) where
  open e use {State, value}

  -- The store, and the locks that were granted and are not yet released.
  pub record System : Type 0 where
    pub store : State
    pub held : List Lock

  -- A lock whose value stands at its key.
  abbrev pub IsLive : State → Lock → Type 0
  IsLive s l = value s l.key ≡ some l.value

  -- A task applies a lock and gets it or is refused, or it releases a lock that it holds.
  pub data Step (a b : System) : Type 0 where
    acquire :
        (service : LockService) (name v : String) (l : Lock)
        → apply_lock e service name v a.store ≡ (ok l, b.store)
        → b.held ≡ l ∷ a.held
        → Step a b
    refuse :
        (service : LockService) (name v : String) (r : ResourceLocked)
        → apply_lock e service name v a.store ≡ (err r, b.store)
        → b.held ≡ a.held
        → Step a b
    let_go :
        (pre : List Lock) (l : Lock) (post : List Lock)
        → a.held ≡ pre ++ l ∷ post
        → (release e (some l) a.store).1 ≡ b.store
        → b.held ≡ pre ++ post
        → Step a b

  pub data Reach (a : System) : System → Type 0 where
    here : Reach a a
    next : {b c : System} → Reach a b → Step b c → Reach a c

  pub record IsExclusive (s : System) : Type 0 where
    pub live : All (IsLive s.store) s.held
    pub distinct : AreDistinct s.held

  -- A live lock stays live under a write to another key.
  IsLive-ne :
      (s s' : State) (k : String) (v : Option String) (l : Lock)
      → Updates e s s' k v
      → k ≢ l.key
      → IsLive s l
      → IsLive s' l
  IsLive-ne s s' k v l up ne h = up l.key ∙ ground (arith, eq_iff k l.key)

  All-IsLive_ne :
      (s s' : State) (k : String) (v : Option String) (ls : List Lock)
      → Updates e s s' k v
      → All (λ m. k ≢ m.key) ls
      → All (IsLive s) ls
      → All (IsLive s') ls
  All-IsLive_ne s s' k v [] up n h = tt
  All-IsLive_ne s s' k v (l ∷ ls) up (ne, n) (h, hs) =
      (IsLive-ne s s' k v l up ne h, All-IsLive_ne s s' k v ls up n hs)

  -- The key of a live lock is not free.
  live_not_free :
      (s : State) (k : String) (ls : List Lock)
      → value s k ≡ none
      → All (IsLive s) ls
      → All (λ m. k ≢ m.key) ls
  live_not_free s k [] free h = tt
  live_not_free s k (l ∷ ls) free (h, hs) = ((λ q. ground arith), live_not_free s k ls free hs)

  acquire-IsExclusive :
      (service : LockService) (name v : String) (l : Lock) (a b : System)
      → apply_lock e service name v a.store ≡ (ok l, b.store)
      → b.held ≡ l ∷ a.held
      → IsExclusive a
      → IsExclusive b
  acquire-IsExclusive service name v l a b q held h =
      elim (apply_lock_exact e service name v a.store) [
        | inl (free, granted, up) ↦
            let got : l ≡ lock_of service name v = cc in
            let key : l.key ≡ lock_key service name = rw got in
            let val : l.value ≡ v = rw got in
            let after : Updates e a.store b.store l.key (some l.value) =
              rw (ap (λ r. r.1) q, ← key, ← val) at up in
            let apart = live_not_free a.store l.key a.held (rw key free) h.live in
            record {
              live = rw held (
                after l.key ∙ rw (eq_refl l.key),
                All-IsLive_ne a.store b.store l.key (some l.value) a.held after apart h.live,
              );
              distinct = rw held (apart, h.distinct);
            }
        | inr (taken, refused) ↦ cc
      ]

  let_go-IsExclusive :
      (pre : List Lock) (l : Lock) (post : List Lock) (a b : System)
      → a.held ≡ pre ++ l ∷ post
      → (release e (some l) a.store).1 ≡ b.store
      → b.held ≡ pre ++ post
      → IsExclusive a
      → IsExclusive b
  let_go-IsExclusive pre l post a b was st held h =
      let live : All (IsLive a.store) (pre ++ l ∷ post) = rw was at h.live in
      let distinct : AreDistinct (pre ++ l ∷ post) = rw was at h.distinct in
      elim (release_exact e l a.store) [
        | inl (there, done, up) ↦ record {
          live = rw held (
              All-IsLive_ne a.store b.store l.key none (pre ++ post) (rw st at up)
                (AreDistinct-apart pre l post distinct)
                (All-others (IsLive a.store) pre l post live));
          distinct = rw held (AreDistinct-others pre l post distinct);
        }
        | inr (gone, same) ↦ absurd (gone (All_middle (IsLive a.store) pre l post live))
      ]

  Step-IsExclusive : {a b : System} → Step a b → IsExclusive a → IsExclusive b
  Step-IsExclusive {a} {b} (acquire service name v l q held) h =
      acquire-IsExclusive service name v l a b q held h
  Step-IsExclusive {a} {b} (let_go pre l post was st held) h =
      let_go-IsExclusive pre l post a b was st held h
  Step-IsExclusive {a} {b} (refuse service name v r q held) h =
      elim (apply_lock_exact e service name v a.store) [
        | inl (free, granted, up) ↦ cc
        | inr (taken, refused) ↦
            let same : b.store ≡ a.store = cc in
            record { live = rw (held, same) h.live; distinct = rw held h.distinct }
      ]

  -- While no lock outlives its time to live, whatever the order in which tasks apply and release
  -- locks: each lock that was granted and not released stands in the store with its own value, and no
  -- two of them have one key.
  pub Reach-IsExclusive : {a b : System} → IsExclusive a → Reach a b → IsExclusive b
  Reach-IsExclusive h here = h
  Reach-IsExclusive h (next r st) = Step-IsExclusive st (Reach-IsExclusive h r)

  -- Whatever has expired: to release one lock leaves every other lock that is live in the store, also
  -- one with the same key, if their values differ.
  release_keeps_others :
      (l m : Lock) (s : State) → l.value ≢ m.value → IsLive s m → IsLive (release e (some l) s).1 m
  release_keeps_others l m s ne h = elim (release_exact e l s) [
    | inl (there, done, up) ↦ elim (str-cases l.key m.key) [
      | inl (t, q) ↦ absurd (ne cc)
      | inr (t, q) ↦ IsLive-ne s (release e (some l) s).1 l.key none m up q h
    ]
    | inr (gone, same) ↦ rw same h
  ]
