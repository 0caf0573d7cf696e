-- ===== src/Services/Lock/Laws.antt =====
-- What `apply_lock` and `release` do, on every branch.
use cluster_deployer.Common.{
  String, ◌≡◌, ◌≢◌, ◌∙◌, ap, true, false, Option, none, some, ◌⊎◌, inl, inr, text_append,
  if◌then◌else◌, str_eq, arith, Option-cases, str-cases,
}
use text.Mathlib.TextLemmas.{append_cancel_left}
use cluster_deployer.Common.Result.{ok, err}
use cluster_deployer.Services.Lock.EtcdClient.{Etcd}
use cluster_deployer.Services.Lock.{LockService, Lock, lock_key, apply_lock, release}

-- Two names have one key only if they are one name.
pub lock_key_injective :
    (service : LockService) (a b : String) → lock_key service a ≡ lock_key service b → a ≡ b
unfolding lock_key
lock_key_injective service a b h = append_cancel_left "/" a b (
    append_cancel_left service.lock_base (text_append "/" a) (text_append "/" b)
      (append_cancel_left service.etcd_base _ _ h))

abbrev pub lock_of : LockService → String → String → Lock
lock_of service app_name lock_value = record {
  key = lock_key service app_name;
  name = app_name;
  value = lock_value;
}

module _ (e : Etcd) where
  open e use {State, value}

  -- `s'` differs from `s` at the one key, where it has `v`.
  abbrev pub Updates : State → State → String → Option String → Type 0
  Updates s s' k v = (j : String) → value s' j ≡ (if str_eq k j then v else value s j)

  -- A free name is locked: the lock is returned, its key now has the drawn value, and no other key
  -- changes. A name that is locked is refused with its name and key, and nothing changes.
  pub apply_lock_exact :
      (service : LockService) (name v : String) (s : State)
      → ((value s (lock_key service name) ≡ none)
          × ((apply_lock e service name v s).0 ≡ ok (lock_of service name v))
          × Updates s (apply_lock e service name v s).1 (lock_key service name) (some v))
        ⊎ (((u : String) × (value s (lock_key service name) ≡ some u))
            × (apply_lock e service name v s
                ≡ (err (record { name = name; key = lock_key service name }), s)))
  unfolding apply_lock
  apply_lock_exact service name v s =
      let key = lock_key service name in
      elim (Option-cases (value s key)) [
        | inl free ↦
            let (s', w, up) = e.write_free s key v service.lock_ttl free in
            inl (free, rw (w, apply_lock), rw (w, apply_lock) up)
        | inr (u, taken) ↦
            inr ((u, taken), rw (e.write_taken s key v u service.lock_ttl taken, apply_lock))
      ]

  -- A release succeeds exactly when the key still has the value of the lock; then the key is free and
  -- no other key changes. Otherwise the answer is `False` and nothing changes.
  pub release_exact :
      (lock : Lock) (s : State)
      → ((value s lock.key ≡ some lock.value)
          × ((release e (some lock) s).0 ≡ true)
          × Updates s (release e (some lock) s).1 lock.key none)
        ⊎ ((value s lock.key ≢ some lock.value) × (release e (some lock) s ≡ (false, s)))
  unfolding release
  release_exact lock s = elim (Option-cases (value s lock.key)) [
    | inl missing ↦ inr (ground arith, rw (e.delete_missing s lock.key lock.value missing, release))
    | inr (u, there) ↦ elim (str-cases u lock.value) [
      | inl (t, same) ↦
          let held : value s lock.key ≡ some lock.value = there ∙ ap some same in
          let (s', d, up) = e.delete_same s lock.key lock.value held in
          inl (held, rw (d, release), rw (d, release) up)
      | inr (t, other) ↦
          inr (λ q. other cc, rw (e.delete_other s lock.key lock.value u there other, release))
    ]
  ]
