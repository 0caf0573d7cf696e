-- ===== src/Services/Lock/Tests.antt =====
-- The lock service on a store that is a function from keys to values.
use cluster_deployer.Common.{
  ℕ, String, ◌≡◌, ◌≢◌, refl, Option, none, some, [], ◌∷◌, if◌then◌else◌, str_eq, eq_iff, eq_refl,
  arith,
}
use cluster_deployer.Common.Result.{Result, ok, err}
use cluster_deployer.Services.Lock.EtcdClient.{Etcd, EtcdError, key_error, value_error}
use cluster_deployer.Services.Lock.{LockService, Lock, lock_key, apply_lock}
use cluster_deployer.Services.Lock.Laws.{lock_of}
use cluster_deployer.Services.Lock.Holders.{
  System, acquire, Reach, here, next, IsExclusive, Reach-IsExclusive,
}

abbrev pub Memory : Type 0
Memory = String → Option String

abbrev pub put : String → Option String → Memory → Memory
put k v s j = if str_eq k j then v else s j

abbrev pub memory_write : Memory → String → String → ℕ → Result EtcdError Memory
memory_write s k v ttl = elim (s k) [ none ↦ ok (put k (some v) s) | some _ ↦ err key_error ]

abbrev pub memory_delete : Memory → String → String → Result EtcdError Memory
memory_delete s k v = elim (s k) [
  | none ↦ err key_error
  | some u ↦ if str_eq u v then ok (put k none s) else err value_error
]

pub memory_delete_other :
    (s : Memory) (k v u : String) → s k ≡ some u → u ≢ v → memory_delete s k v ≡ err value_error
memory_delete_other s k v u h ne = ground (arith, eq_iff u v)

abbrev pub memory : Etcd
memory = record {
  State = Memory;
  value = λ s k. s k;
  write = memory_write;
  delete = memory_delete;
  expire = λ s k. put k none s;
  write_taken = λ s k v u ttl h. rw (h, memory_write);
  write_free = λ s k v ttl h. (put k (some v) s, rw (h, memory_write), λ j. refl);
  delete_missing = λ s k v h. rw (h, memory_delete);
  delete_other = memory_delete_other;
  delete_same = λ s k v h. (put k none s, rw (h, memory_delete, eq_refl), λ j. refl);
  value-expire = λ s k j. refl;
}

abbrev pub service : LockService
service = record {
  etcd_base = "/totem";
  lock_base = "/cluster-deployer/locks/apps";
  lock_ttl = 3600;
}

abbrev pub start : Memory
start k = none

abbrev first : System memory
first = record { store = start; held = [] }

abbrev web : Lock
web = lock_of service "web" "uuid-1"

abbrev second : System memory
second = record { store = put (lock_key service "web") (some "uuid-1") start; held = web ∷ [] }

key_of_web : lock_key service "web" ≡ "/totem/cluster-deployer/locks/apps/web"
unfolding lock_key
key_of_web = refl

lock_web : apply_lock memory service "web" "uuid-1" start ≡ (ok web, second.store)
unfolding apply_lock
lock_web = refl

lock_web_again :
    (apply_lock memory service "web" "uuid-2" second.store).0
    ≡ err (record { name = "web"; key = lock_key service "web" })
unfolding apply_lock lock_key
lock_web_again = refl

first-IsExclusive : IsExclusive memory first
first-IsExclusive = record { live = tt; distinct = tt }

lock_then : Reach memory first second
lock_then = next here (acquire service "web" "uuid-1" web lock_web refl)

Reach-IsExclusive_example : IsExclusive memory second
Reach-IsExclusive_example = Reach-IsExclusive memory first-IsExclusive lock_then

abbrev stale : Lock
stale = lock_of service "web" "uuid-0"
