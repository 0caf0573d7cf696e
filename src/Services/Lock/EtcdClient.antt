-- ===== src/Services/Lock/EtcdClient.antt =====
-- What deployer/services/distributed_lock.py relies on in etcd: the values at the keys, a write
-- with `prevExist=False`, a delete with `prevValue`, and that a key may expire.
use cluster_deployer.Common.{ℕ, String, ◌≡◌, ◌≢◌, Option, none, some, if◌then◌else◌, str_eq}
use cluster_deployer.Common.Result.{Result, ok, err}

-- the exceptions of `etcd.Client` that the service catches
pub data EtcdError : Type 0 where
  key_error value_error : EtcdError

pub record Etcd : Type 1 where
  pub State : Type 0
  pub value : State → String → Option String
  pub write : State → String → String → (ttl : ℕ) → Result EtcdError State
  pub delete : State → String → String → Result EtcdError State
  pub expire : State → String → State
  -- a write with `prevExist=False` fails at a key that exists
  pub write_taken :
      (s : State) (k v u : String) (ttl : ℕ) → value s k ≡ some u → write s k v ttl ≡ err key_error
  -- and otherwise creates the key
  pub write_free :
      (s : State) (k v : String) (ttl : ℕ)
      → value s k ≡ none
      → (s' : State) × (write s k v ttl ≡ ok s')
        × ((j : String) → value s' j ≡ (if str_eq k j then some v else value s j))
  -- a delete with `prevValue` fails at a key that is missing or has another value
  pub delete_missing : (s : State) (k v : String) → value s k ≡ none → delete s k v ≡ err key_error
  pub delete_other :
      (s : State) (k v u : String) → value s k ≡ some u → u ≢ v → delete s k v ≡ err value_error
  -- and otherwise removes the key
  pub delete_same :
      (s : State) (k v : String)
      → value s k ≡ some v
      → (s' : State) × (delete s k v ≡ ok s')
        × ((j : String) → value s' j ≡ (if str_eq k j then none else value s j))
  -- the end of a key's time to live
  pub value-expire :
      (s : State) (k j : String) → value (expire s k) j ≡ (if str_eq k j then none else value s j)
