-- ===== src/Services/Lock.antt =====
-- `LockService` of deployer/services/distributed_lock.py. The etcd client is a parameter, with the
-- documented behaviour of a write that must create its key and of a delete that compares; the value
-- that `uuid.uuid4()` draws is an argument.
pub mod EtcdClient
pub mod Laws
pub mod Holders
pub mod Tests
use cluster_deployer.Common.{ℕ, String, Bool, true, false, Option, none, some, text_append}
use cluster_deployer.Common.Result.{Result, ok, err}
use cluster_deployer.Services.Lock.EtcdClient.{Etcd}

-- `LockService.__init__` without the client
pub record LockService : Type 0 where
  pub etcd_base : String
  pub lock_base : String
  pub lock_ttl : ℕ

pub record Lock : Type 0 where
  pub key : String
  pub name : String
  pub value : String

pub record ResourceLocked : Type 0 where
  pub name : String
  pub key : String

-- `'%s%s/%s' % (self.etcd_base, self.lock_base, app_name)`
unfoldable pub lock_key : LockService → String → String
lock_key service app_name =
    text_append service.etcd_base (text_append service.lock_base (text_append "/" app_name))

module _ (e : Etcd) where
  open e use {State, write, delete}

  -- `apply_lock`: a `KeyError` of the write is a lock that is taken
  unfoldable pub apply_lock :
      LockService → String → String → State → Result ResourceLocked Lock × State
  apply_lock service app_name lock_value s =
      let key = lock_key service app_name in
      elim (write s key lock_value service.lock_ttl) [
        | ok s' ↦ (ok (record { key = key; name = app_name; value = lock_value }), s')
        | err _ ↦ (err (record { name = app_name; key = key }), s)
      ]

  -- `release`: no lock, a `KeyError` and a `ValueError` give `False`
  unfoldable pub release : Option Lock → State → Bool × State
  release none s = (false, s)
  release (some lock) s = elim (delete s lock.key lock.value) [
    | ok s' ↦ (true, s')
    | err _ ↦ (false, s)
  ]
