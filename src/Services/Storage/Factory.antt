-- ===== src/Services/Storage/Factory.antt =====
-- `DefaultStorageFactory` of deployer/services/storage/factory.py. The environment of the process, the
-- import of a module with its `create`, the set-up of a store and Python's `upper` are parameters; `W` is
-- what a set-up changes.
pub mod Cached
mod Tests
use cluster_deployer.Common.{
  String, text_append, Bool, true, false, Option, none, some, List, [], ◌∷◌, str_eq, if◌then◌else◌,
}
use cluster_deployer.Common.Result.{Result, ok, err}

pub data FactoryError : Type 0 where
  -- the `NotImplementedError` with its name and its variable
  no_implementation : (name env_var : String) → FactoryError
  -- the import, `create` or the set-up has failed
  broken : (text : String) → FactoryError

-- what the factory calls
pub record Modules (W Store : Type 0) : Type 0 where
  pub getenv : String → Option String
  pub upper : String → String
  pub create : (module_name : String) → W → Result String (Store × W)
  pub set_up : Store → W → Result String W

-- the factory with its cache, and what it changes
pub record Stores (W Store : Type 0) : Type 0 where
  pub cache : List (String × Store)
  pub outside : W

-- `self._cache[name]`, if it is there
abbrev pub cached : {Store : Type 0} → String → List (String × Store) → Option Store
cached name [] = none
cached name ((k, store) ∷ rest) =
    let other = cached name rest in if str_eq k name then some store else other

-- `_defaut_providers`
abbrev pub default_provider : String → Option String
default_provider name = if str_eq name "mongo" then some "deployer.services.storage.mongo" else none

abbrev pub or_default_provider : String → Option String → Option String
or_default_provider name none = default_provider name
or_default_provider name (some m) = some m

-- `if not module`
abbrev pub not_empty : Option String → Option String
not_empty none = none
not_empty (some m) = if str_eq m "" then none else some m

module _ {W Store : Type 0} (m : Modules W Store) where
  abbrev pub store_variable : String → String
  store_variable name = text_append "STORE_" (m.upper name)

  abbrev pub module_of : String → Option String
  module_of name = not_empty (or_default_provider name (m.getenv (store_variable name)))

  -- `register`: the set-up comes first, so that a store whose set-up fails is not kept
  unfoldable pub register :
      String → Store → Stores W Store → Result FactoryError (Unit {0}) × Stores W Store
  register name store s = elim (m.set_up store s.outside) [
    | err text ↦ (err (broken text), s)
    | ok w ↦ (ok tt, record { cache = (name, store) ∷ s.cache; outside = w })
  ]

  abbrev pub get_registered :
      Store
      → Result FactoryError (Unit {0}) × Stores W Store
      → Result FactoryError Store × Stores W Store
  get_registered store (ok _, s) = (ok store, s)
  get_registered store (err x, s) = (err x, s)

  -- the store of a module that has a name
  abbrev pub create_store :
      String
      → (module_name : Option String) → Stores W Store
      → Result FactoryError Store × Stores W Store
  create_store name none s = (err (no_implementation name (store_variable name)), s)
  create_store name (some module_name) s = elim (m.create module_name s.outside) [
    | err text ↦ (err (broken text), s)
    | ok (store, w) ↦ get_registered store (register name store (record s { outside = w }))
  ]

  -- `get`
  unfoldable pub get : String → Stores W Store → Result FactoryError Store × Stores W Store
  unfolding register
  get name s = elim (cached name s.cache) [
    | some store ↦ (ok store, s)
    | none ↦ create_store name (module_of name) s
  ]

  -- gets, one after the other
  abbrev pub get_each : List String → Stores W Store → Stores W Store
  get_each [] s = s
  get_each (name ∷ names) s = get_each names (get name s).1
