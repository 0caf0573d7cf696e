-- ===== src/Value.antt =====
-- The values of the documents that the program passes around: what `json.loads` gives, and dates.
-- A Python dict is its list of entries; a dict never lists a key twice (`IsDict`).
pub mod Laws
pub mod Access
use cluster_deployer.Common.{
  ℕ, String, ◌≡◌, List, [], ◌∷◌, Bool, true, false, not, Option, none, some, str_eq, if◌then◌else◌,
  ◌==◌,
}

mutual
  pub data Value : Type 0 where
    null : Value
    bool : Bool → Value
    num : ℕ → Value
    str : String → Value
    -- `date n` is the datetime n microseconds after `datetime.min`
    date : ℕ → Value
    arr : Items → Value
    obj : Fields → Value

  pub data Fields : Type 0 where
    end : Fields
    field : String → Value → Fields → Fields

  pub data Items : Type 0 where
    nil : Items
    cons : Value → Items → Items

-- `d.get(k)` on the entries, `none` for a missing key
unfoldable pub get_field : String → Fields → Option Value
get_field k end = none
get_field k (field j v fs) = if str_eq j k then some v else get_field k fs

-- `d[k] = v`
unfoldable pub set_field : String → Value → Fields → Fields
set_field k v end = field k v end
set_field k v (field j w fs) = if str_eq j k then field j v fs else field j w (set_field k v fs)

abbrev mutual
  -- no dict in the value lists a key twice
  pub IsDict : Value → Type 0
  IsDict null = Unit
  IsDict (bool b) = Unit
  IsDict (num n) = Unit
  IsDict (str s) = Unit
  IsDict (date n) = Unit
  IsDict (arr xs) = AreDicts xs
  IsDict (obj fs) = IsFields fs

  pub AreDicts : Items → Type 0
  AreDicts nil = Unit
  AreDicts (cons v xs) = IsDict v × AreDicts xs

  pub IsFields : Fields → Type 0
  IsFields end = Unit
  IsFields (field k v fs) = (get_field k fs ≡ none) × IsDict v × IsFields fs

-- Python's truth value
unfoldable pub truthy : Value → Bool
truthy null = false
truthy (bool b) = b
truthy (num n) = not (n == 0)
truthy (str s) = not (str_eq s "")
truthy (date n) = true
truthy (arr nil) = false
truthy (arr (cons _ _)) = true
truthy (obj end) = false
truthy (obj (field _ _ _)) = true

-- `v.get(k)` for a dict `v`; any other value has no entries
unfoldable pub lookup : String → Value → Option Value
unfolding get_field
lookup k (obj fs) = get_field k fs
lookup k _ = none

-- the value at the end of a path of keys
unfoldable pub get_path : List String → Value → Option Value
get_path [] v = some v
get_path (k ∷ p) v = elim (lookup k v) [ none ↦ none | some w ↦ get_path p w ]
