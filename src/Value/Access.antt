-- ===== src/Value/Access.antt =====
-- Reading and writing the dicts of a document as Python does it, with the exceptions that it raises.
pub mod Laws
use cluster_deployer.Common.{
  String, Option, none, some, List, [], ◌∷◌, Bool, true, false, if◌then◌else◌, str_eq,
}
use cluster_deployer.Common.Result.{Result, ok, err, ◌>>=◌}
use cluster_deployer.Util.Interval.{InvalidInterval}
use cluster_deployer.Value.{Value, null, str, obj, Fields, end, field, get_field, set_field}

-- a `KeyError`, a `TypeError` or `AttributeError`, a `ValueError`, and `InvalidInterval`
pub data AccessError : Type 0 where
  missing_key : String → AccessError
  wrong_type : AccessError
  bad_value : String → AccessError
  bad_interval : InvalidInterval → AccessError

abbrev pub Access : Type 0 → Type 0
Access A = Result AccessError A

abbrev pub found : String → Option Value → Access Value
found k none = err (missing_key k)
found k (some v) = ok v

-- a value where only a text will do
abbrev pub as_text : Value → Access String
as_text (str s) = ok s
as_text _ = err wrong_type

-- `v[k]`
unfoldable pub item : String → Value → Access Value
item k (obj d) = found k (get_field k d)
item k _ = err wrong_type

abbrev pub or_default : Value → Option Value → Value
or_default default none = default
or_default default (some v) = v

-- `v.get(k, default)`
unfoldable pub get : String → (default : Value) → Value → Access Value
get k default (obj d) = ok (or_default default (get_field k d))
get k default _ = err wrong_type

-- `v[k] = x`
unfoldable pub assign : String → (x : Value) → Value → Access Value
assign k x (obj d) = ok (obj (set_field k x d))
assign k x _ = err wrong_type

-- the entries of a dict, as `v.items()` gives them
unfoldable pub items : Value → Access Fields
items (obj d) = ok d
items _ = err wrong_type

-- `v[k1][k2]...`
unfoldable pub item_at : List String → Value → Access Value
unfolding item
item_at [] v = ok v
item_at (k ∷ p) v = item k v >>= λ w. item_at p w

-- A change of the object at a path; the objects on the way hold the changed one.
unfoldable pub update_at : List String → (Value → Access Value) → Value → Access Value
unfolding item assign
update_at [] f v = f v
update_at (k ∷ p) f v = do w ← item k v; w' ← update_at p f w; assign k w' v

-- `del v[k]`; a dict has at most one entry of a key
unfoldable pub remove_field : String → Fields → Fields
remove_field k end = end
remove_field k (field j v d) =
    let rest = remove_field k d in if str_eq j k then rest else field j v rest

-- `v.values()`, each value changed where it stands
unfoldable pub map_values : (Value → Access Value) → Fields → Access Fields
map_values f end = ok end
map_values f (field k v d) = do w ← f v; rest ← map_values f d; ok (field k w rest)

abbrev pub values : Fields → List Value
values end = []
values (field k v d) = v ∷ values d

abbrev pub keys : Fields → List String
keys end = []
keys (field k v d) = k ∷ keys d
