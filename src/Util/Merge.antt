-- ===== src/Util/Merge.antt =====
-- `dict_merge` of deployer/util.py: the definitions. What is proved about it stands in the
-- modules below.
pub mod Lookup
pub mod Idempotent
pub mod Defaults
use cluster_deployer.Common.{List, ◌∷◌, Option, none, some, Bool, true, false, foldl, map}
use cluster_deployer.Value.{
  Value, null, bool, num, str, date, arr, obj, nil, cons, Fields, end, field, get_field, set_field,
  truthy,
}

-- The inner function `merge`: what `source` holds wins, and two dicts are merged key by key.
unfoldable mutual
  pub merge : Value → Value → Value
  merge (obj s) (obj d) = obj (merge_fields s d)
  merge s d = s

  -- the loop `for key, value in defaults.items()` on the copy of `source`
  pub merge_fields : Fields → Fields → Fields
  merge_fields s end = s
  merge_fields s (field k v d) =
      merge_fields (set_field k (elim (get_field k s) [ none ↦ v | some old ↦ merge old v ]) s) d

-- `merge_with or {}`
unfoldable pub or_empty : Value → Value
or_empty v = elim (truthy v) [ true ↦ v | false ↦ obj end ]

-- One round of the loop over the arguments.
abbrev pub merge_next : Value → Value → Value
merge_next merged merge_with = merge merged (or_empty merge_with)

-- The loop over the arguments starts from the empty dict.
unfoldable pub dict_merge : List Value → Value
dict_merge = foldl merge_next (obj end)
