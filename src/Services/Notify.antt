-- ===== src/Services/Notify.antt =====
-- `massage_config` of deployer/services/util.py, which takes the encrypted values out of what
-- notifications show. `text_of` is Python's `str` on a value.
pub mod Secrets
mod Tests
use cluster_deployer.Common.{String, Bool, true, false, Option, none, some}
use cluster_deployer.Value.{
  Value, null, bool, num, str, date, arr, obj, Items, nil, cons, Fields, end, field, get_field,
  truthy,
}

-- `config.get('encrypted', False)`, as a condition
abbrev pub is_encrypted : Fields → Bool
is_encrypted fs = elim (get_field "encrypted" fs) [ none ↦ false | some v ↦ truthy v ]

module _ (text_of : Value → String) where
  -- A dict: the last argument is the dict with its values massaged.
  abbrev pub massage_dict : Option Value → Bool → Fields → Value
  massage_dict none encrypted rest = obj rest
  massage_dict (some v) true rest = str ""
  massage_dict (some v) false rest = str (text_of v)

  unfoldable mutual
    pub massage_config : Value → Value
    massage_config (obj fs) =
        massage_dict (get_field "value" fs) (is_encrypted fs) (massage_fields fs)
    massage_config (arr xs) = arr (massage_items xs)
    massage_config null = null
    massage_config (bool b) = bool b
    massage_config (num n) = num n
    massage_config (str s) = str s
    massage_config (date n) = date n

    pub massage_fields : Fields → Fields
    massage_fields end = end
    massage_fields (field k v fs) = field k (massage_config v) (massage_fields fs)

    pub massage_items : Items → Items
    massage_items nil = nil
    massage_items (cons v xs) = cons (massage_config v) (massage_items xs)
