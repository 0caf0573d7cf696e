-- ===== src/Services/Notify/Secrets.antt =====
-- What notifications show does not depend on encrypted values.
use cluster_deployer.Common.{String, ◌≡◌, refl, ap, ◌∙◌, sym, true, none, some}
use cluster_deployer.Value.{Value, str, arr, obj, Items, nil, cons, Fields, end, field, get_field}
use cluster_deployer.Services.Notify.{
  is_encrypted, massage_dict, massage_config, massage_fields, massage_items,
}

-- The dict has a value, and is marked as encrypted.
pub record IsSecret (fs : Fields) : Type 0 where
  pub secret : Value
  pub has_value : get_field "value" fs ≡ some secret
  pub marked : is_encrypted fs ≡ true

mutual
  -- Two configurations that differ in encrypted dicts only, none of them in the value of a dict that is
  -- not encrypted.
  pub data Alike : Value → Value → Type 0 where
    same : (v : Value) → Alike v v
    secrets : {fs gs : Fields} → IsSecret fs → IsSecret gs → Alike (obj fs) (obj gs)
    dicts :
        {fs gs : Fields}
        → get_field "value" fs ≡ none
        → get_field "value" gs ≡ none
        → AlikeFields fs gs
        → Alike (obj fs) (obj gs)
    lists : {xs ys : Items} → AlikeItems xs ys → Alike (arr xs) (arr ys)

  pub data AlikeFields : Fields → Fields → Type 0 where
    no_fields : AlikeFields end end
    one_field :
        (k : String) {v w : Value} {fs gs : Fields}
        → Alike v w
        → AlikeFields fs gs
        → AlikeFields (field k v fs) (field k w gs)

  pub data AlikeItems : Items → Items → Type 0 where
    no_items : AlikeItems nil nil
    one_item :
        {v w : Value} {xs ys : Items}
        → Alike v w
        → AlikeItems xs ys
        → AlikeItems (cons v xs) (cons w ys)

module _ (text_of : Value → String) where
  massage_secret : (fs : Fields) → IsSecret fs → massage_config text_of (obj fs) ≡ str ""
  unfolding massage_config
  massage_secret fs s = rw (s.has_value, s.marked, massage_dict) refl

  massage_plain :
      (fs : Fields)
      → get_field "value" fs ≡ none
      → massage_config text_of (obj fs) ≡ obj (massage_fields text_of fs)
  unfolding massage_config
  massage_plain fs h = rw (h, massage_dict) refl

  massage_list : (xs : Items) → massage_config text_of (arr xs) ≡ arr (massage_items text_of xs)
  unfolding massage_config
  massage_list xs = refl

  massage_fields-field :
      (k : String) (v : Value) (fs : Fields)
      → massage_fields text_of (field k v fs)
        ≡ field k (massage_config text_of v) (massage_fields text_of fs)
  unfolding massage_fields
  massage_fields-field k v fs = refl

  massage_items-cons :
      (v : Value) (xs : Items)
      → massage_items text_of (cons v xs)
        ≡ cons (massage_config text_of v) (massage_items text_of xs)
  unfolding massage_items
  massage_items-cons v xs = refl

  mutual
    hides : {v w : Value} → Alike v w → massage_config text_of v ≡ massage_config text_of w
    hides (same v) = refl
    hides (secrets {fs} {gs} s t) = massage_secret fs s ∙ sym (massage_secret gs t)
    hides (dicts {fs} {gs} h k a) =
        massage_plain fs h ∙ ap obj (hides_fields a) ∙ sym (massage_plain gs k)
    hides (lists {xs} {ys} a) = massage_list xs ∙ ap arr (hides_items a) ∙ sym (massage_list ys)

    hides_fields :
        {fs gs : Fields} → AlikeFields fs gs → massage_fields text_of fs ≡ massage_fields text_of gs
    hides_fields no_fields = refl
    hides_fields (one_field k {v} {w} {fs} {gs} a rest) =
        massage_fields-field k v fs
        ∙ (ap (λ u. field k u (massage_fields text_of fs)) (hides a)
            ∙ ap (field k (massage_config text_of w)) (hides_fields rest))
        ∙ sym (massage_fields-field k w gs)

    hides_items :
        {xs ys : Items} → AlikeItems xs ys → massage_items text_of xs ≡ massage_items text_of ys
    hides_items no_items = refl
    hides_items (one_item {v} {w} {xs} {ys} a rest) =
        massage_items-cons v xs
        ∙ (ap (λ u. cons u (massage_items text_of xs)) (hides a)
            ∙ ap (cons (massage_config text_of w)) (hides_items rest))
        ∙ sym (massage_items-cons w ys)

  -- Two configurations that differ in encrypted dicts only, none of them inside the value of a dict
  -- that is not encrypted, are shown alike: what `massage_config` gives tells nothing of an encrypted
  -- value.
  pub massage_config_hides :
      (v w : Value) → Alike v w → massage_config text_of v ≡ massage_config text_of w
  massage_config_hides v w a = hides a
