-- ===== src/Value/Access/Laws.antt =====
-- What an entry of a dict is after a write.
use cluster_deployer.Common.{
  Bool-cases, inl, inr, arith, eq_iff, none, String, ◌≡◌, refl, ap, subst, false, List, [], ◌∷◌,
  str_eq,
}
use cluster_deployer.Common.Result.{ok, bind-ok, ok_injective}
use cluster_deployer.Value.{Value, Fields, end, field, obj, get_field}
use cluster_deployer.Value.Laws.{get_field-set_field, get_field-set_field_self}
use cluster_deployer.Value.Access.{Access, found, item, assign, item_at, update_at, remove_field}

pub item-assign_same : (k : String) (x v v' : Value) → assign k x v ≡ ok v' → item k v' ≡ ok x
unfolding item assign
item-assign_same k x (obj d) v' h =
    subst (λ u. item k u ≡ ok x) (ok_injective h) (ap (found k) (get_field-set_field_self k x d))
item-assign_same k x _ v' h = cc

pub item-assign_other :
    (k j : String) (x v v' : Value)
    → str_eq k j ≡ false
    → assign k x v ≡ ok v'
    → item j v' ≡ item j v
unfolding item assign
item-assign_other k j x (obj d) v' o h =
    subst (λ u. item j u ≡ item j (obj d)) (ok_injective h)
      (ap (found j) (rw (get_field-set_field, o) refl))
item-assign_other k j x _ v' o h = cc

pub update_at-cons :
    (k : String) (p : List String) (f : Value → Access Value) (v v' : Value)
    → update_at (k ∷ p) f v ≡ ok v'
    → (w : Value) × (w' : Value) × (item k v ≡ ok w)
      × (update_at p f w ≡ ok w')
      × (assign k w' v ≡ ok v')
unfolding update_at
update_at-cons k p f v v' h =
    let (w, a, h1) = bind-ok (item k v) _ v' h in
    let (w', b, h2) = bind-ok (update_at p f w) _ v' h1 in (w, w', a, b, h2)

-- A change below one key leaves every other key.
pub item-update_at_other :
    (k : String) (p : List String) (j : String) (f : Value → Access Value) (v v' : Value)
    → str_eq k j ≡ false
    → update_at (k ∷ p) f v ≡ ok v'
    → item j v' ≡ item j v
item-update_at_other k p j f v v' o h =
    let (w, w', a, b, c) = update_at-cons k p f v v' h in item-assign_other k j w' v v' o c

-- The value at the path was there, the change succeeds on it, and what it gives is there now.
pub item_at-update_at :
    (p : List String) (f : Value → Access Value) (v v' : Value)
    → update_at p f v ≡ ok v'
    → (w : Value) × (w' : Value) × (item_at p v ≡ ok w) × (f w ≡ ok w') × (item_at p v' ≡ ok w')
unfolding item_at update_at
item_at-update_at [] f v v' h = (v, v', refl, h, refl)
item_at-update_at (k ∷ p) f v v' h =
    let (w, w', a, b, c) = update_at-cons k p f v v' h in
    let (u, u', s, t, r) = item_at-update_at p f w w' b in
    (u, u', rw a s, t, rw (item-assign_same k w' v v' c) r)

pub item_at-kept :
    (k : String) (p : List String) (v v' : Value)
    → item k v' ≡ item k v
    → item_at (k ∷ p) v' ≡ item_at (k ∷ p) v
unfolding item_at
item_at-kept k p v v' h = rw h refl

pub get_field-remove_field_self : (k : String) (d : Fields) → get_field k (remove_field k d) ≡ none
unfolding get_field remove_field
get_field-remove_field_self k end = refl
get_field-remove_field_self k (field j v d) = elim (Bool-cases (str_eq j k)) [
  | inl t ↦ rw t (get_field-remove_field_self k d)
  | inr t ↦ rw (t, get_field, t) (get_field-remove_field_self k d)
]

pub get_field-remove_field_ne :
    (k j : String) (d : Fields)
    → str_eq k j ≡ false
    → get_field j (remove_field k d) ≡ get_field j d
unfolding get_field remove_field
get_field-remove_field_ne k j end o = refl
get_field-remove_field_ne k j (field i v d) o =
    ground (arith, eq_iff i k, eq_iff i j, eq_iff k j, get_field-remove_field_ne k j d o)
