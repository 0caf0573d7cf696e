-- ===== src/Util/Merge/Idempotent.antt =====
-- Merging the same defaults again changes nothing, and a merge of dicts is a dict.
use cluster_deployer.Common.{
  String, ◌≡◌, refl, none, some, sym, ap, ◌∙◌, arith, Option-cases, inl, inr, str-cases, eq_refl,
}
use cluster_deployer.Value.{Value, obj, Fields, end, field, get_field, set_field, IsDict, IsFields}
use cluster_deployer.Value.Laws.{
  set_field-IsFields, set_field_same, get_field-set_field_ne, get_field-IsDict,
}
use cluster_deployer.Util.Merge.{merge, merge_fields}
use cluster_deployer.Util.Merge.Lookup.{get_field-merge_fields, merge_entry}

mutual
  unfolding merge

  pub merge-IsDict : (s d : Value) → IsDict s → IsDict d → IsDict (merge s d)
  merge-IsDict (obj s) (obj d) hs hd = merge_fields-IsFields s d hs hd
  merge-IsDict s d hs hd = hs

  pub merge_fields-IsFields : (s d : Fields) → IsFields s → IsFields d → IsFields (merge_fields s d)
  merge_fields-IsFields s end hs hd = hs
  merge_fields-IsFields s (field k v d) hs (new, hv, hd) = elim (Option-cases (get_field k s)) [
    | inl e ↦
        rw (e, merge)
          (merge_fields-IsFields (set_field k v s) d (set_field-IsFields k v s hv hs) hd)
    | inr (old, e) ↦
        rw (e, merge)
          (merge_fields-IsFields (set_field k (merge old v) s) d
            (set_field-IsFields k (merge old v) s
              (merge-IsDict old v (get_field-IsDict k s hs e) hv) hs)
            hd)
  ]

-- Every default is in the source already, with nothing left to add below it.
abbrev Absorbs : Fields → Fields → Type 0
Absorbs s end = Unit
Absorbs s (field k v d) = ((a : Value) × (get_field k s ≡ some a) × (merge a v ≡ a)) × Absorbs s d

Absorbs-eq : (s d : Fields) → Absorbs s d → merge_fields s d ≡ s
unfolding merge
Absorbs-eq s end h = refl
Absorbs-eq s (field k v d) ((a, e, m), h) =
    rw (e, merge, m, set_field_same k a s e) (Absorbs-eq s d h)

-- `m` has at each key of the defaults `d` what a merge with the source `s` has.
abbrev Merges : Fields → Fields → Fields → Type 0
Merges m s d =
    (k : String) (v : Value)
    → get_field k d ≡ some v
    → get_field k m ≡ merge_entry (get_field k s) (some v)

Merges-tail :
    (m s : Fields) (k : String) (v : Value) (d : Fields)
    → get_field k d ≡ none
    → Merges m s (field k v d)
    → Merges m s d
unfolding get_field
Merges-tail m s k v d new h j w e = elim (str-cases k j) [
  | inl (t, p) ↦ cc
  | inr (t, p) ↦ h j w (rw t e)
]

Merges-head :
    (m s : Fields) (k : String) (v : Value) (d : Fields)
    → Merges m s (field k v d)
    → get_field k m ≡ merge_entry (get_field k s) (some v)
unfolding get_field
Merges-head m s k v d h = h k v (rw eq_refl refl)

mutual
  unfolding merge get_field

  merge_self : (v : Value) → IsDict v → merge v v ≡ v
  merge_self (obj d) w = ap obj (Absorbs-eq d d (absorbs d end d w (λ k v e. e)))
  merge_self v w = refl

  merge_again : (v a : Value) → IsDict v → merge (merge a v) v ≡ merge a v
  merge_again (obj d) (obj s) w = ap obj (
      Absorbs-eq (merge_fields s d) d (
        absorbs (merge_fields s d) s d w
          (λ k v e. get_field-merge_fields k s d w ∙ ap (merge_entry (get_field k s)) e)))
  merge_again (obj d) a w = refl
  merge_again v (obj s) w = refl
  merge_again v a w = refl

  absorbs : (m s d : Fields) → IsFields d → Merges m s d → Absorbs m d
  absorbs m s end w h = tt
  absorbs m s (field k v d) (new, hv, w) h = (
    elim (Option-cases (get_field k s)) [
      | inl e ↦ (v, rw e at (Merges-head m s k v d h), merge_self v hv)
      | inr (a, e) ↦ (merge a v, rw e at (Merges-head m s k v d h), merge_again v a hv)
    ],
    absorbs m s d w (Merges-tail m s k v d new h),
  )

-- the entries of one dict behind those of another
abbrev append_fields : Fields → Fields → Fields
append_fields end d = d
append_fields (field k v s) d = field k v (append_fields s d)

append_fields_end : (s : Fields) → append_fields s end ≡ s
append_fields_end end = refl
append_fields_end (field k v s) = ap (field k v) (append_fields_end s)

set_field_new :
    (k : String) (v : Value) (s : Fields)
    → (d : Fields) → get_field k s ≡ none
    → append_fields (set_field k v s) d ≡ append_fields s (field k v d)
unfolding set_field get_field
set_field_new k v end d h = refl
set_field_new k v (field j w s) d h = ground (arith, set_field_new k v s d)

merge_fields_disjoint :
    (s d : Fields)
    → IsFields d
    → ((k : String) (v : Value) → get_field k d ≡ some v → get_field k s ≡ none)
    → merge_fields s d ≡ append_fields s d
unfolding merge get_field
merge_fields_disjoint s end w h = sym (append_fields_end s)
merge_fields_disjoint s (field k v d) (new, hv, w) h =
    let absent : get_field k s ≡ none = h k v (rw eq_refl refl) in
    rw (absent, merge)
      (merge_fields_disjoint (set_field k v s) d w (λ j u e. elim (str-cases k j) [
        | inl (t, p) ↦ cc
        | inr (t, p) ↦ rw (get_field-set_field_ne k j v s p) (h j u (rw t e))
      ])
        ∙ set_field_new k v s d absent)

-- The empty dict is neutral on the left.
pub merge_empty : (d : Fields) → IsFields d → merge (obj end) (obj d) ≡ obj d
unfolding merge get_field
merge_empty d w = ap obj (merge_fields_disjoint end d w (λ k v e. refl))

pub merge-merge : (s d : Value) → IsDict d → merge (merge s d) d ≡ merge s d
merge-merge s d w = merge_again d s w
