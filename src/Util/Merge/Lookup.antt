-- ===== src/Util/Merge/Lookup.antt =====
-- What a merge has at each key and at each path.
use cluster_deployer.Common.{
  String, ◌≡◌, refl, List, [], ◌∷◌, Option, none, some, arith, str-cases, Option-cases, inl, inr,
  sym, subst, ◌∙◌, ap,
}
use cluster_deployer.Value.{
  Value, Fields, end, field, get_field, set_field, IsDict, IsFields, null, obj, lookup, get_path,
}
use cluster_deployer.Value.Laws.{get_field-set_field_self, get_field-set_field_ne, get_field-IsDict}
use cluster_deployer.Util.Merge.{merge, merge_fields}

-- The entry of a merge, from the entries of its two sides.
abbrev pub merge_entry : Option Value → Option Value → Option Value
merge_entry none b = b
merge_entry (some a) none = some a
merge_entry (some a) (some b) = some (merge a b)

-- One step of the loop: what `source` has at the key of the step afterwards.
abbrev fill : Fields → String → Value → Value
fill s k v = elim (get_field k s) [ none ↦ v | some old ↦ merge old v ]

merge_entry-fill :
    (s : Fields) (k : String) (v : Value) → merge_entry (get_field k s) (some v) ≡ some (fill s k v)
merge_entry-fill s k v = ground arith

-- A key that the defaults lack keeps its entry.
pub merge_fields_absent :
    (k : String) (s d : Fields)
    → get_field k d ≡ none
    → get_field k (merge_fields s d) ≡ get_field k s
unfolding merge get_field
merge_fields_absent k s end h = refl
merge_fields_absent k s (field i v d) h = elim (str-cases i k) [
  | inl (e, p) ↦ ground arith
  | inr (e, p) ↦
      merge_fields_absent k (set_field i (fill s i v) s) d (ground arith)
      ∙ get_field-set_field_ne i k (fill s i v) s p
]

-- At every key a merge has what `merge_entry` makes of the entries of the two sides.
pub get_field-merge_fields :
    (k : String) (s d : Fields)
    → IsFields d
    → get_field k (merge_fields s d) ≡ merge_entry (get_field k s) (get_field k d)
unfolding merge get_field
get_field-merge_fields k s end w = ground arith
get_field-merge_fields k s (field i v d) (new, hv, w) = elim (str-cases i k) [
  | inl (e, p) ↦ rw e (
      merge_fields_absent k (set_field i (fill s i v) s) d (rw p at new)
      ∙ rw (← p) (get_field-set_field_self i (fill s i v) s ∙ sym (merge_entry-fill s i v)))
  | inr (e, p) ↦ rw e (
      get_field-merge_fields k (set_field i (fill s i v) s) d w
      ∙ ap (λ o. merge_entry o (get_field k d)) (get_field-set_field_ne i k (fill s i v) s p))
]

-- Whether the value is a dict.
abbrev pub IsObj : Value → Type 0
IsObj (obj fs) = Unit
IsObj _ = ⊥

merge_atom : (v d : Value) → ¬ IsObj v → merge v d ≡ v
unfolding merge
merge_atom (obj fs) d h = absurd (h tt)
merge_atom null d h = refl
merge_atom _ d h = refl

-- What the source has at a path, and is no dict, the merge has there too: the source wins.
pub merge_source_wins :
    (p : List String) (s d : Value) {v : Value}
    → IsDict d
    → get_path p s ≡ some v
    → ¬ IsObj v
    → get_path p (merge s d) ≡ some v
unfolding merge get_path lookup
merge_source_wins [] s d {v} w e h =
    let same : s ≡ v = cc in rw (merge_atom s d (λ q. h (subst IsObj same q))) e
merge_source_wins (k ∷ p) (obj fs) (obj ds) {v} w e h = elim (Option-cases (get_field k fs)) [
  | inl a ↦ ground arith
  | inr (x, a) ↦ elim (Option-cases (get_field k ds)) [
    | inl b ↦ rw (get_field-merge_fields k fs ds w, a, b) (ground arith)
    | inr (y, b) ↦
        rw (get_field-merge_fields k fs ds w, a, b)
          (merge_source_wins p x y (get_field-IsDict k ds w b) (ground arith) h)
  ]
]
merge_source_wins (k ∷ p) (obj fs) d w e h = e
merge_source_wins (k ∷ p) s d w e h = cc

-- The source has no value at the path, nor anything but dicts on the way there.
abbrev pub IsVacant : List String → Value → Type 0
IsVacant [] s = ⊥
IsVacant (k ∷ p) (obj fs) = elim (get_field k fs) [ none ↦ Unit | some w ↦ IsVacant p w ]
IsVacant (k ∷ p) _ = ⊥

pub IsVacant-below :
    (k : String) (p : List String) (fs : Fields) {x : Value}
    → get_field k fs ≡ some x
    → IsVacant (k ∷ p) (obj fs)
    → IsVacant p x
IsVacant-below k p fs e h = rw (e, IsVacant) at h

get_path_vacant : (p : List String) (s : Value) → IsVacant p s → get_path p s ≡ none
unfolding get_path lookup
get_path_vacant [] s h = absurd h
get_path_vacant (k ∷ p) (obj fs) h = elim (Option-cases (get_field k fs)) [
  | inl a ↦ ground arith
  | inr (x, a) ↦ ground (arith, get_path_vacant p x (IsVacant-below k p fs a h))
]
get_path_vacant (k ∷ p) s h = absurd h

-- Where the source has nothing, the merge has what the defaults have.
pub merge_defaults_fill :
    (p : List String) (s d : Value)
    → IsDict d
    → IsVacant p s
    → get_path p (merge s d) ≡ get_path p d
unfolding merge get_path lookup
merge_defaults_fill [] s d w h = absurd h
merge_defaults_fill (k ∷ p) (obj fs) (obj ds) w h = elim (Option-cases (get_field k fs)) [
  | inl a ↦ rw (get_field-merge_fields k fs ds w, a)
  | inr (x, a) ↦ elim (Option-cases (get_field k ds)) [
    | inl b ↦
        rw (get_field-merge_fields k fs ds w, a, b)
          (ground (arith, get_path_vacant p x (IsVacant-below k p fs a h)))
    | inr (y, b) ↦
        rw (get_field-merge_fields k fs ds w, a, b)
          (ground (
            arith,
            merge_defaults_fill p x y (get_field-IsDict k ds w b) (IsVacant-below k p fs a h),
          ))
  ]
]
merge_defaults_fill (k ∷ p) (obj fs) d w h = get_path_vacant (k ∷ p) (obj fs) h
merge_defaults_fill (k ∷ p) s d w h = absurd h
