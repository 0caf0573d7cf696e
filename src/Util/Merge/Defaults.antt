-- ===== src/Util/Merge/Defaults.antt =====
-- `dict_merge` on its list of arguments.
use cluster_deployer.Common.{
  String, ◌≡◌, refl, ◌∙◌, List, [], ◌∷◌, ◌++◌, some, foldl, All, Option-cases, inl, inr, Bool-cases,
}
use mathlib.Core.List.{foldl-append}
use cluster_deployer.Value.{
  Value, null, obj, Fields, end, field, get_field, IsDict, get_path, lookup, truthy, IsFields,
}
use cluster_deployer.Value.Laws.{get_field-IsDict}
use cluster_deployer.Util.Merge.{merge, merge_fields, or_empty, dict_merge, merge_next}
use cluster_deployer.Util.Merge.Lookup.{
  get_field-merge_fields, merge_source_wins, merge_defaults_fill, IsObj, IsVacant, IsVacant-below,
}
use cluster_deployer.Util.Merge.Idempotent.{merge_empty, merge-merge, merge-IsDict}

or_empty-IsDict : (d : Value) → IsDict d → IsDict (or_empty d)
unfolding or_empty
or_empty-IsDict d w = elim (Bool-cases (truthy d)) [
  | inl e ↦ rw (e, or_empty) w
  | inr e ↦ rw (e, or_empty) tt
]

IsVacant-merge :
    (p : List String) (s d : Value)
    → IsDict d
    → IsVacant p s
    → IsVacant p d
    → IsVacant p (merge s d)
unfolding merge
IsVacant-merge [] s d w h g = h
IsVacant-merge (k ∷ p) (obj s) (obj d) w h g = elim (Option-cases (get_field k s)) [
  | inl a ↦ elim (Option-cases (get_field k d)) [
    | inl b ↦ rw (IsVacant, get_field-merge_fields k s d w, a, b) tt
    | inr (y, b) ↦ rw (IsVacant, get_field-merge_fields k s d w, a, b) (IsVacant-below k p d b g)
  ]
  | inr (x, a) ↦ elim (Option-cases (get_field k d)) [
    | inl b ↦ rw (IsVacant, get_field-merge_fields k s d w, a, b) (IsVacant-below k p s a h)
    | inr (y, b) ↦
        rw (IsVacant, get_field-merge_fields k s d w, a, b)
          (IsVacant-merge p x y (get_field-IsDict k d w b) (IsVacant-below k p s a h)
            (IsVacant-below k p d b g))
  ]
]
IsVacant-merge (k ∷ p) (obj s) d w h g = absurd g
IsVacant-merge (k ∷ p) s d w h g = absurd h

module _ (k : String) (p : List String) where
  -- The arguments in front of `d` leave the path open, in any order.
  fold-IsVacant :
      (acc : Value) (pre : List Value)
      → IsVacant (k ∷ p) acc
      → All (λ s. IsDict s × IsVacant (k ∷ p) (or_empty s)) pre
      → IsVacant (k ∷ p) (foldl merge_next acc pre)
  fold-IsVacant acc [] h a = h
  fold-IsVacant acc (d ∷ pre) h ((w, g), a) =
      fold-IsVacant (merge_next acc d) pre
        (IsVacant-merge (k ∷ p) acc (or_empty d) (or_empty-IsDict d w) h g) a

  fold_settled :
      (acc : Value) (post : List Value) {v : Value}
      → get_path (k ∷ p) acc ≡ some v
      → ¬ IsObj v
      → All IsDict post
      → get_path (k ∷ p) (foldl merge_next acc post) ≡ some v
  fold_settled acc [] e n a = e
  fold_settled acc (d ∷ post) e n (w, a) =
      fold_settled (merge_next acc d) post
        (merge_source_wins (k ∷ p) acc (or_empty d) (or_empty-IsDict d w) e n) n a

get_path-or_empty :
    (k : String) (p : List String) (d : Value) {v : Value}
    → get_path (k ∷ p) d ≡ some v
    → get_path (k ∷ p) (or_empty d) ≡ some v
unfolding or_empty get_path truthy lookup get_field
get_path-or_empty k p (obj end) e = e
get_path-or_empty k p (obj (field j w d)) e = e
get_path-or_empty k p null e = cc
get_path-or_empty k p _ e = cc

-- The first argument that has anything at a path decides: if every argument before it leaves the
-- path open (a missing key, `None` or another false value in place of a dict) and it has there a
-- value that is no dict, the merge has that value, whatever the later arguments hold.
pub dict_merge_first_wins :
    (k : String) (p : List String) (pre : List Value) (d : Value) (post : List Value) {v : Value}
    → All (λ s. IsDict s × IsVacant (k ∷ p) (or_empty s)) pre
    → IsDict d
    → get_path (k ∷ p) d ≡ some v
    → ¬ IsObj v
    → All IsDict post
    → get_path (k ∷ p) (dict_merge (pre ++ d ∷ post)) ≡ some v
unfolding dict_merge
dict_merge_first_wins k p pre d post a w e n b =
    let acc = foldl merge_next (obj end) pre in
    rw foldl-append (
      fold_settled k p (merge_next acc d) post
        (merge_defaults_fill (k ∷ p) acc (or_empty d) (or_empty-IsDict d w)
            (fold-IsVacant k p (obj end) pre (unfold get_field in tt) a)
          ∙ get_path-or_empty k p d e)
        n b)

or_empty-obj : (fs : Fields) → or_empty (obj fs) ≡ obj fs
unfolding or_empty truthy
or_empty-obj end = refl
or_empty-obj (field k v fs) = refl

-- A merge into a dict is a dict.
merge-obj : (s : Fields) (d : Value) → (m : Fields) × (merge (obj s) d ≡ obj m)
unfolding merge
merge-obj s (obj d) = (merge_fields s d, refl)
merge-obj s _ = (s, refl)

merge_obj_again :
    (m : Fields) (d : Value)
    → IsFields m
    → IsDict d
    → merge (obj m) (or_empty d) ≡ obj m
    → dict_merge (obj m ∷ d ∷ []) ≡ obj m
unfolding dict_merge
merge_obj_again m d wm w e = rw (or_empty-obj m, merge_empty m wm) e

-- Applying the same defaults a second time changes nothing.
dict_merge_idem :
    (s d : Value)
    → IsDict s
    → IsDict d
    → dict_merge (dict_merge (s ∷ d ∷ []) ∷ d ∷ []) ≡ dict_merge (s ∷ d ∷ [])
unfolding dict_merge
dict_merge_idem s d ws w =
    let (fs, e) = merge-obj end (or_empty s) in
    let (m, q) = merge-obj fs (or_empty d) in
    let same : dict_merge (s ∷ d ∷ []) ≡ obj m = rw e q in
    let wd : IsDict (or_empty d) = or_empty-IsDict d w in
    let wf : IsDict (obj fs) =
      rw e at (merge-IsDict (obj end) (or_empty s) tt (or_empty-IsDict s ws)) in
    let wm : IsDict (obj m) = rw q at (merge-IsDict (obj fs) (or_empty d) wf wd) in
    rw same (merge_obj_again m d wm w (rw (← q) (merge-merge (obj fs) (or_empty d) wd)))
