-- ===== src/Services/Storage/Mongo/Stored.antt =====
-- A deployment that has an id can be stored.
use cluster_deployer.Common.{
  ℕ, String, ◌≡◌, refl, ◌∙◌, subst, none, some, str-cases, Option-cases, inl, inr, true, [], ◌∷◌,
}
use cluster_deployer.Common.Result.{ok, err}
use cluster_deployer.Services.Storage.Collection.{MongoDb, is}
use cluster_deployer.Services.Storage.Mongo.{
  get_item, apply_modified_ts, create_deployment, MongoStore,
}
use cluster_deployer.Util.Merge.{merge, merge_fields, or_empty, dict_merge}
use cluster_deployer.Value.{Value, date, obj, Fields, end, field, get_field, set_field, truthy}
use cluster_deployer.Value.Access.{Access, item, found, missing_key}
use cluster_deployer.Value.Laws.{get_field-set_field_self, get_field-set_field_ne}

-- The key has an entry.
abbrev Has : String → Fields → Type 0
Has k fs = (v : Value) × (get_field k fs ≡ some v)

set_field-Has : (i k : String) (v : Value) (fs : Fields) → Has k fs → Has k (set_field i v fs)
set_field-Has i k v fs (w, h) = elim (str-cases i k) [
  | inl (e, p) ↦
      (v, subst (λ j. get_field j (set_field i v fs) ≡ some v) p (get_field-set_field_self i v fs))
  | inr (e, p) ↦ (w, get_field-set_field_ne i k v fs p ∙ h)
]

-- what the loop of a merge puts at the key
abbrev filled : Fields → String → Value → Value
filled s i v = elim (get_field i s) [ none ↦ v | some old ↦ merge old v ]

merge_fields-Has_source : (k : String) (d s : Fields) → Has k s → Has k (merge_fields s d)
unfolding merge
merge_fields-Has_source k end s h = h
merge_fields-Has_source k (field i v d) s h =
    merge_fields-Has_source k d (set_field i (filled s i v) s)
      (set_field-Has i k (filled s i v) s h)

merge_fields-Has : (k : String) (d s : Fields) → Has k d → Has k (merge_fields s d)
unfolding merge get_field
merge_fields-Has k end s (w, h) = cc
merge_fields-Has k (field i v d) s (w, h) =
    let s1 = set_field i (filled s i v) s in
    elim (str-cases i k) [
      | inl (e, p) ↦ merge_fields-Has_source k d s1 (
        filled s i v,
        subst (λ j. get_field j s1 ≡ some (filled s i v)) p
            (get_field-set_field_self i (filled s i v) s),
      )
      | inr (e, p) ↦ merge_fields-Has k d s1 (w, rw e at h)
    ]

modified-Has : (k : String) (t : ℕ) (d : Fields) → Has k d → Has k (apply_modified_ts t (obj d))
unfolding apply_modified_ts dict_merge or_empty truthy merge get_field set_field
modified-Has k t end (w, h) = cc
modified-Has k t (field i v d) h =
    merge_fields-Has k (field i v d) (field "modified" (date t) end) h

nothing_found : {k : String} {v : Value} → Path (Access Value) (err (missing_key k)) (ok v) → ⊥
nothing_found h = cc

found-Has : (k : String) (d : Fields) (v : Value) → found k (get_field k d) ≡ ok v → Has k d
found-Has k d v h = elim (Option-cases (get_field k d)) [
  | inl q ↦ absurd (nothing_found (rw q at h))
  | inr (w, q) ↦ (w, q)
]

module _ (m : MongoDb) where
  -- A deployment whose document has an id is stored.
  pub create_deployment_stores :
      (now : ℕ → ℕ) (document id : Value) (s : MongoStore m)
      → item "id" document ≡ ok id
      → (t : MongoStore m) × (create_deployment m now document s ≡ ok t)
  unfolding create_deployment item apply_modified_ts
  create_deployment_stores now (obj d) id s h =
      let merged = apply_modified_ts (now 0) (obj d) in
      let upd =
        set_field "state-updated" (date (now 2)) (set_field "_expiry" (date (now 1)) merged) in
      let (w, there) =
        set_field-Has "state-updated" "id" (date (now 2))
          (set_field "_expiry" (date (now 1)) merged)
          (set_field-Has "_expiry" "id" (date (now 1)) merged
            (modified-Has "id" (now 0) d (found-Has "id" d id h))) in
      let t : MongoStore m = record s {
        deployments =
            m.replace_one (("id", is w) ∷ []) (apply_modified_ts (now 3) (obj upd)) true
              s.deployments;
      } in
      (t, rw (there, get_item) refl)
  create_deployment_stores now document id s h = cc
