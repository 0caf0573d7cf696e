-- ===== src/Services/Deployment/Clone/Laws.antt =====
-- What `clone_deployment` gives: the deployment without its version, under a new job.
use cluster_deployer.Common.{
  String, ◌≡◌, refl, sym, ◌∙◌, ap, subst, Bool, true, false, inl, inr, List, [], ◌∷◌, str_eq,
  Option-cases, arith, eq_iff,
}
use cluster_deployer.Common.Result.{ok, err, ◌>>=◌, bind-ok, ok_injective}
use cluster_deployer.Services.Deployment.Clone.{
  drop_version, has_version, deployment_entry, without_version, default_meta_info, clone_deployment,
}
use cluster_deployer.Value.{Value, null, str, obj, end, field, get_field, truthy}
use cluster_deployer.Conf.Defaults.{empty}
use cluster_deployer.Value.Laws.{get_field-set_field_ne}
use cluster_deployer.Value.Access.{
  Access, item, item_at, get, items, assign, update_at, found, missing_key,
}
use cluster_deployer.Value.Access.Laws.{
  update_at-cons, item-assign_same, item-assign_other, item-update_at_other, item_at-kept,
  get_field-remove_field_self, get_field-remove_field_ne,
}

-- A version that is there is `None` or empty.
abbrev pub Unversioned : Value → Type 0
Unversioned v = (w : Value) → item_at ("deployment" ∷ "version" ∷ []) v ≡ ok w → truthy w ≡ false

-- Only the version may go from the entry `deployment`, and every other entry but the meta-information
-- is as it was.
abbrev pub KeepsRest : Value → Value → Type 0
KeepsRest d v =
    ((j : String)
      → str_eq "version" j ≡ false
      → item_at ("deployment" ∷ j ∷ []) v ≡ item_at ("deployment" ∷ j ∷ []) d)
    × ((j : String)
        → str_eq "deployment" j ≡ false
        → str_eq "meta-info" j ≡ false
        → item j v ≡ item j d)

abbrev pub IsClone : (job_id : String) → Value → Value → Type 0
IsClone job_id d v =
    Unversioned v × KeepsRest d v × (item_at ("meta-info" ∷ "job-id" ∷ []) v ≡ ok (str job_id))

drop_version-lem :
    (v w : Value)
    → drop_version v ≡ ok w
    → (item "version" w ≡ err (missing_key "version"))
      × ((j : String) → str_eq "version" j ≡ false → item j w ≡ item j v)
unfolding item items
drop_version-lem (obj d) w h =
    subst
      (λ u.
        (item "version" u ≡ err (missing_key "version"))
        × ((j : String) → str_eq "version" j ≡ false → item j u ≡ item j (obj d)))
      (ok_injective h)
      (
        ap (found "version") (get_field-remove_field_self "version" d),
        λ j o. ap (found j) (get_field-remove_field_ne "version" j d o),
      )
drop_version-lem _ w h = cc

default_meta_info-lem :
    (v w : Value) (j : String)
    → str_eq "meta-info" j ≡ false
    → default_meta_info v ≡ ok w
    → item j w ≡ item j v
unfolding item items
default_meta_info-lem (obj d) w j o h = elim (Option-cases (get_field "meta-info" d)) [
  | inl q ↦
      subst (λ u. item j u ≡ item j (obj d)) (ok_injective (rw (q, default_meta_info) at h))
        (ap (found j)
          (get_field-set_field_ne "meta-info" j empty d (ground (arith, eq_iff "meta-info" j))))
  | inr (m, q) ↦ ap (item j) (sym (ok_injective (rw (q, default_meta_info) at h)))
]
default_meta_info-lem _ w j o h = cc

-- An entry that is there is in a value that is true, and `get` finds it too.
item-get : (k : String) (v w : Value) → item k v ≡ ok w → (truthy v ≡ true) × (get k null v ≡ ok w)
unfolding item get truthy get_field
item-get k (obj end) w h = cc
item-get k (obj (field j x d)) w h = elim (Option-cases (get_field k (field j x d))) [
  | inl q ↦ absurd (missing (rw q at h))
  | inr (y, q) ↦ (refl, rw q (rw q at h))
]
  where
    missing : Path (Access Value) (err (missing_key k)) (ok w) → ⊥
    missing g = cc
item-get k _ w h = cc

has_version-false :
    (v u : Value) → deployment_entry v ≡ ok u → has_version u ≡ ok false → Unversioned v
unfolding item_at
has_version-false v u a b w h =
    let (x, c, h1) = bind-ok (item "deployment" v) _ w h in
    let (y, e, h2) = bind-ok (item "version" x) _ w h1 in
    let (t, g) = item-get "deployment" v x c in
    let (t', g') = item-get "version" x y e in
    let same : u ≡ x = ok_injective (sym a ∙ rw (t, deployment_entry) g) in
    let said : has_version x ≡ ok false = ap has_version (sym same) ∙ b in
    ap truthy (sym (ok_injective h2)) ∙ ok_injective (sym (rw (t', g', has_version) refl) ∙ said)

item_at-item :
    (k : String) (p : List String) (v w : Value) → item k v ≡ ok w → item_at (k ∷ p) v ≡ item_at p w
unfolding item_at
item_at-item k p v w h = rw h refl

-- The first step: the version goes, and nothing else.
abbrev Stripped : Value → Value → Type 0
Stripped d u =
    Unversioned u
    × ((j : String)
        → str_eq "version" j ≡ false
        → item_at ("deployment" ∷ j ∷ []) u ≡ item_at ("deployment" ∷ j ∷ []) d)
    × ((j : String) → str_eq "deployment" j ≡ false → item j u ≡ item j d)

update_at-Stripped :
    (d u : Value) → update_at ("deployment" ∷ []) drop_version d ≡ ok u → Stripped d u
unfolding item_at update_at
update_at-Stripped d u h =
    let (x, x', a, b, c) = update_at-cons "deployment" [] drop_version d u h in
    let (gone, kept) = drop_version-lem x x' b in
    let there : item "deployment" u ≡ ok x' = item-assign_same "deployment" x' d u c in
    (
      λ w g. absurd (
          no_version w (
            ap (λ r. r >>= λ y. ok y) (sym gone)
            ∙ (sym (item_at-item "deployment" ("version" ∷ []) u x' there) ∙ g))),
      λ j o.
          item_at-item "deployment" (j ∷ []) u x' there
          ∙ (item_at-kept j [] x x' (kept j o) ∙ sym (item_at-item "deployment" (j ∷ []) d x a)),
      λ j o. item-assign_other "deployment" j x' d u o c,
    )
  where
    no_version : (w : Value) → Path (Access Value) (err (missing_key "version")) (ok w) → ⊥
    no_version w g = cc

without_version-Stripped :
    (versioned : Bool) (d entry u : Value)
    → deployment_entry d ≡ ok entry
    → has_version entry ≡ ok versioned
    → without_version versioned d ≡ ok u
    → Stripped d u
without_version-Stripped true d entry u a b h = update_at-Stripped d u h
without_version-Stripped false d entry u a b h =
    subst (Stripped d) (ok_injective h) (has_version-false d entry a b, λ j o. refl, λ j o. refl)

-- A clone has no version, or one that is `None` or empty, and the drawn job id; the rest of its entry
-- `deployment` and all its entries but that and the meta-information are those of the deployment.
pub clone_deployment-IsClone :
    (job_id : String) (d v : Value) → clone_deployment job_id d ≡ ok v → IsClone job_id d v
unfolding clone_deployment update_at item_at
clone_deployment-IsClone job_id d v h =
    let (entry, a, h1) = bind-ok (deployment_entry d) _ v h in
    let (versioned, b, h2) = bind-ok (has_version entry) _ v h1 in
    let (u1, c, h3) = bind-ok (without_version versioned d) _ v h2 in
    let (u2, e, g) = bind-ok (default_meta_info u1) _ v h3 in
    let (none_left, rest, others) = without_version-Stripped versioned d entry u1 a b c in
    let kept : (j : String) → str_eq "meta-info" j ≡ false → item j v ≡ item j u1 = λ j o.
      item-update_at_other "meta-info" [] j (assign "job-id" (str job_id)) u2 v o g
      ∙ default_meta_info-lem u1 u2 j o e in
    let same : (j : String)
        → item_at ("deployment" ∷ j ∷ []) v ≡ item_at ("deployment" ∷ j ∷ []) u1 =
      λ j. item_at-kept "deployment" (j ∷ []) u1 v (kept "deployment" refl) in
    let (m, m', _, set, put) =
      update_at-cons "meta-info" [] (assign "job-id" (str job_id)) u2 v g in
    (
      λ w q. none_left w (sym (same "version") ∙ q),
      (λ j o. same j ∙ rest j o, λ j o t. kept j t ∙ others j o),
      item_at-item "meta-info" ("job-id" ∷ []) v m' (item-assign_same "meta-info" m' u2 v put)
          ∙ item_at-item "job-id" [] m' (str job_id)
              (item-assign_same "job-id" (str job_id) m m' set),
    )
