-- ===== src/Services/Storage/Mongo/Indexes.antt =====
-- `MongoStore.setup` of deployer/services/storage/mongo.py: the indexes of the two collections. The seconds
-- after which deployments and events expire are arguments.
use cluster_deployer.Common.{
  ℕ, String, ◌≡◌, refl, Bool, true, false, ◌||◌, inl, inr, Option, none, some, List, [], ◌∷◌, ◌++◌,
  str_eq, eq_refl, if◌then◌else◌, Bool-cases,
}

pub data Direction : Type 0 where
  ascending : Direction
  descending : Direction

-- an index; whether it is built in the background is left out
pub record Index : Type 0 where
  pub keys : List (String × Direction)
  pub name : String
  pub unique : Bool
  pub expire_after : Option ℕ

-- `name in idxs`
abbrev pub has_index : String → List Index → Bool
has_index name [] = false
has_index name (i ∷ rest) = str_eq i.name name || has_index name rest

abbrev pub created_idx : Index
created_idx = record {
  keys = ("cluster", ascending) ∷ ("date", descending) ∷ [];
  name = "created_idx";
  unique = false;
  expire_after = none;
}

abbrev pub identity_idx : Index
identity_idx = record {
  keys = ("id", ascending) ∷ [];
  name = "identity_idx";
  unique = true;
  expire_after = none;
}

abbrev pub expiry_idx : (seconds : ℕ) → Index
expiry_idx seconds = record {
  keys = ("_expiry", descending) ∷ [];
  name = "expiry_idx";
  unique = false;
  expire_after = some seconds;
}

abbrev pub app_idx : Index
app_idx = record {
  keys =
      ("cluster", ascending)
      ∷ ("deployment.name", ascending)
      ∷ ("deployment.version", ascending)
      ∷ [];
  name = "app_idx";
  unique = false;
  expire_after = none;
}

-- `if ... not in idxs: create_index(...)`; `idxs` was read before
abbrev pub create_missing : (idxs : List Index) → Index → List Index → List Index
create_missing idxs i current = if has_index i.name idxs then current else current ++ i ∷ []

-- `setup`: the indexes of the deployments and of the events
unfoldable pub setup :
    (deployment_expiry event_expiry : ℕ) → List Index × List Index → List Index × List Index
setup deployment_expiry event_expiry (idxs, event_idxs) = (
  create_missing idxs app_idx (
      create_missing idxs (expiry_idx deployment_expiry)
        (create_missing idxs identity_idx (create_missing idxs created_idx idxs))),
  create_missing event_idxs (expiry_idx event_expiry) event_idxs,
)

abbrev pub Has : String → List Index → Type 0
Has name l = has_index name l ≡ true

Has-front : (name : String) (l m : List Index) → Has name l → Has name (l ++ m)
Has-front name [] m h = cc h
Has-front name (i ∷ l) m h = elim (Bool-cases (str_eq i.name name)) [
  | inl q ↦ rw q refl
  | inr q ↦ rw q (Has-front name l m (rw q at h))
]

Has-last : (l : List Index) (i : Index) → Has i.name (l ++ i ∷ [])
Has-last [] i = rw (eq_refl i.name) refl
Has-last (j ∷ l) i = elim (Bool-cases (str_eq j.name i.name)) [
  | inl q ↦ rw q refl
  | inr q ↦ rw q (Has-last l i)
]

create_missing-Has :
    (name : String) (idxs : List Index) (i : Index) (current : List Index)
    → Has name current
    → Has name (create_missing idxs i current)
create_missing-Has name idxs i current h = elim (Bool-cases (has_index i.name idxs)) [
  | inl q ↦ rw q h
  | inr q ↦ rw q (Has-front name current (i ∷ []) h)
]

created-Has :
    (idxs : List Index) (i : Index) (current : List Index)
    → (Has i.name idxs → Has i.name current)
    → Has i.name (create_missing idxs i current)
created-Has idxs i current h = elim (Bool-cases (has_index i.name idxs)) [
  | inl q ↦ rw q (h q)
  | inr q ↦ rw q (Has-last current i)
]

kept_lem :
    (idxs : List Index) (i : Index) (current : List Index)
    → Has i.name idxs
    → create_missing idxs i current ≡ current
kept_lem idxs i current h = rw h refl

-- After a set-up both collections have the indexes that the queries and the expiry rely on, by their names,
-- and a second set-up creates nothing more, with any times of expiry.
pub setup_settles :
    (n m k l : ℕ) (idxs event_idxs : List Index)
    → let (ds, es) = setup n m (idxs, event_idxs) in
      Has "created_idx" ds
      × Has "identity_idx" ds
      × Has "expiry_idx" ds
      × Has "app_idx" ds
      × Has "expiry_idx" es
      × (setup k l (ds, es) ≡ (ds, es))
unfolding setup
setup_settles n m k l idxs event_idxs =
    let l1 = create_missing idxs created_idx idxs in
    let l2 = create_missing idxs identity_idx l1 in
    let l3 = create_missing idxs (expiry_idx n) l2 in
    let l4 = create_missing idxs app_idx l3 in
    let es = create_missing event_idxs (expiry_idx m) event_idxs in
    let keep = λ (name : String) (h : Has name idxs).
      create_missing-Has name idxs (expiry_idx n) l2 (
        create_missing-Has name idxs identity_idx l1
          (create_missing-Has name idxs created_idx idxs h)) in
    let a : Has "created_idx" l4 = create_missing-Has "created_idx" idxs app_idx l3 (
      create_missing-Has "created_idx" idxs (expiry_idx n) l2 (
        create_missing-Has "created_idx" idxs identity_idx l1
          (created-Has idxs created_idx idxs (λ h. h)))) in
    let b : Has "identity_idx" l4 = create_missing-Has "identity_idx" idxs app_idx l3 (
      create_missing-Has "identity_idx" idxs (expiry_idx n) l2 (
        created-Has idxs identity_idx l1
          (create_missing-Has "identity_idx" idxs created_idx idxs))) in
    let c : Has "expiry_idx" l4 = create_missing-Has "expiry_idx" idxs app_idx l3 (
      created-Has idxs (expiry_idx n) l2 (λ h.
        create_missing-Has "expiry_idx" idxs identity_idx l1
          (create_missing-Has "expiry_idx" idxs created_idx idxs h))) in
    let d : Has "app_idx" l4 = created-Has idxs app_idx l3 (keep "app_idx") in
    let f : Has "expiry_idx" es = created-Has event_idxs (expiry_idx m) event_idxs (λ h. h) in
    (
      a,
      b,
      c,
      d,
      f,
      rw
          (
            kept_lem l4 created_idx l4 a,
            kept_lem l4 identity_idx l4 b,
            kept_lem l4 (expiry_idx k) l4 c,
            kept_lem l4 app_idx l4 d,
            kept_lem es (expiry_idx l) es f,
          )
          refl,
    )
