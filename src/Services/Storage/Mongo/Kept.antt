-- ===== src/Services/Storage/Mongo/Kept.antt =====
-- What the state updates keep, and what a bulk update leaves behind.
use cluster_deployer.Common.{
  ℕ, String, ◌≡◌, refl, Bool, true, false, Option, some, List, [], ◌∷◌, map, str_eq, if◌then◌else◌,
  All, arith, Bool-cases, inl, inr,
}
use cluster_deployer.Conf.{state_promoted}
use cluster_deployer.Value.{str, date, Fields}
use cluster_deployer.Services.Storage.Collection.{MongoDb, text_is, change_first}
use cluster_deployer.Services.Storage.Mongo.{
  state_update, MongoStore, update_state, update_state_bulk, datetime_max, by_id, bulk_filter,
}
use cluster_deployer.Services.Storage.Mongo.View.{
  Entry, is_selected, enter, IsDeployment, at-set_all_apart,
}
use cluster_deployer.Services.Storage.Mongo.States.{
  has_id, entries_of, AreDeployments, update_state_bulk_exact, update_state_exact,
}

-- A promoted deployment does not expire.
abbrev pub IsKept : Entry → Type 0
IsKept e =
    text_is (λ t. str_eq t state_promoted) e.state ≡ true → e.expiry ≡ some (date datetime_max)

enter-IsKept : (state : String) (t : ℕ) (e : Entry) → IsKept (enter state t e)
enter-IsKept state t e h = rw h

module _ {A : Type 0} (P : A → Type 0) (p : A → Bool) (g : A → A) where
  pub All-map_if :
      (xs : List A)
      → ((x : A) → P x → p x ≡ true → P (g x))
      → All P xs
      → All P (map (λ x. if p x then g x else x) xs)
  All-map_if [] k h = tt
  All-map_if (x ∷ xs) k (h, hs) = elim (Bool-cases (p x)) [
    | inl e ↦ rw e (k x h e, All-map_if xs k hs)
    | inr e ↦ rw e (h, All-map_if xs k hs)
  ]

  pub All-change_first :
      (xs : List A)
      → ((x : A) → P x → p x ≡ true → P (g x))
      → All P xs
      → All P (change_first p g xs)
  All-change_first [] k h = tt
  All-change_first (x ∷ xs) k (h, hs) = elim (Bool-cases (p x)) [
    | inl e ↦ rw e (k x h e, hs)
    | inr e ↦ rw e (h, All-change_first xs k hs)
  ]

module _ (m : MongoDb) where
  open m use {docs, at, set}

  set-IsDeployment :
      (state : String) (now : ℕ → ℕ) (d : Fields)
      → IsDeployment m d
      → IsDeployment m (set (state_update state now) d)
  set-IsDeployment state now d h =
      let u = state_update state now in
      record {
        plain_id = rw (at-set_all_apart m "id" u d refl) h.plain_id;
        plain_cluster = rw (at-set_all_apart m "cluster" u d refl) h.plain_cluster;
        plain_name = rw (at-set_all_apart m "deployment.name" u d refl) h.plain_name;
        plain_version = rw (at-set_all_apart m "deployment.version" u d refl) h.plain_version;
        plain_state = rw (m.at-set_self "state" (str state) _ d refl) tt;
      }

  pub update_state-AreDeployments :
      (now : ℕ → ℕ) (id state : String) (s : MongoStore m)
      → AreDeployments m s
      → AreDeployments m (update_state m now id state s)
  unfolding update_state
  update_state-AreDeployments now id state s h =
      rw (m.docs-update_one (by_id id) (state_update state now) s.deployments) (
        All-change_first (IsDeployment m) (m.matches (by_id id)) (set (state_update state now))
          (docs s.deployments) (λ d k e. set-IsDeployment state now d k) h)

  pub update_state_bulk-AreDeployments :
      (cluster : String) (now : ℕ → ℕ) (name state : String) (existing version : Option String)
      (s : MongoStore m)
      → AreDeployments m s
      → AreDeployments m (update_state_bulk m cluster now name state existing version s)
  unfolding update_state_bulk
  update_state_bulk-AreDeployments cluster now name state existing version s h =
      rw
        (m.docs-update_many (bulk_filter cluster name existing version) (state_update state now)
          s.deployments)
        (All-map_if (IsDeployment m) (m.matches (bulk_filter cluster name existing version))
          (set (state_update state now)) (docs s.deployments)
          (λ d k e. set-IsDeployment state now d k) h)

  -- If no promoted deployment expires, none does after a state update, of one deployment or of many,
  -- whatever the new state is. The store has no array in the fields that filters test.
  pub updates-IsKept :
      (cluster : String) (now : ℕ → ℕ) (id name state : String) (existing version : Option String)
      (s : MongoStore m)
      → AreDeployments m s
      → All IsKept (entries_of m s)
      → All IsKept (entries_of m (update_state m now id state s))
        × All IsKept (entries_of m (update_state_bulk m cluster now name state existing version s))
  updates-IsKept cluster now id name state existing version s plain h = (
    rw (update_state_exact m now id state s plain) (
        All-change_first IsKept (has_id id) (enter state (now 2)) (entries_of m s)
          (λ e k t. enter-IsKept state (now 2) e) h),
    rw (update_state_bulk_exact m cluster now name state existing version s plain) (
        All-map_if IsKept (is_selected cluster name existing version) (enter state (now 2))
          (entries_of m s) (λ e k t. enter-IsKept state (now 2) e) h),
  )

-- whether the entry is of a promoted deployment of the application
abbrev pub is_promoted_app : String → String → Option String → Entry → Bool
is_promoted_app cluster name version = is_selected cluster name (some state_promoted) version

entered_is_not_promoted :
    (cluster name state : String) (version : Option String) (t : ℕ) (e : Entry)
    → str_eq state state_promoted ≡ false
    → is_promoted_app cluster name version (enter state t e) ≡ false
entered_is_not_promoted cluster name state version t e h = rw h (ground arith)

none_left :
    (cluster name state : String) (version : Option String) (t : ℕ) (es : List Entry)
    → str_eq state state_promoted ≡ false
    → All
        (λ e. is_promoted_app cluster name version e ≡ false)
        (map (λ e. if is_promoted_app cluster name version e then enter state t e else e) es)
none_left cluster name state version t [] h = tt
none_left cluster name state version t (e ∷ es) h =
    elim (Bool-cases (is_promoted_app cluster name version e)) [
      | inl q ↦ rw q (
        entered_is_not_promoted cluster name state version t e h,
        none_left cluster name state version t es h,
      )
      | inr q ↦ rw q (q, none_left cluster name state version t es h)
    ]

module _ (m : MongoDb) where
  -- After the promoted deployments of an application are moved to a state other than `PROMOTED`,
  -- none of its deployments, of the version if one is given, is promoted. The store has no array in
  -- the fields that filters test.
  pub update_state_bulk_clears :
      (cluster : String) (now : ℕ → ℕ) (name new_state : String) (version : Option String)
      (s : MongoStore m)
      → AreDeployments m s
      → str_eq new_state state_promoted ≡ false
      → All
          (λ e. is_promoted_app cluster name version e ≡ false)
          (entries_of m
            (update_state_bulk m cluster now name new_state (some state_promoted) version s))
  update_state_bulk_clears cluster now name new_state version s plain h =
      rw
        (update_state_bulk_exact m cluster now name new_state (some state_promoted) version s plain)
        (none_left cluster name new_state version (now 2) (entries_of m s) h)
