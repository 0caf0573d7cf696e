-- ===== src/Services/Storage/Mongo/States.antt =====
-- The state updates, on the entries that they change, and when a deployment expires.
use cluster_deployer.Common.{
  ℕ, String, ◌≡◌, refl, ◌∙◌, ap, Bool, Option, List, [], ◌∷◌, map, str_eq, if◌then◌else◌, All,
  arith,
}
use cluster_deployer.Services.Storage.Collection.{MongoDb, text_is, change_first}
use cluster_deployer.Services.Storage.Mongo.{
  state_update, by_id, bulk_filter, MongoStore, update_state, update_state_bulk,
}
use cluster_deployer.Services.Storage.Mongo.View.{
  Entry, is_selected, enter, view, IsDeployment, matches-bulk_filter, matches-by_id,
  view-state_update,
}

abbrev pub has_id : String → Entry → Bool
has_id id e = text_is (λ t. str_eq t id) e.id

-- A change of some documents, seen through `f`.
map-map_if :
    {A B : Type 0} (f : A → B) (p : A → Bool) (q : B → Bool) (g : A → A) (h : B → B) (xs : List A)
    → All (λ x. p x ≡ q (f x)) xs
    → ((x : A) → f (g x) ≡ h (f x))
    → map f (map (λ x. if p x then g x else x) xs) ≡ map (λ y. if q y then h y else y) (map f xs)
map-map_if f p q g h [] a c = refl
map-map_if f p q g h (x ∷ xs) (e, a) c = ground (arith, c x, map-map_if f p q g h xs a c)

map-change_first :
    {A B : Type 0} (f : A → B) (p : A → Bool) (q : B → Bool) (g : A → A) (h : B → B) (xs : List A)
    → All (λ x. p x ≡ q (f x)) xs
    → ((x : A) → f (g x) ≡ h (f x))
    → map f (change_first p g xs) ≡ change_first q h (map f xs)
map-change_first f p q g h [] a c = refl
map-change_first f p q g h (x ∷ xs) (e, a) c =
    ground (arith, c x, map-change_first f p q g h xs a c)

pub All-map {ℓ κ} :
    {A : Type 0} {P : A → Type ℓ} {Q : A → Type κ}
    → ((x : A) → P x → Q x)
    → (xs : List A) → All P xs
    → All Q xs
All-map f [] h = tt
All-map f (x ∷ xs) (p, h) = (f x p, All-map f xs h)

module _ (m : MongoDb) where
  open m use {docs}

  -- the entries of the deployments in the store
  abbrev pub entries_of : MongoStore m → List Entry
  entries_of s = map (view m) (docs s.deployments)

  abbrev pub AreDeployments : MongoStore m → Type 0
  AreDeployments s = All (IsDeployment m) (docs s.deployments)

  -- A bulk update moves exactly the selected deployments to the new state: those of the cluster with
  -- the name, and with the version and the state if these are given. It leaves all others. The store
  -- has no array in the fields that filters test.
  pub update_state_bulk_exact :
      (cluster : String) (now : ℕ → ℕ) (name new_state : String) (existing version : Option String)
      (s : MongoStore m)
      → AreDeployments s
      → entries_of (update_state_bulk m cluster now name new_state existing version s)
        ≡ map
            (λ e.
              if is_selected cluster name existing version e then enter new_state (now 2) e else e)
            (entries_of s)
  unfolding update_state_bulk
  update_state_bulk_exact cluster now name new_state existing version s plain =
      ap (map (view m)) (
        m.docs-update_many (bulk_filter cluster name existing version) (state_update new_state now)
          s.deployments)
      ∙ map-map_if (view m) (m.matches (bulk_filter cluster name existing version))
          (is_selected cluster name existing version) (m.set (state_update new_state now))
          (enter new_state (now 2)) (docs s.deployments)
          (All-map (matches-bulk_filter m cluster name existing version) (docs s.deployments) plain)
          (view-state_update m new_state now)

  -- An update by id moves the first deployment with that id, and no other, to the new state. The
  -- store has no array in the fields that filters test.
  pub update_state_exact :
      (now : ℕ → ℕ) (id state : String) (s : MongoStore m)
      → AreDeployments s
      → entries_of (update_state m now id state s)
        ≡ change_first (has_id id) (enter state (now 2)) (entries_of s)
  unfolding update_state
  update_state_exact now id state s plain =
      ap (map (view m)) (m.docs-update_one (by_id id) (state_update state now) s.deployments)
      ∙ map-change_first (view m) (m.matches (by_id id)) (has_id id)
          (m.set (state_update state now)) (enter state (now 2)) (docs s.deployments)
          (All-map (matches-by_id m id) (docs s.deployments) plain) (view-state_update m state now)
