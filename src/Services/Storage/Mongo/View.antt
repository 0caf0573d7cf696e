-- ===== src/Services/Storage/Mongo/View.antt =====
-- What the store's operations do to the fields of a document that filters and updates name.
use cluster_deployer.Common.{
  ℕ, String, ◌≡◌, refl, ◌∙◌, Bool, true, ◌&&◌, Option, none, some, [], ◌∷◌, str_eq, if◌then◌else◌,
  Bool-cases, inl, inr,
}
use mathlib.Core.Bool.{and-true, and-eq-true_iff}
use cluster_deployer.Value.{Value, str, Fields}
use cluster_deployer.Services.Storage.Collection.{
  MongoDb, Filter, Update, IsPlain, text_is, all_apart,
}
use cluster_deployer.Services.Storage.Mongo.{
  state_update, generate_expiry, add_text, bulk_filter, by_id,
}

-- The fields that decide what the store does with a deployment.
pub record Entry : Type 0 where
  pub id : Option Value
  pub cluster : Option Value
  pub name : Option Value
  pub version : Option Value
  pub state : Option Value
  pub expiry : Option Value

-- an optional argument, where `None` and the empty text mean any value
abbrev pub accepts : Option String → Option Value → Bool
accepts none v = true
accepts (some s) v = if str_eq s "" then true else text_is (λ t. str_eq t s) v

-- The deployments of an application of the cluster, of one version and one state if these are given.
abbrev pub is_selected : String → String → Option String → Option String → Entry → Bool
is_selected cluster_name name existing_state version e =
    text_is (λ t. str_eq t cluster_name) e.cluster
    && (text_is (λ t. str_eq t name) e.name
        && (accepts existing_state e.state && accepts version e.version))

-- An entry in a new state, which expires only if it is not promoted.
abbrev pub enter : String → ℕ → Entry → Entry
enter state t e = record e { state = some (str state); expiry = some (generate_expiry state t) }

module _ (m : MongoDb) where
  open m use {Coll, docs, at, matches, set}

  abbrev pub view : Fields → Entry
  view d = record {
    id = at "id" d;
    cluster = at "cluster" d;
    name = at "deployment.name" d;
    version = at "deployment.version" d;
    state = at "state" d;
    expiry = at "_expiry" d;
  }

  -- None of the fields that filters test is an array.
  pub record IsDeployment (d : Fields) : Type 0 where
    pub plain_id : IsPlain (at "id" d)
    pub plain_cluster : IsPlain (at "cluster" d)
    pub plain_name : IsPlain (at "deployment.name" d)
    pub plain_version : IsPlain (at "deployment.version" d)
    pub plain_state : IsPlain (at "state" d)

  pub matches-add_text :
      (k : String) (v : Option String) (f : Filter) (d : Fields)
      → IsPlain (at k d)
      → matches (add_text k v f) d ≡ (accepts v (at k d) && matches f d)
  matches-add_text k none f d p = refl
  matches-add_text k (some s) f d p = elim (Bool-cases (str_eq s "")) [
    | inl e ↦ rw e
    | inr e ↦ rw e (m.matches-is k s f d p)
  ]

  pub matches-bulk_filter :
      (cluster name : String) (state version : Option String) (d : Fields)
      → IsDeployment d
      → matches (bulk_filter cluster name state version) d
        ≡ is_selected cluster name state version (view d)
  matches-bulk_filter cluster name state version d p =
      rw
        (
          m.matches-is "cluster" cluster _ d p.plain_cluster,
          m.matches-is "deployment.name" name _ d p.plain_name,
          matches-add_text "state" state (add_text "deployment.version" version []) d p.plain_state,
          matches-add_text "deployment.version" version [] d p.plain_version,
          m.matches-nil d,
        )
        (rw and-true)

  pub matches-by_id :
      (id : String) (d : Fields)
      → IsDeployment d
      → matches (by_id id) d ≡ text_is (λ t. str_eq t id) (at "id" d)
  matches-by_id id d p = rw (m.matches-is "id" id [] d p.plain_id, m.matches-nil d) (rw and-true)

  -- An update leaves alone what is apart from its fields.
  pub at-set_all_apart :
      (k : String) (u : Update) (d : Fields) → all_apart k u ≡ true → at k (set u d) ≡ at k d
  at-set_all_apart k [] d h = rw (m.set-nil d)
  at-set_all_apart k ((j, v) ∷ u) d h =
      let (here, later) = (and-eq-true_iff _ _).0 h in
      m.at-set_apart k j v u d here ∙ at-set_all_apart k u d later

  pub view-state_update :
      (state : String) (now : ℕ → ℕ) (d : Fields)
      → view (set (state_update state now) d) ≡ enter state (now 2) (view d)
  view-state_update state now d =
      let u = state_update state now in
      let expiry : Value = generate_expiry state (now 2) in
      let id = at-set_all_apart "id" u d refl in
      let cluster = at-set_all_apart "cluster" u d refl in
      let name = at-set_all_apart "deployment.name" u d refl in
      let version = at-set_all_apart "deployment.version" u d refl in
      let new_state = m.at-set_self "state" (str state) _ d refl in
      let new_expiry : at "_expiry" (set u d) ≡ some expiry =
        m.at-set_apart "_expiry" "state" _ _ d refl
        ∙ m.at-set_apart "_expiry" "modified" _ _ d refl
        ∙ m.at-set_apart "_expiry" "state-updated" _ _ d refl
        ∙ m.at-set_self "_expiry" expiry _ d refl in
      λ i. record {
        id = id i;
        cluster = cluster i;
        name = name i;
        version = version i;
        state = new_state i;
        expiry = new_expiry i;
      }
