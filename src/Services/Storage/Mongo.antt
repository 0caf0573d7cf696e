-- ===== src/Services/Storage/Mongo.antt =====
-- `MongoStore` of deployer/services/storage/mongo.py, with the parts of `AbstractStore` (base.py) that
-- it inherits. MongoDB is a parameter. `now` is the clock: `now i` is its i-th reading in the call.
pub mod Indexes
pub mod View
pub mod States
pub mod Kept
pub mod Stored
use cluster_deployer.Common.{
  ℕ, String, Bool, true, false, Option, none, some, List, [], ◌∷◌, ◌++◌, map, str_eq, if◌then◌else◌,
}
use cluster_deployer.Common.Result.{Result, ok, err, ◌>>=◌}
use cluster_deployer.Conf.{state_promoted, running_deployment_states}
use cluster_deployer.Value.{Value, null, str, date, obj, Fields, end, field, get_field, set_field}
use cluster_deployer.Util.Merge.{dict_merge}
use cluster_deployer.Services.Storage.Collection.{
  MongoDb, Filter, Update, is, is_in, not_in, first, mem,
}

-- `datetime.datetime.max`
abbrev pub datetime_max : ℕ
datetime_max = 315537897599999999

pub record KeyError : Type 0 where
  pub key : String

-- `d[key]`
abbrev pub get_item : String → Fields → Result KeyError Value
get_item k d = elim (get_field k d) [ none ↦ err (record { key = k }) | some v ↦ ok v ]

-- what `dict_merge` returns is a dict
abbrev pub entries : Value → Fields
entries (obj d) = d
entries _ = end

-- `AbstractStore.apply_modified_ts`
unfoldable pub apply_modified_ts : ℕ → Value → Fields
unfolding dict_merge
apply_modified_ts t deployment =
    entries (dict_merge (obj (field "modified" (date t) end) ∷ deployment ∷ []))

-- `_generate_expiry`
abbrev pub generate_expiry : String → ℕ → Value
generate_expiry state t = date (if str_eq state state_promoted then datetime_max else t)

-- The `$set` of both state updates; dicts are evaluated in the order in which they are written.
abbrev pub state_update : String → (ℕ → ℕ) → Update
state_update state now =
    ("state", str state)
    ∷ ("modified", date (now 0))
    ∷ ("state-updated", date (now 1))
    ∷ ("_expiry", generate_expiry state (now 2))
    ∷ ("runtime", obj end)
    ∷ []

-- `if value: u_filter[field] = value`
abbrev pub add_text : String → Option String → Filter → Filter
add_text k none f = f
add_text k (some v) f = if str_eq v "" then f else (k, is (str v)) ∷ f

abbrev pub by_id : String → Filter
by_id deployment_id = ("id", is (str deployment_id)) ∷ []

-- the filter of `update_state_bulk`
abbrev pub bulk_filter : String → String → Option String → Option String → Filter
bulk_filter cluster_name name existing_state version =
    ("cluster", is (str cluster_name))
    ∷ ("deployment.name", is (str name))
    ∷ add_text "state" existing_state (add_text "deployment.version" version [])

abbrev exclude_filter : List String → Filter → Filter
exclude_filter [] f = f
exclude_filter (n ∷ ns) f = ("deployment.name", not_in (n ∷ ns)) ∷ f

-- `if name: ... elif exclude_names: ...`
abbrev pub name_filter : Option String → List String → Filter → Filter
name_filter none exclude_names f = exclude_filter exclude_names f
name_filter (some name) exclude_names f =
    if str_eq name ""
    then exclude_filter exclude_names f
    else ("deployment.name", is (str name)) ∷ f

abbrev running_filter : Bool → Filter
running_filter true = ("state", is_in running_deployment_states) ∷ []
running_filter false = []

-- `if state: ... elif only_running: ...`
abbrev pub state_filter : Option String → Bool → Filter
state_filter none only_running = running_filter only_running
state_filter (some state) only_running =
    if str_eq state "" then running_filter only_running else ("state", is (str state)) ∷ []

-- the keyword arguments of `filter_deployments`
pub record Query : Type 0 where
  pub name : Option String
  pub version : Option String
  pub only_running : Bool
  pub only_ids : Bool
  pub state : Option String
  pub exclude_names : List String

-- `filter_deployments()` with the defaults
abbrev pub all_running : Query
all_running = record {
  name = none;
  version = none;
  only_running = true;
  only_ids = false;
  state = none;
  exclude_names = [];
}

abbrev pub query_filter : String → Query → Filter
query_filter cluster_name q =
    ("cluster", is (str cluster_name))
    ∷ name_filter q.name q.exclude_names
        (add_text "deployment.version" q.version (state_filter q.state q.only_running))

module _ (m : MongoDb) where
  open m use {Coll}

  pub record MongoStore : Type 0 where
    pub deployments : Coll
    pub events : Coll

  -- `create_deployment`
  unfoldable pub create_deployment : (ℕ → ℕ) → Value → MongoStore → Result KeyError MongoStore
  unfolding apply_modified_ts
  create_deployment now deployment s =
      let merged = apply_modified_ts (now 0) deployment in
      let upd =
        set_field "state-updated" (date (now 2)) (set_field "_expiry" (date (now 1)) merged) in
      get_item "id" upd >>= λ id. ok (record s {
        deployments =
            m.replace_one (("id", is id) ∷ []) (apply_modified_ts (now 3) (obj upd)) true
              s.deployments;
      })

  unfoldable pub update_state : (ℕ → ℕ) → String → String → MongoStore → MongoStore
  update_state now deployment_id state s = record s {
    deployments = m.update_one (by_id deployment_id) (state_update state now) s.deployments;
  }

  unfoldable pub get_deployment : String → MongoStore → Option Fields
  get_deployment deployment_id s =
      elim (first (λ d. true) (m.find (by_id deployment_id) s.deployments)) [
        | none ↦ none
        | some d ↦ some (m.exclude ("_id" ∷ "_expiry" ∷ []) d)
      ]

  unfoldable pub update_state_bulk :
      String → (ℕ → ℕ) → String → String → Option String → Option String → MongoStore → MongoStore
  update_state_bulk cluster_name now name new_state existing_state version s = record s {
    deployments =
        m.update_many (bulk_filter cluster_name name existing_state version)
          (state_update new_state now) s.deployments;
  }

  unfoldable pub filter_deployments : String → Query → MongoStore → List Fields
  filter_deployments cluster_name q s =
      map (if q.only_ids then m.project ("id" ∷ []) else m.exclude ("_id" ∷ []))
        (m.sort "deployment.version" (m.find (query_filter cluster_name q) s.deployments))

  unfoldable pub update_runtime_upstreams : (ℕ → ℕ) → String → Value → MongoStore → MongoStore
  update_runtime_upstreams now deployment_id upstreams s = record s {
    deployments =
        m.update_one (by_id deployment_id)
          (("runtime.proxy-upstreams", upstreams) ∷ ("modified", date (now 0)) ∷ []) s.deployments;
  }

  unfoldable pub update_runtime_units : (ℕ → ℕ) → String → Value → MongoStore → MongoStore
  update_runtime_units now deployment_id units s = record s {
    deployments =
        m.update_one (by_id deployment_id)
          (("runtime.units", units) ∷ ("modified", date (now 0)) ∷ []) s.deployments;
  }

  -- `AbstractStore.add_event`, and `_add_raw_event`
  unfoldable pub add_event : (ℕ → ℕ) → String → Value → Fields → MongoStore → MongoStore
  add_event now event_type details search_params s = record s {
    events =
        m.insert_one
          (set_field "component" (str "deployer") (
            set_field "date" (date (now 0))
              (set_field "details" details (set_field "type" (str event_type) search_params))))
          s.events;
  }
