-- ===== src/Services/Storage/Memory/Tests.antt =====
-- The theorems of the store on two deployments of an application.
use cluster_deployer.Common.{
  ℕ, String, ◌≡◌, refl, false, none, some, List, [], ◌∷◌, map, if◌then◌else◌, All,
}
use cluster_deployer.Conf.{state_promoted, state_decommissioned}
use cluster_deployer.Value.{get_field}
use cluster_deployer.Services.Storage.Collection.{change_first}
use cluster_deployer.Services.Storage.Mongo.{MongoStore, update_state, update_state_bulk}
use cluster_deployer.Services.Storage.Mongo.Indexes.{Index, identity_idx, setup, Has, setup_settles}
use cluster_deployer.Services.Storage.Mongo.View.{enter, is_selected, IsDeployment}
use cluster_deployer.Services.Storage.Mongo.States.{
  has_id, entries_of, AreDeployments, update_state_bulk_exact, update_state_exact,
}
use cluster_deployer.Services.Storage.Mongo.Kept.{
  IsKept, is_promoted_app, updates-IsKept, update_state_bulk_clears,
}
use cluster_deployer.Services.Storage.Memory.{list_db, document, old_and_new}

abbrev pub store : MongoStore list_db
store = record { deployments = old_and_new; events = [] }

document-IsDeployment :
    (id name version state : String) → IsDeployment list_db (document id name version state)
unfolding get_field
document-IsDeployment id name version state = record {
  plain_id = tt;
  plain_cluster = tt;
  plain_name = tt;
  plain_version = tt;
  plain_state = tt;
}

pub store-AreDeployments : AreDeployments list_db store
store-AreDeployments = (
  document-IsDeployment "d1" "web" "v1" "PROMOTED",
  (document-IsDeployment "d2" "web" "v2" "STARTED", tt),
)

-- the store before anything is promoted
abbrev fresh : MongoStore list_db
fresh = record { deployments = document "d2" "web" "v2" "STARTED" ∷ []; events = [] }

fresh-AreDeployments : AreDeployments list_db fresh
fresh-AreDeployments = (document-IsDeployment "d2" "web" "v2" "STARTED", tt)

fresh-IsKept : All IsKept (entries_of list_db fresh)
unfolding get_field
fresh-IsKept = ((λ h. cc), tt)

abbrev clock : ℕ → ℕ
clock n = n

update_state_bulk_exact_example :
    entries_of list_db (
      update_state_bulk list_db "local" clock "web" state_decommissioned
        (some state_promoted)
        none
        store)
    ≡ map
        (λ e.
          if is_selected "local" "web" (some state_promoted) none e
          then enter state_decommissioned 2 e
          else e)
        (entries_of list_db store)
update_state_bulk_exact_example =
    update_state_bulk_exact list_db "local" clock "web" state_decommissioned (some state_promoted)
      none store store-AreDeployments

update_state_exact_example :
    entries_of list_db (update_state list_db clock "d2" state_promoted store)
    ≡ change_first (has_id "d2") (enter state_promoted 2) (entries_of list_db store)
update_state_exact_example =
    update_state_exact list_db clock "d2" state_promoted store store-AreDeployments

updates-IsKept_example :
    All IsKept (entries_of list_db (update_state list_db clock "d2" state_promoted fresh))
    × All IsKept (
        entries_of list_db
          (update_state_bulk list_db "local" clock "web" state_promoted none none fresh))
updates-IsKept_example =
    updates-IsKept list_db "local" clock "d2" "web" state_promoted none none fresh
      fresh-AreDeployments fresh-IsKept

update_state_bulk_clears_example :
    All
      (λ e. is_promoted_app "local" "web" none e ≡ false)
      (entries_of list_db (
        update_state_bulk list_db "local" clock "web" state_decommissioned
          (some state_promoted)
          none
          store))
update_state_bulk_clears_example =
    update_state_bulk_clears list_db "local" clock "web" state_decommissioned none store
      store-AreDeployments refl

-- a collection in which the unique index of the ids is there already
abbrev some_indexes : List Index
some_indexes = identity_idx ∷ []

setup_settles_example :
    let (ds, es) = setup 100 200 (some_indexes, []) in
    Has "created_idx" ds
    × Has "identity_idx" ds
    × Has "expiry_idx" ds
    × Has "app_idx" ds
    × Has "expiry_idx" es
    × (setup 300 400 (ds, es) ≡ (ds, es))
setup_settles_example = setup_settles 100 200 300 400 some_indexes []
