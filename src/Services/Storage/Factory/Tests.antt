-- ===== src/Services/Storage/Factory/Tests.antt =====
-- The factory with modules that log their set-ups: the store of MongoDB, and no other.
use cluster_deployer.Common.{String, ◌≡◌, refl, none, List, [], ◌∷◌}
use cluster_deployer.Common.Result.{ok}
use cluster_deployer.Services.Storage.Factory.{Modules, Stores, register, get, get_each}
use cluster_deployer.Services.Storage.Factory.Cached.{get_again}

abbrev modules : Modules (List String) String
modules = record {
  getenv = λ name. none;
  upper = λ name. name;
  create = λ module_name log. ok (module_name, log);
  set_up = λ store log. ok (store ∷ log);
}

abbrev empty : Stores (List String) String
empty = record { cache = []; outside = [] }

mongo_is_given : (get modules "mongo" empty).0 ≡ ok "deployer.services.storage.mongo"
unfolding get register
mongo_is_given = refl

get_again_example :
    let later = get_each modules ("other" ∷ "mongo" ∷ []) (get modules "mongo" empty).1 in
    get modules "mongo" later ≡ (ok "deployer.services.storage.mongo", later)
get_again_example =
    get_again modules "mongo" "deployer.services.storage.mongo" ("other" ∷ "mongo" ∷ []) empty
      mongo_is_given
