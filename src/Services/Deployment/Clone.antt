-- ===== src/Services/Deployment/Clone.antt =====
-- `clone_deployment` of deployer/services/deployment.py, and `create_search_parameters` of
-- deployer/tasks/deployment.py. The job id that `uuid.uuid4()` draws is an argument.
pub mod Laws
use cluster_deployer.Common.{String, Bool, false, none, some, [], ◌∷◌, if◌then◌else◌}
use cluster_deployer.Common.Result.{ok, ◌>>=◌}
use cluster_deployer.Conf.Defaults.{empty, one}
use cluster_deployer.Util.Merge.{dict_merge}
use cluster_deployer.Value.{Value, null, str, obj, Fields, end, field, get_field, set_field, truthy}
use cluster_deployer.Value.Access.{
  Access, item, item_at, get, items, assign, update_at, remove_field,
}

-- `del(deployment_upd['deployment']['version'])`
abbrev pub drop_version : Value → Access Value
drop_version v = items v >>= λ d. ok (obj (remove_field "version" d))

-- the condition of the `if`, for the entry `deployment` of the dict
abbrev pub has_version : Value → Access Bool
has_version deployment =
    if truthy deployment
    then (get "version" null deployment >>= λ version. ok (truthy version))
    else ok false

-- `setdefault('meta-info', {})`
abbrev pub default_meta_info : Value → Access Value
default_meta_info v = items v >>= λ d.
    ok (obj (elim (get_field "meta-info" d) [ none ↦ set_field "meta-info" empty d | some _ ↦ d ]))

-- what the condition of the `if` looks at, `deployment_upd.get('deployment')`
abbrev pub deployment_entry : Value → Access Value
deployment_entry v = if truthy v then get "deployment" null v else ok null

-- the `if`
abbrev pub without_version : (versioned : Bool) → Value → Access Value
without_version versioned v =
    if versioned then update_at ("deployment" ∷ []) drop_version v else ok v

-- `clone_deployment`
unfoldable pub clone_deployment : (job_id : String) → Value → Access Value
unfolding get items item assign update_at truthy remove_field
clone_deployment job_id deployment = do
  of_deployment ← deployment_entry deployment
  versioned ← has_version of_deployment
  unversioned ← without_version versioned deployment
  with_meta ← default_meta_info unversioned
  update_at ("meta-info" ∷ []) (assign "job-id" (str job_id)) with_meta

-- `create_search_parameters`
unfoldable pub create_search_parameters :
    (cluster_name : String) → (deployment defaults : Value) → Access Fields
unfolding item item_at dict_merge
create_search_parameters cluster_name deployment defaults = do
  let merged = dict_merge (
      deployment
      ∷ defaults
      ∷ obj (
          field "meta-info" empty (
            field "deployment" (obj (field "name" (str "") (field "version" (str "") end)))
              (field "id" (str "") end)))
      ∷ [])
  meta_info ← item "meta-info" merged
  name ← item_at ("deployment" ∷ "name" ∷ []) merged
  version ← item_at ("deployment" ∷ "version" ∷ []) merged
  id ← item "id" merged
  ok (
      field "meta-info"
        (dict_merge (one "deployer" (one "cluster" (str cluster_name)) ∷ meta_info ∷ []))
        (field "deployment" (obj (field "name" name (field "version" version (field "id" id end))))
          end))
