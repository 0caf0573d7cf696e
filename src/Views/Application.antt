-- ===== src/Views/Application.antt =====
-- The handlers of deployer/views/application.py. The negotiation of the media types, the check of a
-- request against its schema and the routes are those of Flask and its extensions; a handler gets the
-- accepted type. What a handler sends to Celery is part of its answer; `task_id` is the id that Celery
-- gives the task, and `look` what the client sees of its result.
pub mod Failures
pub mod Tests
use cluster_deployer.Common.{
  ℕ, String, Bool, true, false, Option, none, some, List, [], ◌∷◌, str_eq, if◌then◌else◌,
}
use cluster_deployer.Common.Result.{Result, ok, err, ◌>>=◌}
use cluster_deployer.Conf.{
  mime_app_version_v1, mime_app_delete_v1, mime_app_version_delete_v1,
  mime_app_version_unit_list_v1,
}
use cluster_deployer.Services.Storage.Mongo.{MongoStore, Query, filter_deployments}
use cluster_deployer.Services.Storage.Collection.{MongoDb}
use cluster_deployer.Services.TaskClient.{
  ReadyError, Reply, Shown, kept, dict, text, is_true, ready, Looks,
}
use cluster_deployer.Tasks.Results.{TaskResult, plain, many, no_results}
use cluster_deployer.Value.{Value, Fields, str}
use cluster_deployer.Value.Access.{Access, AccessError, wrong_type, item_at}
use cluster_deployer.Views.Response.{
  Response, Body, shown, document, documents, build_response, created_task, created, deleted,
}

-- the task that a handler sends
pub data Job : Type 0 where
  create : (deployment : Value) → Job
  delete : (name : String) → (version : Option String) → Job
  list_units : (name version : String) → Job
  recover_cluster : (recovery_params : Value) → Job

-- what Flask makes an error response of
pub data ViewError : Type 0 where
  not_done : ReadyError → ViewError
  no_entry : AccessError → ViewError
  not_found : ViewError
  -- `ValueError` of `int`
  bad_number : ViewError

abbrev pub client : {A : Type 0} → Result ReadyError A → Result ViewError A
client (ok a) = ok a
client (err x) = err (not_done x)

abbrev pub entry : {A : Type 0} → Access A → Result ViewError A
entry (ok a) = ok a
entry (err x) = err (no_entry x)

-- the output of a reply, to look entries up
abbrev pub as_value : Shown → Access Value
as_value (kept (plain v)) = ok v
as_value (kept _) = err wrong_type
as_value (dict v) = ok v
as_value (text s) = ok (str s)

-- `result['output'] or []`
abbrev pub or_empty_list : Shown → Shown
or_empty_list (kept r) = if is_true r then kept r else kept (many no_results)
or_empty_list s = s

module _ (text_of : TaskResult → String) (url_of_task : String → String)
    (url_of_versions : (name version : Value) → String) where
  -- `ApplicationApi.post`
  unfoldable pub post_application :
      (request_data : Value)
      → (accept_mimetype task_id : String) → (look : Looks) → Job × Result ViewError Response
  unfolding ready item_at
  post_application request_data accept_mimetype task_id look = (
    create request_data,
    if str_eq accept_mimetype mime_app_version_v1
        then (do
          reply ← client (ready text_of true true look)
          deployment ← entry (as_value reply.output)
          name ← entry (item_at ("deployment" ∷ "name" ∷ []) deployment)
          version ← entry (item_at ("deployment" ∷ "version" ∷ []) deployment)
          ok (created (shown reply.output) (url_of_versions name version)))
        else ok (created_task url_of_task task_id),
  )

  -- the answer to a deletion: with the media type of a deletion it waits for the task
  abbrev pub answer_deletion :
      (waits_for accept_mimetype task_id : String) → (look : Looks) → Result ViewError Response
  answer_deletion waits_for accept_mimetype task_id look =
      if str_eq accept_mimetype waits_for
      then (client (ready text_of true true look) >>= λ _. ok (deleted accept_mimetype))
      else ok (created_task url_of_task task_id)

  -- `ApplicationApi.delete`
  unfoldable pub delete_application :
      (name accept_mimetype task_id : String) → (look : Looks) → Job × Result ViewError Response
  unfolding ready
  delete_application name accept_mimetype task_id look =
      (delete name none, answer_deletion mime_app_delete_v1 accept_mimetype task_id look)

  -- `VersionApi.delete`
  unfoldable pub delete_version :
      (name version accept_mimetype task_id : String)
      → (look : Looks) → Job × Result ViewError Response
  unfolding ready
  delete_version name version accept_mimetype task_id look = (
    delete name (some version),
    answer_deletion mime_app_version_delete_v1 accept_mimetype task_id look,
  )

  -- `UnitApi.get`
  unfoldable pub get_units :
      (name version accept_mimetype task_id : String)
      → (look : Looks) → Job × Result ViewError Response
  unfolding ready
  get_units name version accept_mimetype task_id look = (
    list_units name version,
    if str_eq accept_mimetype mime_app_version_unit_list_v1
        then (client (ready text_of true true look) >>= λ reply.
            ok (build_response (shown (or_empty_list reply.output))))
        else ok (created_task url_of_task task_id),
  )

  -- `RecoveryApi.post`
  abbrev pub post_recovery :
      (request_data : Value) → (task_id : String) → Job × Result ViewError Response
  post_recovery request_data task_id =
      (recover_cluster request_data, ok (created_task url_of_task task_id))

-- the query of `filter_deployments(name)` and `filter_deployments(name, version=version)`
abbrev pub versions_query : (name : String) → (version : Option String) → Query
versions_query name version = record {
  name = some name;
  version = version;
  only_running = true;
  only_ids = false;
  state = none;
  exclude_names = [];
}

abbrev pub first_or_not_found : List Fields → Result ViewError Response
first_or_not_found [] = err not_found
first_or_not_found (d ∷ ds) = ok (build_response (document d))

module _ (m : MongoDb) (cluster_name : String) where
  -- `VersionApi.list`; the page and the size that `use_paging` reads are not used
  unfoldable pub list_versions : (name : String) → MongoStore m → Response
  unfolding filter_deployments
  list_versions name store =
      build_response
        (documents (filter_deployments m cluster_name (versions_query name none) store))

  -- `VersionApi.find_one`
  unfoldable pub find_version : (name version : String) → MongoStore m → Result ViewError Response
  unfolding filter_deployments
  find_version name version store =
      first_or_not_found
        (filter_deployments m cluster_name (versions_query name (some version)) store)
