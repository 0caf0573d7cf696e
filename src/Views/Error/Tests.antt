-- ===== src/Views/Error/Tests.antt =====
-- A failed task behind each of the requests that wait.
use cluster_deployer.Common.{String, some}
use cluster_deployer.Services.TaskClient.{Looks, failed_with}
use cluster_deployer.Tasks.Results.{
  Cause, TaskExecution, task_execution, TaskResult, plain, async_result, failure, other_error,
}
use cluster_deployer.Value.{Value, null, str, field, end}
use cluster_deployer.Views.Error.{Request}
use cluster_deployer.Views.Error.Shown.{failure_response}
use cluster_deployer.Views.Response.{Response}

abbrev request : Request
request = record { path = "/apps"; url = "http://deployer/apps"; method = "POST" }

abbrev cause : Cause
cause = record { dict = some (field "code" (str "NODE_CHECK_FAILED") end); text = "no answer" }

abbrev failed_task : TaskResult
failed_task = async_result (failure (other_error cause) (str "trace")) (plain null)

abbrev look : Looks
look = record { first = failed_task; loop = failed_with (other_error cause) }

abbrev text_of : TaskResult → String
text_of r = "result"

abbrev url_of_task : String → String
url_of_task id = id

abbrev url_of_versions : (name version : Value) → String
url_of_versions name version = "/apps"

abbrev error : TaskExecution
error = task_execution cause (str "trace")

abbrev answer : Response
answer = failure_response request null "no answer" "" text_of url_of_task url_of_versions error
