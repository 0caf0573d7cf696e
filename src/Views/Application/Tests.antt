-- ===== src/Views/Application/Tests.antt =====
-- A deletion whose task has failed with a `TaskExecutionException`.
use cluster_deployer.Common.{String, none}
use cluster_deployer.Conf.{mime_app_delete_v1, mime_app_version_delete_v1}
use cluster_deployer.Services.TaskClient.{find_error_task, Looks, failed_with}
use cluster_deployer.Tasks.Results.{
  Cause, TaskResult, plain, async_result, failure, execution, task_execution,
}
use cluster_deployer.Value.{Value, null}
use cluster_deployer.Views.Application.{delete_application, delete_version}
use cluster_deployer.Views.Application.Failures.{AnswersFor, deletions_answer}

abbrev cause : Cause
cause = record { dict = none; text = "no route to host" }

abbrev look : Looks
look = record {
  first = async_result (failure (execution (task_execution cause null)) null) (plain null);
  loop = failed_with (execution (task_execution cause null));
}

abbrev text_of : TaskResult → String
text_of r = "result"

abbrev url_of_task : String → String
url_of_task id = id

abbrev url_of_versions : (name version : Value) → String
url_of_versions name version = "/apps"

deletions_answer_example :
    AnswersFor mime_app_delete_v1
      (find_error_task look.first)
      look.loop
      (delete_application text_of url_of_task url_of_versions "web" mime_app_delete_v1 "id-1"
        look).1
    × AnswersFor mime_app_version_delete_v1
        (find_error_task look.first)
        look.loop
        (delete_version text_of url_of_task url_of_versions "web" "v1" mime_app_version_delete_v1
          "id-1" look).1
deletions_answer_example =
    deletions_answer text_of url_of_task url_of_versions "web" "v1" "id-1" look
