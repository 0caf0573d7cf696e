-- ===== src/Views/Error/Shown.antt =====
-- How the failure of a task reaches the client.
use cluster_deployer.Common.{String}
use cluster_deployer.Tasks.Results.{TaskExecution, TaskResult}
use cluster_deployer.Value.{Value}
use cluster_deployer.Views.Error.{Request, as_flask_error}
use cluster_deployer.Views.Response.{Response}

module _ (r : Request) (timestamp : Value) (text trace : String) (text_of : TaskResult → String)
    (url_of_task : String → String) (url_of_versions : (name version : Value) → String) where
  -- the response to an exception of a task
  abbrev pub failure_response : TaskExecution → Response
  failure_response x = as_flask_error r text x.message x.details x.traceback 500 x.code timestamp
