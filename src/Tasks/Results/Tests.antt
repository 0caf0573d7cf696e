-- ===== src/Tasks/Results/Tests.antt =====
-- A wait for a task that has returned, in a list, and one that has failed.
use cluster_deployer.Common.{none}
use cluster_deployer.Tasks.Results.{
  Cause, TaskResult, plain, many, async_result, success, failure, other_error, no_results, also,
  async_wait_task,
}
use cluster_deployer.Tasks.Results.Waiting.{EndsFor, async_wait_exact}
use cluster_deployer.Value.{null, num}

abbrev cause : Cause
cause = record { dict = none; text = "no route to host" }

abbrev results : TaskResult
results = many (
    also (async_result (success (plain (num 1))) (plain null))
      (also (async_result (failure (other_error cause) null) (plain null)) no_results))

async_wait_exact_example : EndsFor 10 60 results (async_wait_task 10 60 null results)
async_wait_exact_example = async_wait_exact 10 60 null results
