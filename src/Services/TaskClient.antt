-- ===== src/Services/TaskClient.antt =====
-- `TaskClient` of deployer/services/task_client.py. The results of Celery are what one look at them
-- shows: `find_error_task` looks at the result first, after its wait if the client waits, and the loop of
-- `ready` then looks at each result of a result, after a wait of its own. A first wait that takes too long,
-- and the tries that `retry` makes after an `IOError`, are left out. `str` on what is not a text is a
-- parameter.
use cluster_deployer.Common.{
  String, Bool, true, false, not, ◌&&◌, ◌||◌, Option, none, some, if◌then◌else◌,
}
use cluster_deployer.Common.Result.{Result, ok, err}
use cluster_deployer.Tasks.Results.{
  TaskExecution, task_execution, execution_dict, Failure, execution, chord_error, other_error,
  TaskResult, plain, many, group_result, async_result, pending, started_or_retry, success, failure,
  TaskResults, no_results, also,
}
use cluster_deployer.Value.{Value, null, arr, obj, truthy}

unfoldable mutual
  -- `failed()`, of a task or of one of a group
  pub has_failed : TaskResult → Bool
  has_failed (group_result rs) = some_failed rs
  has_failed (async_result (failure f traceback) parent) = true
  has_failed _ = false

  pub some_failed : TaskResults → Bool
  some_failed no_results = false
  some_failed (also r rs) = has_failed r || some_failed rs

-- the loop over the parents; a group has none
unfoldable pub failed_parent : TaskResult → Option TaskResult
unfolding has_failed
failed_parent (async_result status parent) =
    let rest = failed_parent parent in
    if has_failed (async_result status parent) then some (async_result status parent) else rest
failed_parent (group_result rs) = if some_failed rs then some (group_result rs) else none
failed_parent _ = none

-- `find_error_task`
unfoldable pub find_error_task : TaskResult → Option TaskResult
unfolding failed_parent
find_error_task (async_result pending parent) = failed_parent parent
find_error_task (async_result started_or_retry parent) = none
find_error_task (async_result (success r) parent) = find_error_task r
find_error_task (async_result (failure f traceback) parent) =
    some (async_result (failure f traceback) parent)
find_error_task _ = none

-- the entry `output` of a reply: a result as it is, the dict of an exception, or a text
pub data Shown : Type 0 where
  kept : TaskResult → Shown
  dict : Value → Shown
  text : String → Shown

pub record Reply : Type 0 where
  pub status : String
  pub output : Shown

pub data ReadyError : Type 0 where
  task_raised : TaskExecution → ReadyError
  -- `AttributeError`, for the `result` of a group
  no_attribute : ReadyError
  -- what `get` of the loop raises: the exception of the task, or its own `TimeoutError`
  get_raised : Failure → ReadyError
  timed_out : ReadyError

-- What the loop of `ready` sees of the results of results, one after the other: a task that is done, with its
-- result next, one that has failed, one that is not done (in the time of the wait, if the client waits), or
-- what is no result of a task.
pub data Seen : Type 0 where
  value : TaskResult → Seen
  done_with : Seen → Seen
  failed_with : Failure → Seen
  not_ready : Seen

-- the look of `find_error_task`, when its wait for the task has ended in time, and those of the loop
pub record Looks : Type 0 where
  pub first : TaskResult
  pub loop : Seen

abbrev pub is_true : TaskResult → Bool
is_true (plain v) = truthy v
is_true (many no_results) = false
is_true (group_result no_results) = false
is_true _ = true

abbrev pub is_dict_or_list : TaskResult → Bool
is_dict_or_list (plain (obj d)) = true
is_dict_or_list (plain (arr xs)) = true
is_dict_or_list (many rs) = true
is_dict_or_list _ = false

abbrev pub failure_reply : TaskExecution → Reply
failure_reply x = record { status = "FAILURE"; output = dict (execution_dict x) }

-- An exception that is no `TaskExecutionException` is made one; only such a one is raised.
abbrev pub wrapped_reply : (raise_error : Bool) → TaskExecution → Result ReadyError Reply
wrapped_reply raise_error x = if raise_error then err (task_raised x) else ok (failure_reply x)

-- the branch `if error_task`
unfoldable pub error_reply : (raise_error : Bool) → TaskResult → Result ReadyError Reply
unfolding execution_dict task_execution
error_reply raise_error (async_result (failure (execution x) traceback) parent) =
    ok (failure_reply x)
error_reply raise_error (async_result (failure (chord_error c) traceback) parent) =
    wrapped_reply raise_error (task_execution c traceback)
error_reply raise_error (async_result (failure (other_error c) traceback) parent) =
    wrapped_reply raise_error (task_execution c traceback)
error_reply raise_error _ = err no_attribute

module _ (text_of : TaskResult → String) where
  abbrev pub show_result : TaskResult → Shown
  show_result r = if is_true r && not (is_dict_or_list r) then text (text_of r) else kept r

  -- an exception that is the result of a task and has not been found as an error
  abbrev pub show_failure : Failure → Shown
  show_failure (execution x) = dict (execution_dict x)
  show_failure (chord_error c) = elim c.dict [ none ↦ text c.text | some d ↦ dict (obj d) ]
  show_failure (other_error c) = elim c.dict [ none ↦ text c.text | some d ↦ dict (obj d) ]

  -- the branch without an error: the loop through the results of results. With `wait` each `get` waits,
  -- and raises the failure if it is to raise errors; then what is not done in time ends it too.
  unfoldable pub result_reply : (wait raise_error : Bool) → Seen → Result ReadyError Reply
  unfolding truthy execution_dict
  result_reply wait raise_error (value r) = ok (record { status = "READY"; output = show_result r })
  result_reply wait raise_error (done_with s) = result_reply wait raise_error s
  result_reply wait raise_error (failed_with f) =
      if wait && raise_error
      then err (get_raised f)
      else ok (record { status = "READY"; output = show_failure f })
  result_reply wait raise_error not_ready =
      if wait then err timed_out else ok (record { status = "PENDING"; output = kept (plain null) })

  -- `ready`
  unfoldable pub ready : (wait raise_error : Bool) → Looks → Result ReadyError Reply
  unfolding find_error_task error_reply result_reply
  ready wait raise_error looks = elim (find_error_task looks.first) [
    | none ↦ result_reply wait raise_error looks.loop
    | some t ↦ error_reply raise_error t
  ]
