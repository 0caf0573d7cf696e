-- ===== src/Tasks/Results.antt =====
-- `check_or_raise_task_exception`, `_check_error` and `simple_result` of deployer/tasks/util.py,
-- `async_wait` of deployer/tasks/common.py, and `TaskExecutionException` of deployer/tasks/exceptions.py.
-- The results of Celery are what one look at them shows: a value, a list, a group, or the result of a
-- task with its status and its parent. A look fails in no other way, so the tries of `retry` are left out.
pub mod Reached
pub mod Waiting
pub mod Tests
use cluster_deployer.Common.{ℕ, String, Option, none, some, if◌then◌else◌}
use cluster_deployer.Common.Result.{Result, ok, err}
use cluster_deployer.Value.{Value, null, str, Fields, end, field, obj, get_field, truthy}
use cluster_deployer.Value.Access.{or_default}

-- an exception: what its `to_dict` gives, if it has one, and its text
pub record Cause : Type 0 where
  pub dict : Option Fields
  pub text : String

-- `TaskExecutionException`
pub record TaskExecution : Type 0 where
  pub message : Value
  pub code : Value
  pub details : Value
  pub traceback : Value

abbrev pub entries : Option Fields → Fields
entries none = end
entries (some d) = d

-- `TaskExecutionException.__init__`
unfoldable pub task_execution : Cause → (traceback : Value) → TaskExecution
unfolding get_field
task_execution cause traceback =
    let dict_repr = entries cause.dict in
    record {
      message = or_default (str cause.text) (get_field "message" dict_repr);
      code = or_default (str "INTERNAL") (get_field "code" dict_repr);
      details = or_default null (get_field "details" dict_repr);
      traceback = traceback;
    }

-- `TaskExecutionException.to_dict`
unfoldable pub execution_dict : TaskExecution → Value
execution_dict x = obj (
    field "message" x.message
      (field "code" x.code (field "details" x.details (field "traceback" x.traceback end))))

-- the exception that a task has failed with
pub data Failure : Type 0 where
  execution : TaskExecution → Failure
  chord_error : Cause → Failure
  other_error : Cause → Failure

mutual
  pub data TaskResult : Type 0 where
    plain : Value → TaskResult
    many : TaskResults → TaskResult
    group_result : TaskResults → TaskResult
    -- an `AsyncResult`; a task without a parent has the parent `None`
    async_result : Status → (parent : TaskResult) → TaskResult

  -- `pending` is the status `PENDING`; a task that is not done either is `STARTED` or in `RETRY`
  pub data Status : Type 0 where
    pending : Status
    started_or_retry : Status
    success : TaskResult → Status
    failure : Failure → (traceback : Value) → Status

  pub data TaskResults : Type 0 where
    no_results : TaskResults
    also : TaskResult → TaskResults → TaskResults

-- what is left where the tasks are done: values, lists, or an exception that was not raised
mutual
  pub data Output : Type 0 where
    output : Value → Output
    outputs : Outputs → Output
    exception : Failure → Output

  pub data Outputs : Type 0 where
    no_outputs : Outputs
    then_output : Output → Outputs → Outputs

abbrev pub or_else : {A : Type 0} → Option A → Option A → Option A
or_else none o = o
or_else (some a) o = some a

unfoldable mutual
  -- `check_or_raise_task_exception`: the exception that it raises
  pub check_or_raise : TaskResult → Option TaskExecution
  check_or_raise (group_result rs) = check_all rs
  check_or_raise (async_result (failure (execution x) traceback) parent) = some x
  check_or_raise (async_result (failure (chord_error c) traceback) parent) = check_or_raise parent
  check_or_raise (async_result (failure (other_error c) traceback) parent) =
      some (task_execution c traceback)
  check_or_raise _ = none

  pub check_all : TaskResults → Option TaskExecution
  check_all no_results = none
  check_all (also r rs) = or_else (check_or_raise r) (check_all rs)

-- `_check_error`
unfoldable pub check_error : TaskResult → Option TaskExecution
unfolding check_or_raise
check_error (async_result status parent) =
    or_else (check_or_raise (async_result status parent)) (check_error parent)
check_error _ = none

-- why a result cannot be read: `TaskNotReadyException`, or a `TaskExecutionException`
pub data Unread : Type 0 where
  not_ready : Unread
  raises : TaskExecution → Unread

-- after a check that may raise
abbrev pub unless_raised : {A : Type 0} → Option TaskExecution → Result Unread A → Result Unread A
unless_raised (some x) r = err (raises x)
unless_raised none r = r

abbrev pub as_list : Result Unread Outputs → Result Unread Output
as_list (ok os) = ok (outputs os)
as_list (err x) = err x

abbrev pub in_front : Result Unread Output → Result Unread Outputs → Result Unread Outputs
in_front (err x) r = err x
in_front (ok o) (err x) = err x
in_front (ok o) (ok os) = ok (then_output o os)

unfoldable mutual
  -- `simple_result`
  pub simple_result : TaskResult → Result Unread Output
  simple_result (plain v) = ok (output v)
  simple_result (many rs) = as_list (simple_results rs)
  simple_result (group_result rs) = as_list (simple_results rs)
  simple_result (async_result pending parent) =
      unless_raised (check_error (async_result pending parent)) (err not_ready)
  simple_result (async_result started_or_retry parent) =
      unless_raised (check_error (async_result started_or_retry parent)) (err not_ready)
  simple_result (async_result (success r) parent) =
      unless_raised (check_error (async_result (success r) parent))
        (unless_raised (check_or_raise (async_result (success r) parent)) (simple_result r))
  simple_result (async_result (failure f traceback) parent) =
      unless_raised (check_error (async_result (failure f traceback) parent)) (
        unless_raised (check_or_raise (async_result (failure f traceback) parent))
          (ok (exception f)))

  pub simple_results : TaskResults → Result Unread Outputs
  simple_results no_results = ok no_outputs
  simple_results (also r rs) = in_front (simple_result r) (simple_results rs)

-- how `async_wait` ends
pub data Waited : Type 0 where
  done : Output → Waited
  again : (countdown max_retries : ℕ) → Waited
  failed : TaskExecution → Waited

-- `ret_value or result`
abbrev pub or_output : (ret_value : Value) → Output → Output
or_output ret_value o = if truthy ret_value then output ret_value else o

abbrev pub waited :
    (default_retry_delay max_retries : ℕ) → (ret_value : Value) → Result Unread Output → Waited
waited default_retry_delay max_retries ret_value (ok o) = done (or_output ret_value o)
waited default_retry_delay max_retries ret_value (err not_ready) =
    again default_retry_delay max_retries
waited default_retry_delay max_retries ret_value (err (raises x)) = failed x

-- `async_wait`
unfoldable pub async_wait_task :
    (default_retry_delay max_retries : ℕ) → (ret_value : Value) → TaskResult → Waited
unfolding simple_result truthy
async_wait_task default_retry_delay max_retries ret_value r =
    waited default_retry_delay max_retries ret_value (simple_result r)
