-- ===== src/Tasks/Results/Reached.antt =====
-- What the results that a wait reaches may be: done, pending, or failed.
use cluster_deployer.Common.{◌≡◌, ◌⊎◌}
use cluster_deployer.Tasks.Results.{
  TaskExecution, task_execution, Failure, execution, chord_error, other_error, TaskResult, plain,
  many, group_result, async_result, Status, pending, started_or_retry, success, failure,
  TaskResults, no_results, also,
}
use cluster_deployer.Value.{Value}

-- A task that has failed with `ChordError` is passed over; no other failure is.
abbrev pub IsPassedOver : Status → Type 0
IsPassedOver (failure (chord_error c) traceback) = Unit
IsPassedOver (failure _ traceback) = ⊥
IsPassedOver _ = Unit

abbrev mutual
  -- Every task that is reached is done, and none has failed but with `ChordError`.
  pub HasSucceeded : TaskResult → Type 0
  HasSucceeded (plain v) = Unit
  HasSucceeded (many rs) = HaveSucceeded rs
  HasSucceeded (group_result rs) = HaveSucceeded rs
  HasSucceeded (async_result s parent) = IsDone s × IsUnbroken parent

  pub HaveSucceeded : TaskResults → Type 0
  HaveSucceeded no_results = Unit
  HaveSucceeded (also r rs) = HasSucceeded r × HaveSucceeded rs

  pub IsDone : Status → Type 0
  IsDone pending = ⊥
  IsDone started_or_retry = ⊥
  IsDone (success r) = HasSucceeded r
  IsDone (failure f traceback) = IsPassedOver (failure f traceback)

  -- none of the ancestors, up to the first that is a group, has failed but with `ChordError`
  pub IsUnbroken : TaskResult → Type 0
  IsUnbroken (async_result s parent) = IsPassedOver s × IsUnbroken parent
  IsUnbroken _ = Unit

abbrev mutual
  -- A task that is reached is not done.
  pub IsPending : TaskResult → Type 0
  IsPending (plain v) = ⊥
  IsPending (many rs) = ArePending rs
  IsPending (group_result rs) = ArePending rs
  IsPending (async_result pending parent) = Unit
  IsPending (async_result started_or_retry parent) = Unit
  IsPending (async_result (success r) parent) = IsPending r
  IsPending (async_result (failure f traceback) parent) = ⊥

  -- one of them
  pub ArePending : TaskResults → Type 0
  ArePending no_results = ⊥
  ArePending (also r rs) = IsPending r ⊎ ArePending rs

-- the exception that stands for a failure
abbrev pub RaisesFor : Failure → (traceback : Value) → TaskExecution → Type 0
RaisesFor (execution y) traceback x = x ≡ y
RaisesFor (chord_error c) traceback x = ⊥
RaisesFor (other_error c) traceback x = x ≡ task_execution c traceback

abbrev mutual
  -- The exception stands for the failure of a task that is reached, or of one of its ancestors.
  pub Raises : TaskExecution → TaskResult → Type 0
  Raises x (plain v) = ⊥
  Raises x (many rs) = SomeRaises x rs
  Raises x (group_result rs) = SomeRaises x rs
  Raises x (async_result s parent) = StatusRaises x s ⊎ Raises x parent

  pub SomeRaises : TaskExecution → TaskResults → Type 0
  SomeRaises x no_results = ⊥
  SomeRaises x (also r rs) = Raises x r ⊎ SomeRaises x rs

  pub StatusRaises : TaskExecution → Status → Type 0
  StatusRaises x pending = ⊥
  StatusRaises x started_or_retry = ⊥
  StatusRaises x (success r) = Raises x r
  StatusRaises x (failure f traceback) = RaisesFor f traceback x
