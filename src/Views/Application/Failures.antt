-- ===== src/Views/Application/Failures.antt =====
-- The answer to a deletion whose task has failed.
use cluster_deployer.Common.{
  String, ◌≡◌, refl, subst, inl, inr, true, Option, none, some, Bool-cases, Option-cases,
}
use cluster_deployer.Common.Result.{Result, ok, err, ◌>>=◌}
use cluster_deployer.Conf.{mime_app_delete_v1, mime_app_version_delete_v1}
use cluster_deployer.Services.TaskClient.{
  has_failed, some_failed, failed_parent, find_error_task, task_raised, no_attribute, error_reply,
  ready, result_reply, get_raised, timed_out, Seen, value, done_with, failed_with, not_ready, Looks,
}
use cluster_deployer.Tasks.Results.{
  task_execution, execution, chord_error, other_error, TaskResult, plain, many, group_result,
  async_result, pending, started_or_retry, success, failure,
}
use cluster_deployer.Views.Application.{
  ViewError, not_done, client, delete_application, delete_version,
}
use cluster_deployer.Value.{Value}
use cluster_deployer.Views.Response.{Response, deleted}

-- What a deletion answers where no failed task is found at first, by what the waits of the loop show.
abbrev pub LoopAnswers : (mimetype : String) → Seen → Result ViewError Response → Type 0
LoopAnswers mimetype (value v) r = r ≡ ok (deleted mimetype)
LoopAnswers mimetype (done_with s) r = LoopAnswers mimetype s r
LoopAnswers mimetype (failed_with f) r = r ≡ err (not_done (get_raised f))
LoopAnswers mimetype not_ready r = r ≡ err (not_done timed_out)

-- What a deletion answers, by the failed task that is found at first.
abbrev pub AnswersFor :
    (mimetype : String) → Option TaskResult → Seen → Result ViewError Response → Type 0
AnswersFor mimetype none seen r = LoopAnswers mimetype seen r
AnswersFor mimetype (some (async_result (failure (execution x) traceback) parent)) seen r =
    r ≡ ok (deleted mimetype)
AnswersFor mimetype (some (async_result (failure (chord_error c) traceback) parent)) seen r =
    r ≡ err (not_done (task_raised (task_execution c traceback)))
AnswersFor mimetype (some (async_result (failure (other_error c) traceback) parent)) seen r =
    r ≡ err (not_done (task_raised (task_execution c traceback)))
AnswersFor mimetype (some t) seen r = (has_failed t ≡ true) × (r ≡ err (not_done no_attribute))

abbrev HasFailed : Option TaskResult → Type 0
HasFailed none = Unit
HasFailed (some t) = has_failed t ≡ true

failed_parent-HasFailed : (r : TaskResult) → HasFailed (failed_parent r)
unfolding failed_parent
failed_parent-HasFailed (async_result s parent) =
    elim (Bool-cases (has_failed (async_result s parent))) [
      | inl q ↦ rw q q
      | inr q ↦ rw q (failed_parent-HasFailed parent)
    ]
failed_parent-HasFailed (group_result rs) = elim (Bool-cases (some_failed rs)) [
  | inl q ↦ rw q q
  | inr q ↦ rw q tt
]
failed_parent-HasFailed (plain v) = tt
failed_parent-HasFailed (many rs) = tt

find_error_task-HasFailed : (r : TaskResult) → HasFailed (find_error_task r)
unfolding find_error_task
find_error_task-HasFailed (async_result pending parent) = failed_parent-HasFailed parent
find_error_task-HasFailed (async_result started_or_retry parent) = tt
find_error_task-HasFailed (async_result (success r) parent) = find_error_task-HasFailed r
find_error_task-HasFailed (async_result (failure f t) parent) = refl
find_error_task-HasFailed (plain v) = tt
find_error_task-HasFailed (many rs) = tt
find_error_task-HasFailed (group_result rs) = tt

-- the branch of a failed task
found_answers :
    (mimetype : String) (t : TaskResult) (seen : Seen)
    → has_failed t ≡ true
    → AnswersFor mimetype (some t) seen (client (error_reply true t) >>= λ _. ok (deleted mimetype))
unfolding error_reply has_failed
found_answers mimetype (async_result (failure (execution x) traceback) parent) seen h = refl
found_answers mimetype (async_result (failure (chord_error c) traceback) parent) seen h = refl
found_answers mimetype (async_result (failure (other_error c) traceback) parent) seen h = refl
found_answers mimetype (async_result pending parent) seen h = cc
found_answers mimetype (async_result started_or_retry parent) seen h = cc
found_answers mimetype (async_result (success r) parent) seen h = cc
found_answers mimetype (plain v) seen h = cc
found_answers mimetype (many rs) seen h = cc
found_answers mimetype (group_result rs) seen h = (h, refl)

module _ (text_of : TaskResult → String) where
  loop_answers :
      (mimetype : String) (seen : Seen)
      → LoopAnswers mimetype seen
          (client (result_reply text_of true true seen) >>= λ _. ok (deleted mimetype))
  unfolding result_reply
  loop_answers mimetype (value v) = refl
  loop_answers mimetype (done_with s) = loop_answers mimetype s
  loop_answers mimetype (failed_with f) = refl
  loop_answers mimetype not_ready = refl

  ready_answers :
      (mimetype : String) (look : Looks)
      → AnswersFor mimetype
          (find_error_task look.first)
          look.loop
          (client (ready text_of true true look) >>= λ _. ok (deleted mimetype))
  unfolding ready
  ready_answers mimetype look = elim (Option-cases (find_error_task look.first)) [
    | inl q ↦ rw (q, ready) (loop_answers mimetype look.loop)
    | inr (t, q) ↦
        rw (q, ready)
          (found_answers mimetype t look.loop
            (subst HasFailed q (find_error_task-HasFailed look.first)))
  ]

  module _ (url_of_task : String → String) (url_of_versions : (name version : Value) → String) where
    -- A deletion that asks for the media type of a deletion, of an application or of a version, waits for
    -- its task, which is taken to be done in time. Where `find_error_task` finds a failed task, it answers
    -- 204 if that has failed with a `TaskExecutionException`, although the view asks the client to raise
    -- errors; any other failure is raised, as such an exception; and a failed group, which has no result,
    -- is an error too. Where it finds none, the loop waits for the results of results: it answers 204 if
    -- all are done, raises the failure of the first that fails, also a `TaskExecutionException`, and raises
    -- an error for one that is not done in time.
    pub deletions_answer :
        (name version task_id : String) (look : Looks)
        → AnswersFor mime_app_delete_v1
            (find_error_task look.first)
            look.loop
            (delete_application text_of url_of_task url_of_versions name mime_app_delete_v1 task_id
              look).1
          × AnswersFor mime_app_version_delete_v1
              (find_error_task look.first)
              look.loop
              (delete_version text_of url_of_task url_of_versions name version
                mime_app_version_delete_v1 task_id look).1
    unfolding delete_application delete_version
    deletions_answer name version task_id look =
        (ready_answers mime_app_delete_v1 look, ready_answers mime_app_version_delete_v1 look)
