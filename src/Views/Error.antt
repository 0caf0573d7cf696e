-- ===== src/Views/Error.antt =====
-- deployer/views/error.py: the responses to errors. The text of an error, the trace of the handler and the
-- time are arguments; the error of a request is one of those that a handler is registered for.
pub mod Shown
mod Tests
use cluster_deployer.Common.{String, text_append, Option, none, some, ℕ, if◌then◌else◌}
use cluster_deployer.Common.Result.{Result, ok, err}
use cluster_deployer.Conf.{mime_json}
use cluster_deployer.Services.TaskClient.{
  ReadyError, task_raised, no_attribute, get_raised, timed_out,
}
use cluster_deployer.Tasks.Results.{TaskExecution, Cause, execution, chord_error, other_error}
use cluster_deployer.Value.{Value, null, str, num, obj, Fields, end, field, truthy}
use cluster_deployer.Views.Application.{ViewError, not_done, no_entry, not_found, bad_number}
use cluster_deployer.Views.Response.{Response, document}

pub record Request : Type 0 where
  pub path : String
  pub url : String
  pub method : String

-- the error that a handler gets; for those of Flask, its text
pub data ServedError : Type 0 where
  page_not_found : (text : String) → ServedError
  task_error : (text : String) → TaskExecution → ServedError
  internal : (trace : String) → Cause → ServedError
  not_acceptable : (text : String) → ServedError
  invalid_media_type : (text : String) → ServedError

-- `message or str(error)`
abbrev pub message_or_text : (message : Value) → (text : String) → Value
message_or_text message text = if truthy message then message else str text

-- `as_flask_error`
unfoldable pub as_flask_error :
    Request
    → (text : String) → (message details traceback : Value) → (status : ℕ)
    → (code timestamp : Value) → Response
unfolding truthy
as_flask_error r text message details traceback status code timestamp = record {
  body = document (
      field "path" (str r.path) (
        field "url" (str r.url) (
          field "method" (str r.method) (
            field "message" (message_or_text message text) (
              field "details" details (
                field "traceback" traceback (
                  field "status" (num status)
                    (field "code" code (field "timestamp" timestamp end)))))))));
  status = status;
  mimetype = mime_json;
  location = none;
}

-- `error.to_dict()`, or `None` where there is no such method
abbrev pub details_of : Cause → Value
details_of c = elim c.dict [ none ↦ null | some d ↦ obj d ]

-- the handlers of `register`
unfoldable pub error_response : Request → (timestamp : Value) → ServedError → Response
unfolding as_flask_error
error_response r timestamp (page_not_found text) =
    as_flask_error r text
      (str (text_append "The given resource:" (text_append r.path " is not found on server"))) null
      null 404 (str "NOT_FOUND") timestamp
error_response r timestamp (task_error text x) =
    as_flask_error r text x.message x.details x.traceback 500 x.code timestamp
error_response r timestamp (internal trace c) =
    as_flask_error r c.text null (details_of c) (str trace) 500 (str "INTERNAL") timestamp
error_response r timestamp (not_acceptable text) =
    as_flask_error r text null null null 406 (str "NOT_ACCEPTABLE") timestamp
error_response r timestamp (invalid_media_type text) =
    as_flask_error r text null null null 415 (str "INVALID_MEDIA_TYPE") timestamp

-- The handler that Flask picks for the error of a request; `text` is `str` of the error, and `trace` what
-- `traceback.format_exc` gives.
abbrev pub served : (text trace : String) → ViewError → ServedError
served text trace (not_done (task_raised x)) = task_error text x
served text trace (not_done no_attribute) = internal trace (record { dict = none; text = text })
served text trace (not_done (get_raised (execution x))) = task_error text x
served text trace (not_done (get_raised (chord_error c))) = internal trace c
served text trace (not_done (get_raised (other_error c))) = internal trace c
served text trace (not_done timed_out) = internal trace (record { dict = none; text = text })
served text trace (no_entry x) = internal trace (record { dict = none; text = text })
served text trace bad_number = internal trace (record { dict = none; text = text })
served text trace not_found = page_not_found text

-- the response to a request
unfoldable pub respond :
    Request → (timestamp : Value) → (text trace : String) → Result ViewError Response → Response
unfolding error_response
respond r timestamp text trace (ok response) = response
respond r timestamp text trace (err x) = error_response r timestamp (served text trace x)
