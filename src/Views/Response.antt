-- ===== src/Views/Response.antt =====
-- deployer/views/util.py. The encoding of a response as JSON is Flask's; `url_for` is a parameter.
use cluster_deployer.Common.{ℕ, String, Option, none, some, List}
use cluster_deployer.Conf.{mime_json}
use cluster_deployer.Services.TaskClient.{Shown, Reply}
use cluster_deployer.Value.{str, Fields, end, field}

-- what is written as JSON
pub data Body : Type 0 where
  document : Fields → Body
  documents : List Fields → Body
  shown : Shown → Body
  replied : Reply → Body
  text : String → Body

-- `build_response`: the response with its status and its header `Location`, if it has one
pub record Response : Type 0 where
  pub body : Body
  pub status : ℕ
  pub mimetype : String
  pub location : Option String

abbrev pub build_response : Body → Response
build_response output = record {
  body = output;
  status = 200;
  mimetype = mime_json;
  location = none;
}

-- `created_task`, with the address of the task
abbrev pub created_task : (url_of_task : String → String) → (task_id : String) → Response
created_task url_of_task task_id = record {
  body = document (field "task_id" (str task_id) end);
  status = 202;
  mimetype = "application/vnd.task-v1+json";
  location = some (url_of_task task_id);
}

-- `created`
abbrev pub created : Body → (location : String) → Response
created output location = record {
  body = output;
  status = 201;
  mimetype = mime_json;
  location = some location;
}

-- `deleted`
abbrev pub deleted : (mimetype : String) → Response
deleted mimetype = record { body = text ""; status = 204; mimetype = mimetype; location = none }
