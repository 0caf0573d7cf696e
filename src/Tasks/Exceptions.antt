-- ===== src/Tasks/Exceptions.antt =====
-- deployer/tasks/exceptions.py: the exceptions of the tasks, their messages and their dictionaries, with
-- those of the lock and of the intervals. An exception of a library has the text that it is given.
use cluster_deployer.Common.{ℕ, String, text_append, Option, none, some, List, [], ◌∷◌}
use cluster_deployer.Util.Text.{text_of_codes}
use cluster_deployer.Services.Deployment.Formatting.{decimal}
use cluster_deployer.Value.{Value, null, num, str, arr, obj, Items, nil, cons, Fields, end, field}
use cluster_deployer.Services.Lock.{ResourceLocked}
use cluster_deployer.Util.Interval.{InvalidInterval}
use cluster_deployer.Services.Storage.Mongo.{KeyError}
use cluster_deployer.Services.Proxy.{ProxyError, bad_interval}
use cluster_deployer.Value.Access.{AccessError}
use cluster_deployer.Tasks.Platform.{Fault, FleetUnit}

pub data TaskError : Type 0 where
  min_nodes_not_running :
      (name version : String) (min_units : ℕ) (units : List FleetUnit) → TaskError
  min_nodes_not_discovered :
      (name version : String) (min_nodes : ℕ) (discovered_nodes : List (String × String))
      → TaskError
  node_not_undeployed :
      (name : String) (version : Option String) (units : List FleetUnit) → TaskError
  node_not_stopped : (name : String) (version : Option String) (units : List FleetUnit) → TaskError
  node_check_failed : (url reason : String) (attempts : ℕ) → TaskError
  max_start_concurrency_reached : (allowed current : ℕ) → TaskError
  fleet_fault : Fault → TaskError
  resource_locked : ResourceLocked → TaskError
  invalid_interval : InvalidInterval → TaskError
  key_error : KeyError → TaskError
  proxy_error : ProxyError → TaskError
  access_error : AccessError → TaskError

abbrev pub text_or_null : Option String → Value
text_or_null none = null
text_or_null (some s) = str s

abbrev pub unit_value : FleetUnit → Value
unit_value u = obj (
    field "unit" (str u.unit) (
      field "machine" (str u.machine)
        (field "active" (str u.active) (field "sub" (str u.sub) end))))

abbrev pub units_value : List FleetUnit → Items
units_value [] = nil
units_value (u ∷ us) = cons (unit_value u) (units_value us)

abbrev pub node_values : List (String × String) → Fields
node_values [] = end
node_values ((k, v) ∷ ns) = field k (str v) (node_values ns)

abbrev pub error_dict : (code message : String) → Fields → Value
error_dict code message details =
    obj
      (field "message" (str message) (field "code" (str code) (field "details" (obj details) end)))

-- `%s` of a text or `None`
abbrev pub text_or_none : Option String → String
text_or_none none = "None"
text_or_none (some s) = s

abbrev pub joined_text : List String → String
joined_text [] = ""
joined_text (s ∷ ss) = text_append s (joined_text ss)

-- `application:%s version:%s`
abbrev pub app_text : (name version : String) → String
app_text name version = joined_text ("application:" ∷ name ∷ " version:" ∷ version ∷ [])

-- `INTERVAL_FORMAT`
abbrev pub interval_format : String
interval_format = "^\\s*(\\d+)(ms|h|m|s|d|w)\\s*$"

abbrev pub interval_text : InvalidInterval → String
unfolding text_of_codes
interval_text i = text_of_codes i.interval

abbrev pub interval_message : InvalidInterval → String
unfolding text_of_codes
interval_message i = joined_text (
    "Invalid interval specified:"
    ∷ interval_text i
    ∷ ". Interval should match format: "
    ∷ interval_format
    ∷ [])

-- the message of an exception; `text` is that of an exception of a library
unfoldable pub message : (text : String) → TaskError → String
unfolding decimal text_of_codes
message text (min_nodes_not_running name version n units) = joined_text (
    "Minimum of "
    ∷ decimal n
    ∷ " units for "
    ∷ app_text name version
    ∷ " were not found in running state."
    ∷ [])
message text (min_nodes_not_discovered name version n nodes) = joined_text (
    "Minimum of "
    ∷ decimal n
    ∷ " nodes for "
    ∷ app_text name version
    ∷ " were not registered to yoda proxy."
    ∷ [])
message text (node_not_undeployed name version units) =
    joined_text
      ("Nodes for " ∷ app_text name (text_or_none version) ∷ " did not get un-deployed" ∷ [])
message text (node_not_stopped name version units) =
    joined_text ("Nodes for " ∷ app_text name (text_or_none version) ∷ " did not get stopped" ∷ [])
message text (node_check_failed url reason attempts) = joined_text (
    "Deployment check failed for url: "
    ∷ url
    ∷ " due to: "
    ∷ reason
    ∷ " after "
    ∷ decimal attempts
    ∷ " attempt(s)."
    ∷ [])
message text (max_start_concurrency_reached allowed current) = joined_text (
    "Maximum concurrency reached for starting deployment.Allowed: "
    ∷ decimal allowed
    ∷ "  Current: "
    ∷ decimal current
    ∷ [])
message text (resource_locked r) =
    joined_text ("Resource " ∷ r.name ∷ " with key " ∷ r.key ∷ " is already locked." ∷ [])
message text (invalid_interval i) = interval_message i
message text (proxy_error (bad_interval i)) = interval_message i
message text (access_error (AccessError.bad_interval i)) = interval_message i
message text _ = text

-- `InvalidInterval.to_dict`
abbrev pub interval_dict : InvalidInterval → Value
unfolding text_of_codes
interval_dict i =
    error_dict "INVALID_INTERVAL" (interval_message i)
      (field "interval" (str (interval_text i)) end)

-- The dictionary of an exception that has `to_dict`, with its message. The status and the response of a
-- failed node check, which an HTTP error brings, are left out.
abbrev pub dict_with : (message : String) → TaskError → Option Value
unfolding text_of_codes
dict_with message (min_nodes_not_running name version n units) = some (
    error_dict "MIN_NODES_NOT_RUNNING" message (
      field "name" (str name) (
        field "version" (str version)
          (field "min-units" (num n) (field "units" (arr (units_value units)) end)))))
dict_with message (min_nodes_not_discovered name version n nodes) = some (
    error_dict "MIN_NODES_NOT_DISCOVERED" message (
      field "name" (str name) (
        field "version" (str version)
          (field "min-nodes" (num n) (field "discovered-nodes" (obj (node_values nodes)) end)))))
dict_with message (node_not_undeployed name version units) = some (
    error_dict "NODE_NOT_UNDEPLOYED" message
      (field "name" (str name) (field "version" (text_or_null version) end)))
dict_with message (node_not_stopped name version units) = some (
    error_dict "NODE_NOT_STOPPED" message
      (field "name" (str name) (field "version" (text_or_null version) end)))
dict_with message (node_check_failed url reason attempts) = some (
    error_dict "NODE_CHECK_FAILED" message (
      field "url" (str url)
        (field "attempts" (num attempts) (field "status" null (field "response" null end)))))
dict_with message (max_start_concurrency_reached allowed current) = some (
    error_dict "MAX_START_CONCURRENCY_REACHED" message
      (field "allowed" (num allowed) (field "current" (num current) end)))
dict_with message (resource_locked r) =
    some (
      error_dict "RESOURCE_LOCKED" message
        (field "name" (str r.name) (field "key" (str r.key) end)))
dict_with message (invalid_interval i) = some (interval_dict i)
dict_with message (proxy_error (bad_interval i)) = some (interval_dict i)
dict_with message (access_error (AccessError.bad_interval i)) = some (interval_dict i)
dict_with message _ = none

-- `to_dict`, of the exceptions that have it
unfoldable pub to_dict : (text : String) → TaskError → Option Value
unfolding message text_of_codes
to_dict text error = dict_with (message text error) error
