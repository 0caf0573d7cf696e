-- ===== src/Services/Deployment/Application.antt =====
-- The template of the application in `apply_defaults` of deployer/services/deployment.py: the environment,
-- the sidekicks, and the time to stop.
use cluster_deployer.Common.{
  ◌/◌, String, text_append, not, ◌&&◌, ◌||◌, List, [], ◌∷◌, str_eq, if◌then◌else◌,
}
use cluster_deployer.Common.Result.{ok, err, ◌>>=◌}
use cluster_deployer.Conf.{discover_upstream_ttl_default}
use cluster_deployer.Conf.Defaults.{Environment, empty, one, stop_defaults}
use cluster_deployer.Util.Interval.{to_milliseconds}
use cluster_deployer.Util.Merge.{dict_merge}
use cluster_deployer.Util.Text.{codes}
use cluster_deployer.Value.{
  Value, null, num, str, arr, obj, Items, nil, cons, Fields, end, field, truthy,
}
use cluster_deployer.Value.Access.{
  Access, wrong_type, bad_interval, item, item_at, get, items, assign, update_at,
}
use cluster_deployer.Services.Deployment.Upstreams.{port_text, create_discover_check}
use cluster_deployer.Services.Deployment.Formatting.{Formatting}
use cluster_deployer.Services.Deployment.Ports.{Port}

abbrev pub join_ports : List Port → String
join_ports [] = ""
join_ports (p ∷ []) = port_text p
join_ports (p ∷ q ∷ ps) = text_append (port_text p) (text_append "," (join_ports (q ∷ ps)))

module _ (f : Formatting) (e : Environment) where
  open f use {text_of, dumps, format}

  -- `_get_app_environment`
  abbrev pub discover_settings : Value → List Port → (schedule : Value) → Access Value
  discover_settings deployment exposed_ports schedule = if truthy schedule then ok empty else (do
    mode ← item_at ("deployment" ∷ "mode" ∷ []) deployment
    health ← create_discover_check deployment
    ok (
        obj (
          field "DISCOVER_PORTS" (str (join_ports exposed_ports)) (
            field "DISCOVER_MODE" mode (
              field "DISCOVER_HEALTH" (str (dumps health))
                (field "DISCOVER_UPSTREAM_TTL" (str discover_upstream_ttl_default) end))))))

  unfoldable pub get_app_environment : Value → List Port → Access Value
  unfolding get item item_at truthy dict_merge
  get_app_environment deployment exposed_ports = do
    schedule ← item "schedule" deployment
    discover ← discover_settings deployment exposed_ports schedule
    own ← item_at ("templates" ∷ "app" ∷ "args" ∷ "environment" ∷ []) deployment
    shared ← get "environment" null deployment
    ok (dict_merge (own ∷ shared ∷ discover ∷ []))

  -- the types of the templates that run beside the application
  abbrev pub sidekick : String → (enabled : Value) → Items → Items
  sidekick service_type enabled rest =
      if truthy enabled && not (str_eq service_type "app" || str_eq service_type "timer")
      then cons (str service_type) rest
      else rest

  pub sidekicks : Fields → Access Items
  unfolding item truthy
  sidekicks end = ok nil
  sidekicks (field service_type template d) = do
    enabled ← item "enabled" template
    rest ← sidekicks d
    ok (sidekick service_type enabled rest)

  -- The timeout of a stop in seconds. Where none is set the source takes the dict of the defaults for a
  -- stop, since its `['timeout']` stands on the next line, a statement of its own.
  abbrev pub seconds_of : Value → Access Value
  seconds_of (str s) = elim (to_milliseconds (codes s)) [
    | ok ms ↦ ok (num (ms / 1000))
    | err x ↦ err (bad_interval x)
  ]
  seconds_of _ = err wrong_type

  unfoldable pub container_stop_sec : (timeout : Value) → Access Value
  unfolding truthy to_milliseconds
  container_stop_sec timeout = seconds_of (if truthy timeout then timeout else stop_defaults)

  -- the arguments of the application's template
  abbrev pub app_args : List String
  app_args = "templates" ∷ "app" ∷ "args" ∷ []

  -- the three parts of the body of `if app_template`
  abbrev pub set_environment : List Port → Value → Access Value
  set_environment exposed_ports deployment = do
    environment ← get_app_environment deployment exposed_ports
    update_at app_args (assign "environment" environment) deployment

  abbrev pub set_sidekicks : Value → Access Value
  set_sidekicks deployment = do
    templates ← item "templates" deployment
    entries ← items templates
    types ← sidekicks entries
    update_at app_args (assign "sidekicks" (arr types)) deployment

  abbrev pub set_service : Value → Access Value
  set_service deployment = do
    timeout ← item_at ("deployment" ∷ "stop" ∷ "timeout" ∷ []) deployment
    seconds ← container_stop_sec timeout
    args ← item_at app_args deployment
    service ← get "service" null args
    let own = if truthy service then service else empty
    update_at app_args (assign "service" (dict_merge (own ∷ one "container-stop-sec" seconds ∷ [])))
        deployment

  unfoldable pub apply_app : List Port → Value → Access Value
  unfolding get item item_at items assign update_at dict_merge truthy get_app_environment sidekicks
      container_stop_sec
  apply_app exposed_ports deployment = do
    with_environment ← set_environment exposed_ports deployment
    with_sidekicks ← set_sidekicks with_environment
    set_service with_sidekicks

  -- the environment, the sidekicks and the service of the application, if there is one
  unfoldable pub apply_app_template : (app_template : Value) → List Port → Value → Access Value
  unfolding truthy apply_app
  apply_app_template app_template exposed_ports deployment =
      if truthy app_template then apply_app exposed_ports deployment else ok deployment
