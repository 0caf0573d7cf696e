-- ===== src/Services/Deployment/Defaults.antt =====
pub mod Identity
pub mod Stop
pub mod Tests
-- `apply_defaults` of deployer/services/deployment.py, with the functions that it uses. The time of the
-- run is an argument: `now_ms` is `int(round(time.time() * 1000))`, `now` the datetime.
use cluster_deployer.Common.{
  ℕ, ◌/◌, String, text_append, Bool, true, false, not, ◌&&◌, ◌||◌, Option, none, some, List, [],
  ◌∷◌, foldl, map, str_eq, if◌then◌else◌,
}
use cluster_deployer.Common.Result.{Result, ok, err, ◌>>=◌}
use cluster_deployer.Conf.{state_new, discover_upstream_ttl_default}
use cluster_deployer.Conf.Defaults.{
  Environment, empty, one, deployment_type_git_quay, deployment_type_default, git_quay_defaults,
  default_defaults, upstream_defaults, template_defaults, stop_defaults,
}
use cluster_deployer.Util.Interval.{to_milliseconds}
use cluster_deployer.Util.Merge.{dict_merge}
use cluster_deployer.Util.Text.{codes}
use cluster_deployer.Value.{
  Value, null, num, str, date, arr, obj, Items, nil, cons, Fields, end, field, get_field, set_field,
  truthy,
}
use cluster_deployer.Value.Access.{
  as_text, Access, AccessError, wrong_type, bad_interval, item, item_at, get, items, assign,
  update_at, map_values, remove_field,
}
use cluster_deployer.Services.Deployment.Upstreams.{
  port_text, each_value, create_discover_check, apply_upstreams,
}
use cluster_deployer.Services.Deployment.Application.{apply_app_template}
use cluster_deployer.Services.Deployment.Formatting.{Formatting, decimal}
use cluster_deployer.Services.Deployment.Ports.{Port, no_port, number, text, get_exposed_ports}
use cluster_deployer.Services.Deployment.Schedule.{check_and_apply_schedule}

-- `deployment_type in DEPLOYMENT_DEFAULTS`, and the defaults; a dict or a list cannot be looked up
abbrev pub type_defaults : Environment → Value → Access (Option Value)
type_defaults e (str s) = ok (
    if str_eq s deployment_type_git_quay
    then some (git_quay_defaults e)
    else if str_eq s deployment_type_default
    then some (default_defaults e)
    else none)
type_defaults e (arr xs) = err wrong_type
type_defaults e (obj d) = err wrong_type
type_defaults e _ = ok none

abbrev pub merge_defaults : Value → Option Value → Value
merge_defaults deployment none = deployment
merge_defaults deployment (some defaults) = dict_merge (deployment ∷ defaults ∷ [])

abbrev pub is_git_quay : Value → Bool
is_git_quay (str s) = str_eq s deployment_type_git_quay
is_git_quay _ = false

module _ (f : Formatting) (e : Environment) where
  open f use {text_of, dumps, format}

  -- `generate_deployment_id`
  abbrev pub generate_deployment_id : (app_name app_version : String) → String
  generate_deployment_id app_name app_version =
      text_append e.cluster_name
        (text_append "-" (text_append app_name (text_append "-" app_version)))

  -- `x.format(...)` in its place
  abbrev pub format_in_place : Fields → Value → Access Value
  format_in_place arguments v = do s ← as_text v; t ← format s arguments; ok (str t)

  -- `_git_quay_defaults`
  unfoldable pub apply_git_quay : Value → Access Value
  unfolding item_at item update_at
  apply_git_quay deployment = do
    git_meta ← item_at ("meta-info" ∷ "git" ∷ []) deployment
    owner ← item "owner" git_meta
    repo ← item "repo" git_meta
    commit ← item "commit" git_meta
    with_image ←
        update_at ("templates" ∷ "app" ∷ "args" ∷ "image" ∷ [])
          (format_in_place
            (field "GIT_OWNER" owner (field "GIT_REPO" repo (field "GIT_COMMIT" commit end))))
          deployment
    ref ← item "ref" git_meta
    update_at ("deployment" ∷ "name" ∷ [])
        (format_in_place
          (field "GIT_OWNER" owner (field "GIT_REPO" repo (field "GIT_REF" ref end))))
        with_image

  -- `deployment['deployment']['version']`, made a text
  abbrev pub set_version : (now_ms : ℕ) → Value → Access Value
  set_version now_ms version = ok (str (text_of (if truthy version then version else num now_ms)))

  -- `apply_defaults` up to the schedule: the merges, the names of a git-quay deployment, the templates
  unfoldable pub merge_all : Value → Access Value
  unfolding item update_at map_values items dict_merge apply_git_quay default_defaults
  merge_all deployment = do
    let typed =
        dict_merge (deployment ∷ one "deployment" (one "type" (str deployment_type_git_quay)) ∷ [])
    deployment_type ← item_at ("deployment" ∷ "type" ∷ []) typed
    of_type ← type_defaults e deployment_type
    let merged = dict_merge (merge_defaults typed of_type ∷ default_defaults e ∷ [])
    named ← if is_git_quay deployment_type then apply_git_quay merged else ok merged
    update_at ("templates" ∷ [])
        (each_value (λ template. ok (dict_merge (template ∷ template_defaults ∷ [])))) named

  -- `deployment_upd['id'] = generate_deployment_id(app_name, app_version)`
  abbrev pub set_id : Value → Access Value
  set_id deployment = do
    app_name ← item_at ("deployment" ∷ "name" ∷ []) deployment
    app_version ← item_at ("deployment" ∷ "version" ∷ []) deployment
    assign "id" (str (generate_deployment_id (text_of app_name) (text_of app_version))) deployment

  -- the state and the time of the start
  abbrev pub set_start : (now : ℕ) → Value → Access Value
  set_start now deployment = do
    with_state ← assign "state" (str state_new) deployment
    assign "started-at" (date now) with_state

  -- the version, the id, the state and the time of the start
  unfoldable pub identify : (now_ms now : ℕ) → Value → Access Value
  unfolding item_at item assign update_at truthy
  identify now_ms now deployment = do
    versioned ← update_at ("deployment" ∷ "version" ∷ []) (set_version now_ms) deployment
    with_id ← set_id versioned
    set_start now with_id

  -- the upstreams of the exposed ports, and then the template of the application
  abbrev pub set_proxy_and_app : Value → Access Value
  set_proxy_and_app deployment = do
    templates ← get "templates" null deployment
    app_template ← get "app" null templates
    exposed_ports ← get_exposed_ports deployment
    with_upstreams ← apply_upstreams exposed_ports deployment
    apply_app_template f e app_template exposed_ports with_upstreams

  -- the cluster, and a runtime that is reset
  abbrev pub set_cluster : Value → Access Value
  set_cluster deployment = do
    in_cluster ← assign "cluster" (str e.cluster_name) deployment
    assign "runtime" empty in_cluster

  -- `apply_defaults`
  unfoldable pub apply_defaults : (now_ms now : ℕ) → Value → Access Value
  unfolding merge_all identify apply_upstreams apply_app_template check_and_apply_schedule
      get_exposed_ports get assign
  apply_defaults now_ms now deployment = do
    merged ← merge_all deployment
    scheduled ← check_and_apply_schedule merged
    identified ← identify now_ms now scheduled
    with_proxy_and_app ← set_proxy_and_app identified
    set_cluster with_proxy_and_app
