-- ===== src/Services/Deployment/Upstreams.antt =====
-- The upstreams of a deployment: those that `apply_defaults` of deployer/services/deployment.py adds for
-- the exposed ports, their defaults, and `_create_discover_check`.
pub mod ReadBack
use cluster_deployer.Common.{
  ℕ, ◌/◌, String, text_append, Bool, true, false, not, ◌&&◌, ◌||◌, Option, none, some, List, [],
  ◌∷◌, foldl, map, str_eq, if◌then◌else◌,
}
use cluster_deployer.Common.Result.{Result, ok, err, ◌>>=◌}
use cluster_deployer.Conf.{state_new, discover_upstream_ttl_default}
use cluster_deployer.Conf.Defaults.{
  Environment, empty, one, deployment_type_git_quay, deployment_type_default, git_quay_defaults,
  default_defaults, upstream_defaults, template_defaults, stop_defaults,
}
use cluster_deployer.Util.Interval.{to_milliseconds}
use cluster_deployer.Util.Merge.{dict_merge}
use cluster_deployer.Util.Text.{codes}
use cluster_deployer.Value.{
  Value, null, num, str, date, arr, obj, Items, nil, cons, Fields, end, field, get_field, set_field,
  truthy,
}
use cluster_deployer.Value.Access.{
  Access, AccessError, wrong_type, bad_interval, item, item_at, get, items, assign, update_at,
  map_values, remove_field,
}
use cluster_deployer.Services.Deployment.Formatting.{Formatting, decimal}
use cluster_deployer.Services.Deployment.Ports.{Port, no_port, number, text, get_exposed_ports}
use cluster_deployer.Services.Deployment.Schedule.{check_and_apply_schedule}

-- `str(port)`
abbrev pub port_text : Port → String
port_text no_port = "None"
port_text (number n) = decimal n
port_text (text s) = s

-- `setdefault(str(port), {})` for each port
abbrev pub set_default : Fields → Port → Fields
set_default d p = elim (get_field (port_text p) d) [
  | none ↦ set_field (port_text p) empty d
  | some _ ↦ d
]

abbrev pub add_upstreams : List Port → Value → Access Value
add_upstreams ports v = items v >>= λ d. ok (obj (foldl set_default d ports))

-- `del(upd_upstream['health']['uri'])`
abbrev pub drop_uri : Value → Access Value
drop_uri v = items v >>= λ d. ok (obj (remove_field "uri" d))

abbrev pub is_http : Value → Bool
is_http (str s) = str_eq s "http"
is_http _ = false

-- the upstream without a path to check, unless it is of mode http
abbrev pub check_mode : Value → (mode uri : Value) → Access Value
check_mode upstream mode uri =
    if not (is_http mode) && truthy uri
    then update_at ("health" ∷ []) drop_uri upstream
    else ok upstream

-- the defaults of one upstream
unfoldable pub upstream_with_defaults : Value → Access Value
unfolding get item update_at dict_merge truthy remove_field items
upstream_with_defaults upstream = do
  let upd_upstream = dict_merge (upstream ∷ upstream_defaults ∷ [])
  mode ← get "mode" null upd_upstream
  health ← if is_http mode then ok empty else item "health" upd_upstream
  uri ← get "uri" null health
  check_mode upd_upstream mode uri

abbrev pub each_value : (Value → Access Value) → Value → Access Value
each_value f v = do d ← items v; d' ← map_values f d; ok (obj d')

-- `_create_discover_check`
abbrev pub create_discover_check : Value → Access Value
create_discover_check deployment = do
  proxy ← get "proxy" empty deployment
  upstreams ← get "upstreams" empty proxy
  each_value (get "health" empty) upstreams

-- the upstreams of the exposed ports, and the defaults of all upstreams
unfoldable pub apply_upstreams : List Port → Value → Access Value
unfolding update_at map_values items upstream_with_defaults
apply_upstreams exposed_ports deployment = do
  exposed ← update_at ("proxy" ∷ "upstreams" ∷ []) (add_upstreams exposed_ports) deployment
  update_at ("proxy" ∷ "upstreams" ∷ []) (each_value upstream_with_defaults) exposed
