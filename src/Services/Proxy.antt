-- ===== src/Services/Proxy.antt =====
-- deployer/services/proxy.py: what the deployer asks of the yoda proxy. The yoda client and the names
-- that it gives to upstreams (`as_upstream`) are parameters. A function gives the calls that it makes on
-- the client, in order, and the exception that ends them, if one does.
pub mod Names
use cluster_deployer.Common.{
  ◌==◌, ℕ, String, Bool, true, false, not, ◌||◌, Option, none, some, List, [], ◌∷◌, ◌++◌, map,
  str_eq, if◌then◌else◌, ◌/◌,
}
use cluster_deployer.Common.Result.{Result, ok, err}
use cluster_deployer.Conf.{blue_green, upstream_ttl}
use Prim.Native.Char.{code}
use cluster_deployer.Util.Interval.{is_space, to_milliseconds, InvalidInterval}
use cluster_deployer.Util.Text.{codes}

-- an entry of `host['locations']`
pub record LocationConfig : Type 0 where
  pub key : String
  pub port : String
  pub path : String
  pub allowed_acls : Option (List String)
  pub denied_acls : Option (List String)
  pub force_ssl : Option Bool

-- an entry of `proxy['hosts']`
pub record HostConfig : Type 0 where
  pub enabled : Option Bool
  pub hostname : String
  pub locations : List LocationConfig

-- an entry of `proxy['listeners']`
pub record ListenerConfig : Type 0 where
  pub enabled : Option Bool
  pub name : String
  pub bind : String
  pub upstream_port : String
  pub allowed_acls : Option (List String)
  pub denied_acls : Option (List String)

pub record ProxyConfig : Type 0 where
  pub hosts : List HostConfig
  pub listeners : List ListenerConfig

-- an entry of `upstreams`
pub record UpstreamConfig : Type 0 where
  pub port : String
  pub mode : Option String
  pub health_uri : Option String
  pub health_timeout : Option String
  pub health_interval : Option String
  pub ttl : Option String

-- `yoda.model.Location`
pub record Location : Type 0 where
  pub upstream : String
  pub path : String
  pub allowed_acls : List String
  pub denied_acls : List String
  pub location_name : String
  pub force_ssl : Bool

-- a call of the yoda client
pub data Call : Type 0 where
  wire_proxy_call : (hostname : String) (aliases : List String) → List Location → Call
  update_tcp_listener :
      (name bind upstream : String) (allowed_acls denied_acls : List String) → Call
  register_upstream :
      (name mode : String) (health_uri health_timeout health_interval : Option String) (ttl : ℕ)
      → Call

pub data ProxyError : Type 0 where
  -- `hostnames[0]` of no hostname
  index_error : ProxyError
  bad_interval : InvalidInterval → ProxyError

-- the calls that are made, and how they end
abbrev pub Calls : Type 0
Calls = List Call × Result ProxyError (Unit {0})

infixl 5 ◌and_then◌
-- the second calls are made after the first ones, if these end well
abbrev pub ◌and_then◌ : Calls → Calls → Calls
(cs, ok _) and_then (ds, r) = (cs ++ ds, r)
(cs, err x) and_then _ = (cs, err x)

abbrev pub each : {A : Type 0} → (A → Calls) → List A → Calls
each f [] = ([], ok tt)
each f (x ∷ xs) = f x and_then each f xs

-- `.get(key, default)`
abbrev pub get_or : {A : Type 0} → A → Option A → A
get_or d none = d
get_or d (some x) = x

-- `[\s,]`
abbrev pub is_separator : ℕ → Bool
is_separator c = c == b',' || is_space c

abbrev pub add_name : String → List String → List String
add_name s ss = if str_eq s "" then ss else s ∷ ss

-- the text before the first separator, and the names after it
abbrev pub split_names : String → String × List String
split_names String.[] = ("", [])
split_names (String.◌∷◌ c s) =
    let (word, names) = split_names s in
    if is_separator (code c) then ("", add_name word names) else (String.◌∷◌ c word, names)

-- The names of a host: `re.split` at commas and blanks, without the empty ones. `strip` finds no blank
-- any more.
abbrev pub hostnames : String → List String
hostnames s = let (word, names) = split_names s in add_name word names

-- `app_version if deployment_mode == DEPLOYMENT_MODE_BLUEGREEN else None`
abbrev pub use_version : (version deployment_mode : String) → Option String
use_version version deployment_mode =
    if str_eq deployment_mode blue_green then some version else none

-- `to_milliseconds(upstream.get('ttl', ...)) / 1000`
abbrev pub ttl_of : Option String → Result InvalidInterval ℕ
ttl_of ttl = elim (to_milliseconds (codes (get_or upstream_ttl ttl))) [
  | ok ms ↦ ok (ms / 1000)
  | err x ↦ err x
]

-- the call of one host, once its names are split
abbrev pub call_host : List String → List Location → Calls
call_host [] locations = ([], err index_error)
call_host (n ∷ ns) locations = (wire_proxy_call n ns locations ∷ [], ok tt)

module _ (as_upstream : String → String → Option String → String) where
  abbrev pub location_of : String → Option String → LocationConfig → Location
  location_of app_name version l = record {
    upstream = as_upstream app_name l.port version;
    path = l.path;
    allowed_acls = get_or [] l.allowed_acls;
    denied_acls = get_or [] l.denied_acls;
    location_name = l.key;
    force_ssl = get_or false l.force_ssl;
  }

  -- `wire_host`
  abbrev pub wire_host : HostConfig → String → Option String → Calls
  wire_host host app_name version =
      call_host (hostnames host.hostname) (map (location_of app_name version) host.locations)

  -- `wire_listener`
  abbrev pub wire_listener : ListenerConfig → String → Option String → Calls
  wire_listener l app_name version = (
    update_tcp_listener l.name l.bind (as_upstream app_name l.upstream_port version)
          (get_or [] l.allowed_acls) (get_or [] l.denied_acls)
        ∷ [],
    ok tt,
  )

  -- `wire_proxy`
  unfoldable pub wire_proxy :
      (app_name app_version : String) → ProxyConfig → (deployment_mode : String) → Calls
  wire_proxy app_name app_version proxy deployment_mode =
      let version = use_version app_version deployment_mode in
      each (λ h. if get_or true h.enabled then wire_host h app_name version else ([], ok tt))
        proxy.hosts
      and_then each
          (λ l. if get_or true l.enabled then wire_listener l app_name version else ([], ok tt))
          proxy.listeners

  abbrev pub call_register :
      String → Option String → UpstreamConfig → Result InvalidInterval ℕ → Calls
  call_register app_name version u (err x) = ([], err (bad_interval x))
  call_register app_name version u (ok ttl) = (
    register_upstream (as_upstream app_name u.port version) (get_or "http" u.mode) u.health_uri
          u.health_timeout u.health_interval ttl
        ∷ [],
    ok tt,
  )

  -- `register_upstreams`
  unfoldable pub register_upstreams :
      (app_name app_version : String) → List UpstreamConfig → (deployment_mode : String) → Calls
  register_upstreams app_name app_version upstreams deployment_mode =
      let version = use_version app_version deployment_mode in
      each (λ u. call_register app_name version u (ttl_of u.ttl)) upstreams
