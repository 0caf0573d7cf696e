-- ===== src/Services/Proxy/Names.antt =====
-- The upstreams that the calls of the proxy name.
use cluster_deployer.Common.{
  ℕ, String, ◌≡◌, refl, Bool, true, false, Option, none, some, List, [], ◌∷◌, ◌++◌, map, str_eq,
  All, Bool-cases, inl, inr, ◌⊎◌, if◌then◌else◌, subst, ap,
}
use cluster_deployer.Common.Result.{Result, ok, err}
use cluster_deployer.Conf.{blue_green}
use cluster_deployer.Util.Interval.{InvalidInterval}
use cluster_deployer.Services.Proxy.{
  Call, wire_proxy_call, update_tcp_listener, register_upstream, Calls, ◌and_then◌, each, get_or,
  LocationConfig, ProxyConfig, UpstreamConfig, use_version, ttl_of, hostnames, call_host,
  location_of, wire_host, wire_listener, wire_proxy, call_register, register_upstreams,
}

All-append : {A : Type 0} (P : A → Type 0) (xs ys : List A) → All P xs → All P ys → All P (xs ++ ys)
All-append P [] ys h k = k
All-append P (x ∷ xs) ys (p, h) k = (p, All-append P xs ys h k)

module _ (P : Call → Type 0) where
  All-and_then : (c d : Calls) → All P c.0 → All P d.0 → All P (c and_then d).0
  All-and_then (cs, ok u) (ds, r) h k = All-append P cs ds h k
  All-and_then (cs, err x) d h k = h

  All-each :
      {A : Type 0} (f : A → Calls) (xs : List A) → ((x : A) → All P (f x).0) → All P (each f xs).0
  All-each f [] h = tt
  All-each f (x ∷ xs) h = All-and_then (f x) (each f xs) (h x) (All-each f xs h)

module _ (as_upstream : String → String → Option String → String) where
  -- the upstream of the application at some port, of the version if there is one
  abbrev pub IsUpstream : String → Option String → String → Type 0
  IsUpstream app_name version u = (port : String) × (u ≡ as_upstream app_name port version)

  -- Every upstream that the call names is one of the application and the version.
  abbrev pub Names : String → Option String → Call → Type 0
  Names app_name version (wire_proxy_call n ns ls) =
      All (λ l. IsUpstream app_name version l.upstream) ls
  Names app_name version (update_tcp_listener n b u xs ys) = IsUpstream app_name version u
  Names app_name version (register_upstream n mode a b c ttl) = IsUpstream app_name version n

  locations_named :
      (app_name : String) (version : Option String) (ls : List LocationConfig)
      → All
          (λ l. IsUpstream app_name version l.upstream)
          (map (location_of as_upstream app_name version) ls)
  locations_named app_name version [] = tt
  locations_named app_name version (l ∷ ls) = ((l.port, refl), locations_named app_name version ls)

  host_named :
      (app_name : String) (version : Option String) (names : List String) (ls : List LocationConfig)
      → All
          (Names app_name version)
          (call_host names (map (location_of as_upstream app_name version) ls)).0
  host_named app_name version [] ls = tt
  host_named app_name version (n ∷ ns) ls = (locations_named app_name version ls, tt)

  register_named :
      (app_name : String) (version : Option String) (u : UpstreamConfig)
      (r : Result InvalidInterval ℕ)
      → All (Names app_name version) (call_register as_upstream app_name version u r).0
  register_named app_name version u (err x) = tt
  register_named app_name version u (ok ttl) = ((u.port, refl), tt)

  if_named :
      (P : Call → Type 0) (b : Bool) (c : Calls)
      → All P c.0
      → All P (if b then c else ([], ok tt)).0
  if_named P true c h = h
  if_named P false c h = tt

  pub wire_proxy_named :
      (app_name app_version : String) (proxy : ProxyConfig) (mode : String)
      → All
          (Names app_name (use_version app_version mode))
          (wire_proxy as_upstream app_name app_version proxy mode).0
  unfolding wire_proxy
  wire_proxy_named app_name app_version proxy mode =
      let P = Names app_name (use_version app_version mode) in
      All-and_then P _ _
        (All-each P _ proxy.hosts (λ h.
          if_named P (get_or true h.enabled)
            (wire_host as_upstream h app_name (use_version app_version mode))
            (host_named app_name (use_version app_version mode) (hostnames h.hostname)
              h.locations)))
        (All-each P _ proxy.listeners (λ l.
          if_named P (get_or true l.enabled)
            (wire_listener as_upstream l app_name (use_version app_version mode))
            ((l.upstream_port, refl), tt)))

  pub register_upstreams_named :
      (app_name app_version : String) (upstreams : List UpstreamConfig) (mode : String)
      → All
          (Names app_name (use_version app_version mode))
          (register_upstreams as_upstream app_name app_version upstreams mode).0
  unfolding register_upstreams
  register_upstreams_named app_name app_version upstreams mode =
      All-each (Names app_name (use_version app_version mode)) _ upstreams
        (λ u. register_named app_name (use_version app_version mode) u (ttl_of u.ttl))

  -- In blue-green mode the hosts and listeners are wired to the upstreams of the version, and the
  -- upstreams that are registered are those of the version as well. In every other mode both are those
  -- of the application without a version.
  upstreams_of_mode :
      (app_name app_version : String) (proxy : ProxyConfig) (upstreams : List UpstreamConfig)
      (mode : String)
      → ((str_eq mode blue_green ≡ true)
          × All
              (Names app_name (some app_version))
              (wire_proxy as_upstream app_name app_version proxy mode).0
          × All
              (Names app_name (some app_version))
              (register_upstreams as_upstream app_name app_version upstreams mode).0)
        ⊎ ((str_eq mode blue_green ≡ false)
            × All (Names app_name none) (wire_proxy as_upstream app_name app_version proxy mode).0
            × All
                (Names app_name none)
                (register_upstreams as_upstream app_name app_version upstreams mode).0)
  upstreams_of_mode app_name app_version proxy upstreams mode =
      let wired = wire_proxy_named app_name app_version proxy mode in
      let registered = register_upstreams_named app_name app_version upstreams mode in
      elim (Bool-cases (str_eq mode blue_green)) [
        | inl e ↦ inl (
          e,
          of_version wires (version_of e) wired,
          of_version registers (version_of e) registered,
        )
        | inr e ↦ inr (
          e,
          of_version wires (version_of e) wired,
          of_version registers (version_of e) registered,
        )
      ]
    where
      wires : List Call
      wires = (wire_proxy as_upstream app_name app_version proxy mode).0

      registers : List Call
      registers = (register_upstreams as_upstream app_name app_version upstreams mode).0

      of_version :
          (cs : List Call) {v v' : Option String}
          → v ≡ v'
          → All (Names app_name v) cs
          → All (Names app_name v') cs
      of_version cs h = subst (λ v. All (Names app_name v) cs) h

      version_of :
          {b : Bool}
          → str_eq mode blue_green ≡ b
          → use_version app_version mode ≡ (if b then some app_version else none)
      version_of e = ap (λ b. (if b then some app_version else none)) e
