-- ===== src/Tasks/Promote/Wired.antt =====
-- The names of upstreams in the calls of `_promote_deployment` and `_register_upstreams`.
use cluster_deployer.Common.{
  ℕ, ◌≡◌, refl, subst, String, Option, none, some, false, List, foldl, All, str_eq, if◌then◌else◌,
}
use cluster_deployer.Common.Result.{Result, ok, err}
use cluster_deployer.Conf.{blue_green}
use cluster_deployer.Services.Lock.EtcdClient.{Etcd}
use cluster_deployer.Services.Proxy.{Call, ProxyError, wire_proxy, register_upstreams}
use cluster_deployer.Services.Proxy.Names.{Names, wire_proxy_named, register_upstreams_named}
use cluster_deployer.Tasks.Canvas.{Deployment}
use cluster_deployer.Tasks.Failure.{registered, register_upstreams_task}
use cluster_deployer.Tasks.Monad.{World}
use cluster_deployer.Tasks.Platform.{Platform}
use cluster_deployer.Tasks.Promote.{promote_deployment_task}
use cluster_deployer.Tasks.Promote.Chains.{promote_deployment_exact}
use cluster_deployer.Value.{Fields}

module _ (p : Platform) (e : Etcd) (now : ℕ → ℕ) where
  -- The proxy is changed by calls, which all name upstreams of the application with the version, or all
  -- without one for `none`.
  abbrev pub WiresNames :
      (name : String) → (version : Option String) → World p e → World p e → Type 0
  WiresNames name version w w' =
      (calls : List Call) × (w'.cluster ≡ foldl (λ c call. p.call_proxy call c) w.cluster calls)
      × All (Names p.as_upstream name version) calls

  registered-cluster :
      (f : Fields) (r : Result ProxyError (Unit {0})) (w : World p e)
      → (registered p e now f r w).1.cluster ≡ w.cluster
  registered-cluster f (ok u) w = refl
  registered-cluster f (err x) w = refl

  -- For a deployment in a mode other than blue-green, the hosts and listeners that `_promote_deployment`
  -- wires name upstreams with its version, while `_register_upstreams`, as `create` sends it, registers
  -- upstreams without a version.
  pub promotion_wires_version :
      (d : Deployment) (search_params : Fields) (w v : World p e)
      → str_eq d.mode blue_green ≡ false
      → WiresNames d.name (some d.version) w (promote_deployment_task p e now d search_params w).1
        × WiresNames d.name none v
            (register_upstreams_task p e now d.name d.version d.upstreams d.mode search_params v).1
  unfolding register_upstreams_task
  promotion_wires_version d search_params w v h = (
    (
      (wire_proxy p.as_upstream d.name d.version d.hosts_and_listeners blue_green).0,
      (promote_deployment_exact p e now d search_params w).0,
      wire_proxy_named p.as_upstream d.name d.version d.hosts_and_listeners blue_green,
    ),
    (
      (register_upstreams p.as_upstream d.name d.version d.upstreams d.mode).0,
      registered-cluster search_params _ _,
      subst
          (λ b.
            All (Names p.as_upstream d.name ((if b then some d.version else none)))
              (register_upstreams p.as_upstream d.name d.version d.upstreams d.mode).0)
          h (register_upstreams_named p.as_upstream d.name d.version d.upstreams d.mode),
    ),
  )
