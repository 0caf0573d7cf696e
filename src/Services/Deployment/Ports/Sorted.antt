-- ===== src/Services/Deployment/Ports/Sorted.antt =====
-- The list that stands for a sorted set of ports: in strict order, with just the ports that were put in.
use cluster_deployer.Common.{◌≡◌, ◌⊎◌, ◌↔◌, true, List, [], ◌∷◌}
use cluster_deployer.Services.Deployment.Ports.{
  ports_of_hosts, ports_of_listeners, ports_of_upstreams, Port, text, key, before,
}
use cluster_deployer.Common.Result.{ok}
use cluster_deployer.Conf.Defaults.{empty}
use cluster_deployer.Value.{Value}
use cluster_deployer.Value.Access.{get}

abbrev pub AscendingFrom : Port → List Port → Type 0
AscendingFrom b [] = Unit
AscendingFrom b (p ∷ ps) = (before (key b) (key p) ≡ true) × AscendingFrom p ps

-- each port stands before the next one
abbrev pub Ascending : List Port → Type 0
Ascending [] = Unit
Ascending (p ∷ ps) = AscendingFrom p ps

abbrev pub Among : Port → List Port → Type 0
Among p [] = ⊥
Among p (q ∷ qs) = (p ≡ q) ⊎ Among p qs

-- What the three parts of the proxy expose.
abbrev pub Exposes : Value → List Port → Type 0
Exposes deployment ports =
    (proxy : Value) × (hs : List Port) × (ls : List Port) × (us : List Port) × (get "proxy" empty
        deployment
      ≡ ok proxy)
    × (ports_of_hosts proxy ≡ ok hs)
    × (ports_of_listeners proxy ≡ ok ls)
    × (ports_of_upstreams proxy ≡ ok us)
    × ((x : Port) → Among x ports ↔ (Among x hs ⊎ (Among x ls ⊎ Among x us)))
