-- ===== src/Services/Deployment/Ports/Tests.antt =====
-- The theorems of the ports at a few ports.
use cluster_deployer.Common.{◌≡◌, refl, ◌⊎◌, ◌↔◌, List, [], ◌∷◌, map, foldl}
use cluster_deployer.Common.Result.{ok}
use cluster_deployer.Conf.Defaults.{empty, one}
use cluster_deployer.Services.Deployment.Ports.{
  Port, no_port, number, text, sorted_set, int_of, collect,
}
use cluster_deployer.Services.Deployment.Ports.Sorted.{Among}
use cluster_deployer.Services.Deployment.Upstreams.{set_default}
use cluster_deployer.Services.Deployment.Upstreams.ReadBack.{read_ports, added_ports_read_back}
use cluster_deployer.Value.{Value, num, obj, Fields, end, field}

abbrev ports : List Port
ports = number 8080 ∷ text "http" ∷ number 443 ∷ no_port ∷ number 8080 ∷ []

ports_in_order : sorted_set ports ≡ no_port ∷ number 443 ∷ number 8080 ∷ text "http" ∷ []
unfolding sorted_set
ports_in_order = refl

abbrev upstreams : Fields
upstreams = field "443" empty end

upstreams_read : read_ports upstreams ≡ ok (number 443 ∷ [])
unfolding collect int_of
upstreams_read = refl

added_ports_read_back_example :
    (rs : List Port) × (read_ports (foldl set_default upstreams (map number (443 ∷ 8080 ∷ [])))
      ≡ ok rs)
    × ((x : Port)
        → Among x rs ↔ (Among x (number 443 ∷ []) ⊎ Among x (map number (443 ∷ 8080 ∷ []))))
added_ports_read_back_example =
    added_ports_read_back (443 ∷ 8080 ∷ []) upstreams (number 443 ∷ []) upstreams_read

abbrev deployment : Value
deployment = one "proxy" (
    obj (
      field "hosts" (one "web" (one "locations" (one "home" (one "port" (num 8080))))) (
        field "listeners" (one "tcp" (one "upstream-port" (num 22)))
          (field "upstreams" (one "8080" empty) end))))
