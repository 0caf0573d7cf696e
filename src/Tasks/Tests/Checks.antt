-- ===== src/Tasks/Tests/Checks.antt =====
-- The theorems on waits, checks and the proxy, on the small platform.
use cluster_deployer.Common.{◌≡◌, refl, none, some, [], ◌⊎◌, true, false}
use cluster_deployer.Conf.{red_green}
use cluster_deployer.Value.{end, field, str}
use cluster_deployer.Util.Text.{codes}
use cluster_deployer.Tasks.Exceptions.{
  message, to_dict, error_dict, min_nodes_not_running, invalid_interval, key_error,
}
use cluster_deployer.Tasks.Failure.{as_dict, register_upstreams_task}
use cluster_deployer.Services.Lock.Tests.{memory}
use cluster_deployer.Tasks.Promote.Wired.{WiresNames, promotion_wires_version}
use cluster_deployer.Tasks.Promote.{promote_deployment_task}
use cluster_deployer.Tasks.Canvas.{Deployment, next}
use cluster_deployer.Tasks.Create.{template_of, deploy_all_task}
use cluster_deployer.Tasks.Create.Deployed.{SendsDeploys, deploy_all_exact}
use cluster_deployer.Tasks.Monad.{returned, raised}
use cluster_deployer.Tasks.Platform.{Template}
use cluster_deployer.Tasks.Check.{check_deployment_task}
use cluster_deployer.Tasks.Check.Gates.{ChecksOrGoesOn, check_deployment_exact}
use cluster_deployer.Tasks.Tests.{web, small, world, clock, upstreams, wait, found_nodes}

check_deployment_exact_example :
    ChecksOrGoesOn small memory clock found_nodes
      (some "/health")
      3
      "5s"
      end
      (next wait)
      world
      (check_deployment_task small memory clock found_nodes
        (some "/health")
        3
        "5s"
        end
        (next wait)
        world).1
check_deployment_exact_example =
    check_deployment_exact small memory clock found_nodes (some "/health") 3 "5s" end (next wait)
      world

-- the deployment with another mode
abbrev red : Deployment
red = record web { mode = red_green }

promotion_wires_version_example :
    WiresNames small memory clock "web"
      (some "v2")
      world
      (promote_deployment_task small memory clock red end world).1
    × WiresNames small memory clock "web" none world
        (register_upstreams_task small memory clock "web" "v2" upstreams red_green end world).1
promotion_wires_version_example =
    promotion_wires_version small memory clock red end world world refl

-- an interval that is none, as the event of a failed deployment shows it
bad_interval_shown :
    as_dict "" (invalid_interval (record { interval = codes "5x" }))
    ≡ error_dict "INVALID_INTERVAL"
        "Invalid interval specified:5x. Interval should match format: ^\\s*(\\d+)(ms|h|m|s|d|w)\\s*$"
        (field "interval" (str "5x") end)
unfolding to_dict
bad_interval_shown = refl

too_few_units :
    message "" (min_nodes_not_running "web" "v2" 12 [])
    ≡ "Minimum of 12 units for application:web version:v2 were not found in running state."
unfolding message
too_few_units = refl

deploy_all_exact_example :
    ((template_of "app" web.templates ≡ none)
      × (deploy_all_task small memory clock web end (next wait) world
          ≡ (raised (key_error (record { key = "app" })), world)))
    ⊎ ((t : Template) × (template_of "app" web.templates ≡ some t)
        × (((t.enabled ≡ false)
              × (deploy_all_task small memory clock web end (next wait) world
                  ≡ (returned tt, world)))
            ⊎ ((t.enabled ≡ true)
                × ((deploy_all_task small memory clock web end (next wait) world).0 ≡ returned tt)
                × SendsDeploys small memory clock web end
                    (next wait)
                    world
                    (deploy_all_task small memory clock web end (next wait) world).1)))
deploy_all_exact_example = deploy_all_exact small memory clock web end (next wait) world
