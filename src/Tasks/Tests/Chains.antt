-- ===== src/Tasks/Tests/Chains.antt =====
-- The theorems on starting, promoting, undeploying and locking, on the small platform.
use cluster_deployer.Common.{
  ◌<◌, ◌≤◌, ◌≡◌, refl, true, false, ◌⊎◌, none, some, [], ◌∷◌, str_eq, All,
}
use cluster_deployer.Conf.{blue_green, red_green}
use cluster_deployer.Value.{end}
use cluster_deployer.Common.Result.{ok, err}
use cluster_deployer.Services.Deployment.Defaults.Tests.{web_with_defaults}
use cluster_deployer.Services.Lock.{lock_key}
use cluster_deployer.Services.Lock.Laws.{lock_of, Updates}
use cluster_deployer.Services.Lock.Tests.{memory, service, start}
use cluster_deployer.Services.Proxy.{ProxyError}
use cluster_deployer.Services.Storage.Memory.{list_db}
use cluster_deployer.Services.Storage.Memory.Tests.{store, store-AreDeployments}
use cluster_deployer.Services.Storage.Mongo.States.{entries_of}
use cluster_deployer.Tasks.Canvas.{Deployment, Sigs, nil, next, chain, promote_success}
use cluster_deployer.Tasks.Exceptions.{proxy_error}
use cluster_deployer.Tasks.Monad.{World, returned, raised, ◌>>◌}
use cluster_deployer.Tasks.Failure.Released.{error_run, error_run_releases}
use cluster_deployer.Services.Storage.Mongo.Kept.{is_promoted_app}
use cluster_deployer.Tasks.Rules.{Passes, Ends}
use cluster_deployer.Tasks.Fleet.{fleet_undeploy_task}
use cluster_deployer.Tasks.Fleet.Undeploy.{UndeployEnds, fleet_undeploy_exact}
use cluster_deployer.Tasks.Start.{start_deployment_task}
use cluster_deployer.Tasks.Start.Limit.{started_count, start_bound}
use cluster_deployer.Tasks.Locking.{using_lock_task}
use cluster_deployer.Tasks.Locking.Released.{last, SendsReleased, AsksAgain, using_lock_exact}
use cluster_deployer.Tasks.Promote.{
  promote_deployment_task, pre_create_undeploy_task, promote_success_task,
}
use cluster_deployer.Tasks.Promote.Chains.{
  AllSpare, calls_end, SendsUndeploy, SendsNext, after_calls, promote_deployment_exact,
  pre_create_undeploy_exact,
}
use cluster_deployer.Tasks.Promote.Single.{OnlyPromoted, promotion_leaves_one}
use cluster_deployer.Tasks.Tests.{
  small, world, clock, web, settings, wait, web_lock, locked_world, web_lock_held, failed_check,
}

promotion_leaves_one_example :
    Ends
      (λ w'. (w'.store ≡ store) × (w'.sent ≡ []) × (w'.locks ≡ start))
      (λ _ w'. All (OnlyPromoted "local" "web" "d2") (entries_of list_db w'.store))
      ((fleet_undeploy_task small memory clock "web" none (some "v2") false
          >> promote_success_task small memory clock clock web end)
        world)
promotion_leaves_one_example =
    promotion_leaves_one small memory clock clock web end world store-AreDeployments

using_lock_exact_example :
    Passes
      (λ _ w'.
        (start (lock_key service "web") ≡ none)
        × Updates memory start w'.locks (lock_key service "web") (some "uuid-1")
        × SendsReleased (lock_of service "web" "uuid-1") wait [] w'.sent
        × (w'.cluster ≡ world.cluster))
      world
      (using_lock_task small memory clock service "uuid-1" end "web" wait nil nil world)
    × AsksAgain small memory clock
        (lock_of service "web" "uuid-1")
        start
        (using_lock_task small memory clock service "uuid-1" end "web" wait nil nil world)
using_lock_exact_example =
    using_lock_exact small memory clock service "uuid-1" end "web" wait nil nil world

fleet_undeploy_exact_example :
    UndeployEnds small memory clock "web" none
      (some "v2")
      false
      world
      (fleet_undeploy_task small memory clock "web" none (some "v2") false world)
fleet_undeploy_exact_example =
    fleet_undeploy_exact small memory clock "web" none (some "v2") false world

promote_deployment_exact_example :
    ((promote_deployment_task small memory clock web end world).1.cluster
      ≡ after_calls small memory clock web world.cluster)
    × ((promote_deployment_task small memory clock web end world).1.locks ≡ start)
    × (((calls_end small memory clock web ≡ ok tt)
          × ((promote_deployment_task small memory clock web end world).0 ≡ returned tt)
          × ((tasks : Sigs) × ((promote_deployment_task small memory clock web end world).1.sent
                ≡ chain tasks ∷ [])
              × AllSpare "v2" tasks
              × (last tasks ≡ next (promote_success web end))))
        ⊎ ((x : ProxyError) × (calls_end small memory clock web ≡ err x)
            × ((promote_deployment_task small memory clock web end world).0
                ≡ raised (proxy_error x))
            × ((promote_deployment_task small memory clock web end world).1.store ≡ store)
            × ((promote_deployment_task small memory clock web end world).1.sent ≡ [])))
promote_deployment_exact_example = promote_deployment_exact small memory clock web end world

pre_create_undeploy_exact_example :
    ((str_eq blue_green blue_green ≡ true)
      × SendsUndeploy small memory clock "web"
          (some "v2")
          end
          (next wait)
          world
          (pre_create_undeploy_task small memory clock web end (next wait) world).1)
    ⊎ (((str_eq blue_green blue_green ≡ false)
          × (str_eq blue_green red_green ≡ true)
          × SendsUndeploy small memory clock "web" none end
              (next wait)
              world
              (pre_create_undeploy_task small memory clock web end (next wait) world).1)
        ⊎ ((str_eq blue_green blue_green ≡ false)
            × (str_eq blue_green red_green ≡ false)
            × SendsNext small memory clock
                (next wait)
                world
                (pre_create_undeploy_task small memory clock web end (next wait) world).1))
pre_create_undeploy_exact_example =
    pre_create_undeploy_exact small memory clock web end (next wait) world

start_bound_example :
    Passes
      (λ _ w'.
        (started_count small memory clock store < 3)
        × (started_count small memory clock w'.store ≤ 3))
      world
      (start_deployment_task small memory clock settings "d2" world)
start_bound_example = start_bound small memory clock settings 2 "d2" world refl store-AreDeployments

-- the deployment that gets its defaults, as the tasks read it
abbrev created_web : Deployment
created_web = record web { id = "local-web-v1"; version = "v1"; document = web_with_defaults }

error_run_releases_example :
    (w' : World small memory) × (error_run small memory clock clock failed_check
        "Deployment check failed" web end web_lock locked_world
      ≡ (returned true, w'))
    × Updates memory locked_world.locks w'.locks web_lock.key none
    × All (λ en. is_promoted_app "local" "web" (some "v2") en ≡ false) (entries_of list_db w'.store)
error_run_releases_example =
    error_run_releases small memory clock clock failed_check "Deployment check failed" web end
      web_lock locked_world store-AreDeployments web_lock_held (λ x h. cc)
