-- ===== src/Tasks/Runs/Tests/Promotions.antt =====
-- A whole run of a blue-green deployment, from `create` until it is marked as promoted.
use cluster_deployer.Common.{◌≡◌, refl, none, List, [], ◌∷◌, ◌++◌, str_eq}
use cluster_deployer.Conf.{blue_green}
use cluster_deployer.Util.Interval.{to_milliseconds}
use cluster_deployer.Util.Merge.{merge, or_empty}
use cluster_deployer.Value.{end, get_field, set_field, truthy}
use cluster_deployer.Services.Lock.{apply_lock, lock_key}
use cluster_deployer.Services.Lock.Tests.{memory, service}
use cluster_deployer.Services.Proxy.{wire_proxy}
use cluster_deployer.Services.Storage.Mongo.{
  create_deployment, update_state, update_state_bulk, filter_deployments, add_event,
}
use cluster_deployer.Tasks.Canvas.{chain, nil, cons, promote_success}
use cluster_deployer.Tasks.Create.{create_task, deploy_all_task, fleet_start_and_wait_task}
use cluster_deployer.Tasks.Check.{
  check_discover_task, check_deployment_task, check_node_task, deployment_check_passed_task,
}
use cluster_deployer.Tasks.Failure.{register_upstreams_task}
use cluster_deployer.Tasks.Fleet.{
  fleet_deploy_task, fleet_start_task, fleet_stop_task, wait_for_stop_task, fleet_undeploy_task,
  wait_for_undeploy_task, fleet_check_deploy_task,
}
use cluster_deployer.Tasks.Locking.{using_lock_task}
use cluster_deployer.Tasks.Promote.{pre_create_undeploy_task, promote_deployment_task}
use cluster_deployer.Tasks.Runs.{MayRun, here, in_chain}
use cluster_deployer.Tasks.Runs.Dispatch.{dispatch}
use cluster_deployer.Tasks.Runs.Facts.{ReadyToPromote, Retired}
use cluster_deployer.Tasks.Runs.Gated.{success_waits}
use cluster_deployer.Tasks.Runs.Past.{Past}
use cluster_deployer.Tasks.Runs.Player.{Turn, Played, play}
use cluster_deployer.Tasks.Start.{start_deployment_task}
use cluster_deployer.Tasks.Tests.{small, world, clock, web, settings}
use cluster_deployer.Tasks.Runs.Tests.{empty, at_place, begun, others}

-- the turns of the deployment until its promotion
abbrev turns : List (Turn small memory clock clock settings service)
turns =
    at_place 0 empty
    ∷ at_place 1 empty
    ∷ at_place 1 empty
    ∷ at_place 1 empty
    ∷ at_place 2 empty
    ∷ at_place 2 empty
    ∷ at_place 2 empty
    ∷ at_place 2 empty
    ∷ at_place 2 empty
    ∷ at_place 2 empty
    ∷ at_place 2 empty
    ∷ at_place 2 empty
    ∷ at_place 2 empty
    ∷ at_place 2 world
    ∷ at_place 2 world
    ∷ at_place 2 world
    ∷ at_place 2 world
    ∷ at_place 2 world
    ∷ []

abbrev deployed : Played small memory clock clock settings service
deployed = play small memory clock clock settings service turns begun

-- the turns from the promotion until it is marked, with the other versions gone
abbrev retired : Played small memory clock clock settings service
retired =
    play small memory clock clock settings service
      (at_place 2 world
        ∷ at_place 2 empty
        ∷ at_place 2 empty
        ∷ at_place 2 empty
        ∷ at_place 2 empty
        ∷ [])
      deployed

retired_waiting : retired.0.waiting ≡ others ++ chain (cons (promote_success web end) nil) ∷ []
unfolding play dispatch create_task create_deployment add_event get_field set_field merge or_empty
    truthy using_lock_task apply_lock lock_key start_deployment_task update_state filter_deployments
    pre_create_undeploy_task fleet_stop_task wait_for_stop_task to_milliseconds fleet_undeploy_task
    update_state_bulk wait_for_undeploy_task register_upstreams_task deploy_all_task
    fleet_deploy_task fleet_start_and_wait_task fleet_start_task fleet_check_deploy_task
    check_discover_task check_deployment_task check_node_task deployment_check_passed_task
    promote_deployment_task wire_proxy
retired_waiting = refl

succeeds : MayRun retired.0 (promote_success web end)
succeeds = record {
  before = others;
  behind = [];
  signature = chain (cons (promote_success web end) nil);
  rest = none;
  rescue = [];
  waits = retired_waiting;
  focus = in_chain here;
}

success_waits_example :
    ReadyToPromote (Past small memory clock clock settings service retired.0.returned) web
    × Retired
        (Past small memory clock clock settings service retired.0.returned)
        (str_eq web.mode blue_green)
        web
success_waits_example =
    success_waits small memory clock clock settings service web end retired.0 retired.1 succeeds
