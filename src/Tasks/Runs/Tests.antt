-- ===== src/Tasks/Runs/Tests.antt =====
-- A deployment on the small platform, for the theorems on all runs.
mod Promotions
mod Locks
mod Unreleased
use cluster_deployer.Common.{ℕ, ◌≡◌, refl, true, false, none, some, List, [], ◌∷◌, ◌++◌, str_eq}
use cluster_deployer.Conf.{blue_green, level_started}
use cluster_deployer.Util.Interval.{to_milliseconds}
use cluster_deployer.Util.Merge.{merge, or_empty}
use cluster_deployer.Value.{null, end, get_field, set_field, truthy}
use cluster_deployer.Services.Lock.{apply_lock, lock_key}
use cluster_deployer.Services.Lock.Tests.{memory, service, start}
use cluster_deployer.Services.Lock.Laws.{lock_of}
use cluster_deployer.Services.Proxy.{wire_proxy}
use cluster_deployer.Services.Storage.Mongo.{
  create_deployment, update_state, update_state_bulk, filter_deployments, add_event,
}
use cluster_deployer.Tasks.Canvas.{
  start_deployment, pre_create_undeploy, using_lock, message, Sig, next, joined, chain,
  fleet_undeploy, wait_for_undeploy, register_upstreams, deploy_all, check_discover,
  check_deployment, create, notify, nil, cons, release_lock, append_sig, promote_deployment,
  promote_success, linked,
}
use cluster_deployer.Tasks.Create.{
  create_tasks, min_nodes_of, create_error_tasks, create_task, deploy_all_task,
  fleet_start_and_wait_task,
}
use cluster_deployer.Tasks.Check.{
  check_discover_task, check_deployment_task, check_node_task, deployment_check_passed_task,
}
use cluster_deployer.Tasks.Failure.{register_upstreams_task}
use cluster_deployer.Tasks.Fleet.{
  fleet_deploy_task, fleet_start_task, fleet_stop_task, wait_for_stop_task, fleet_undeploy_task,
  wait_for_undeploy_task, fleet_check_deploy_task,
}
use cluster_deployer.Tasks.Locking.{wait_for_deployment, using_lock_task}
use cluster_deployer.Tasks.Monad.{World}
use cluster_deployer.Tasks.Promote.{followed_by, pre_create_undeploy_task, promote_deployment_task}
use cluster_deployer.Tasks.Runs.{
  System, Focus, in_joined, in_linked, runs, after_run, fresh, drifts, MayRun, starts, goes_on,
  creates, here, in_chain,
}
use cluster_deployer.Tasks.Runs.Dispatch.{Input, done, dispatch}
use cluster_deployer.Tasks.Runs.Facts.{locked, ReadyToPromote, Retired}
use cluster_deployer.Tasks.Runs.Gated.{success_waits, units_change_after_lock}
use cluster_deployer.Tasks.Runs.Released.{IsRemembered, stays, steps, lock-IsRemembered}
use cluster_deployer.Tasks.Runs.Past.{Past}
use cluster_deployer.Tasks.Runs.Player.{Turn, Played, play}
use cluster_deployer.Tasks.Start.{start_deployment_task}
use cluster_deployer.Tasks.Tests.{
  web_lock, small, world, clock, web, settings, found_nodes, failed_check,
}

abbrev pub input : Input
input = record {
  nodes = found_nodes;
  error = failed_check;
  error_text = "";
  lock_value = "uuid-1";
  deployment = web;
  search_params = end;
  retries_left = true;
  outside = done;
}

-- no unit, and no deployment
abbrev pub empty : World small memory
empty = record {
  store = record { deployments = []; events = [] };
  cluster = [];
  locks = start;
  sent = [];
}

abbrev pub at_place : ℕ → World small memory → Turn small memory clock clock settings service
at_place k w = record { at = k; input = input; world = w }

abbrev pub begun : Played small memory clock clock settings service
begun = (
  record { world = empty; waiting = create null ∷ []; returned = [] },
  goes_on (starts empty) (creates null refl),
)

-- what waits besides the deployment's own tasks: a notification, and the wait with the release
abbrev pub others : List Sig
others =
    notify (message "Started provisioning") level_started web
    ∷ linked wait_for_deployment (cons (release_lock web_lock) nil)
        (append_sig (create_error_tasks web end) (release_lock web_lock))
    ∷ []

-- the tasks of the deployment after the undeploy
abbrev pub deploys : Sig
deploys = joined (register_upstreams web.name web.version web.upstreams web.mode end) (
    deploy_all web end (
      next (
        joined (check_discover web.name web.version web.check_port (min_nodes_of web) web.mode end)
          (check_deployment web.check_path web.attempts web.check_timeout end
            (next (promote_deployment web end))))))
