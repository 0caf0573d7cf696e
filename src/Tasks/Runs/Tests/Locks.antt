-- ===== src/Tasks/Runs/Tests/Locks.antt =====
-- The lock of a deployment: the first changes of units, and the run after it is taken.
use cluster_deployer.Common.{◌≢◌, ◌≡◌, refl, false, none, some, [], ◌∷◌, ◌++◌}
use cluster_deployer.Conf.{level_started}
use cluster_deployer.Util.Interval.{to_milliseconds}
use cluster_deployer.Util.Merge.{merge, or_empty}
use cluster_deployer.Value.{end, get_field, set_field, truthy}
use cluster_deployer.Services.Lock.{apply_lock, lock_key}
use cluster_deployer.Services.Lock.Tests.{memory, service}
use cluster_deployer.Services.Lock.Laws.{lock_of}
use cluster_deployer.Services.Storage.Mongo.{
  create_deployment, update_state, update_state_bulk, filter_deployments, add_event,
}
use cluster_deployer.Tasks.Canvas.{
  start_deployment, pre_create_undeploy, using_lock, message, Sig, next, joined, chain,
  fleet_undeploy, wait_for_undeploy, notify, nil, cons, release_lock, append_sig, linked,
}
use cluster_deployer.Tasks.Create.{
  create_tasks, create_error_tasks, create_task, deploy_all_task, fleet_start_and_wait_task,
}
use cluster_deployer.Tasks.Check.{
  check_discover_task, check_deployment_task, check_node_task, deployment_check_passed_task,
}
use cluster_deployer.Tasks.Failure.{register_upstreams_task}
use cluster_deployer.Tasks.Fleet.{
  fleet_deploy_task, fleet_start_task, fleet_stop_task, wait_for_stop_task, fleet_undeploy_task,
  wait_for_undeploy_task, fleet_check_deploy_task,
}
use cluster_deployer.Tasks.Locking.{wait_for_deployment, using_lock_task}
use cluster_deployer.Tasks.Promote.{followed_by, pre_create_undeploy_task}
use cluster_deployer.Tasks.Runs.{
  end_in, System, Focus, in_joined, in_linked, runs, after_run, fresh, MayRun, here, in_chain,
}
use cluster_deployer.Tasks.Runs.Dispatch.{Input, done, dispatch}
use cluster_deployer.Tasks.Runs.Facts.{locked}
use cluster_deployer.Tasks.Runs.Gated.{units_change_after_lock}
use cluster_deployer.Tasks.Runs.Exclusive.{lock_excludes}
use cluster_deployer.Tasks.Runs.Exclusive
use cluster_deployer.Tasks.Runs.Released.{IsRemembered, stays, steps, lock-IsRemembered}
use cluster_deployer.Tasks.Runs.Past.{Past}
use cluster_deployer.Tasks.Runs.Player.{Played, play}
use cluster_deployer.Tasks.Start.{start_deployment_task}
use cluster_deployer.Tasks.Tests.{web_lock, small, clock, web, settings}
use cluster_deployer.Tasks.Runs.Tests.{input, empty, at_place, begun, others, deploys}

-- the turns until the units of the version are undeployed
abbrev locked_run : Played small memory clock clock settings service
locked_run =
    play small memory clock clock settings service
      (at_place 0 empty
        ∷ at_place 1 empty
        ∷ at_place 1 empty
        ∷ at_place 1 empty
        ∷ at_place 2 empty
        ∷ at_place 2 empty
        ∷ [])
      begun

-- what is left of the chain of `_pre_create_undeploy` then
abbrev undeploys : Sig
undeploys = chain (
    cons (fleet_undeploy "web" (some "v2") none false)
      (followed_by (wait_for_undeploy "web" (some "v2") none end) (next deploys)))

locked_run_waiting : locked_run.0.waiting ≡ others ++ undeploys ∷ []
unfolding play dispatch create_task create_deployment add_event get_field set_field merge or_empty
    truthy using_lock_task apply_lock lock_key start_deployment_task update_state filter_deployments
    pre_create_undeploy_task fleet_stop_task wait_for_stop_task to_milliseconds fleet_undeploy_task
    update_state_bulk wait_for_undeploy_task register_upstreams_task deploy_all_task
    fleet_deploy_task fleet_start_and_wait_task fleet_start_task fleet_check_deploy_task
    check_discover_task check_deployment_task check_node_task deployment_check_passed_task
locked_run_waiting = refl

undeploys_next : MayRun locked_run.0 (fleet_undeploy "web" (some "v2") none false)
undeploys_next = record {
  before = others;
  behind = [];
  signature = undeploys;
  rest = _;
  rescue = [];
  waits = locked_run_waiting;
  focus = in_chain here;
}

units_change_after_lock_example :
    Past small memory clock clock settings service locked_run.0.returned (locked "web")
units_change_after_lock_example =
    units_change_after_lock small memory clock clock settings service
      (fleet_undeploy "web" (some "v2") none false) "web" locked_run.0 refl locked_run.1
      undeploys_next

-- the system in which the lock is to be taken
abbrev created : Played small memory clock clock settings service
created = play small memory clock clock settings service (at_place 0 empty ∷ []) begun

abbrev using : Sig
using = using_lock end "web" (create_tasks web end) (create_error_tasks web end)

abbrev notified : Sig
notified = notify (message "Started provisioning") level_started web

created_waiting : created.0.waiting ≡ notified ∷ using ∷ []
unfolding play dispatch create_task create_deployment add_event get_field set_field merge or_empty
    truthy using_lock_task apply_lock lock_key start_deployment_task update_state filter_deployments
    pre_create_undeploy_task fleet_stop_task wait_for_stop_task to_milliseconds fleet_undeploy_task
    update_state_bulk wait_for_undeploy_task register_upstreams_task deploy_all_task
    fleet_deploy_task fleet_start_and_wait_task fleet_start_task fleet_check_deploy_task
    check_discover_task check_deployment_task check_node_task deployment_check_passed_task
created_waiting = refl

takes_lock : MayRun created.0 using
takes_lock = record {
  before = notified ∷ [];
  behind = [];
  signature = using;
  rest = none;
  rescue = [];
  waits = created_waiting;
  focus = here;
}

abbrev locked_system : System small memory
locked_system =
    after_run created.0 (notified ∷ []) [] using using none []
      (dispatch small memory clock clock settings service input using (fresh created.0.world))

takes_lock_done :
    (dispatch small memory clock clock settings service input using (fresh created.0.world)).0
    ≡ done
unfolding play dispatch create_task create_deployment add_event get_field set_field merge or_empty
    truthy using_lock_task apply_lock lock_key start_deployment_task update_state filter_deployments
    pre_create_undeploy_task fleet_stop_task wait_for_stop_task to_milliseconds fleet_undeploy_task
    update_state_bulk wait_for_undeploy_task register_upstreams_task deploy_all_task
    fleet_deploy_task fleet_start_and_wait_task fleet_start_task fleet_check_deploy_task
    check_discover_task check_deployment_task check_node_task deployment_check_passed_task
takes_lock_done = refl

-- what waits with the lock, before and after the start of the deployment
abbrev released_run : Sig → Sig
released_run task =
    linked (joined task wait_for_deployment) (cons (release_lock web_lock) nil)
      (append_sig (create_error_tasks web end) (release_lock web_lock))

locked_waiting : locked_system.waiting ≡ (notified ∷ []) ++ released_run (create_tasks web end) ∷ []
unfolding play dispatch create_task create_deployment add_event get_field set_field merge or_empty
    truthy using_lock_task apply_lock lock_key start_deployment_task update_state filter_deployments
    pre_create_undeploy_task fleet_stop_task wait_for_stop_task to_milliseconds fleet_undeploy_task
    update_state_bulk wait_for_undeploy_task register_upstreams_task deploy_all_task
    fleet_deploy_task fleet_start_and_wait_task fleet_start_task fleet_check_deploy_task
    check_discover_task check_deployment_task check_node_task deployment_check_passed_task
locked_waiting = refl

starts_next :
    Focus
      (released_run (create_tasks web end))
      (start_deployment "d2")
      (some (released_run (pre_create_undeploy web end (next deploys))))
      (chain (append_sig (create_error_tasks web end) (release_lock web_lock)) ∷ [])
starts_next = in_linked (in_joined (in_joined here))

abbrev started_system : System small memory
started_system =
    after_run locked_system (notified ∷ []) [] (released_run (create_tasks web end))
      (start_deployment "d2") (some (released_run (pre_create_undeploy web end (next deploys))))
      (chain (append_sig (create_error_tasks web end) (release_lock web_lock)) ∷ [])
      (dispatch small memory clock clock settings service input (start_deployment "d2")
        (fresh locked_system.world))

lock-IsRemembered_example : IsRemembered (lock_of service "web" "uuid-1") started_system
unfolding takes_lock dispatch
lock-IsRemembered_example =
    lock-IsRemembered small memory clock clock settings service input end "web"
      (create_tasks web end) (create_error_tasks web end) created.0 started_system takes_lock
      takes_lock_done
      (steps stays (runs input (notified ∷ []) [] locked_waiting starts_next refl) (λ h. absurd h))

-- another request for the application, while the first one holds the lock
abbrev second : Input
second = record input { lock_value = "uuid-2" }

lock_excludes_example :
    end_in small memory clock clock settings service second
      (using_lock end "web" deploys nil)
      started_system
    ≢ done
unfolding takes_lock dispatch
lock_excludes_example =
    lock_excludes small memory clock clock settings service input second end end "web"
      (create_tasks web end) deploys (create_error_tasks web end) nil created.0 started_system
      created.1 takes_lock takes_lock_done
      (Exclusive.steps Exclusive.stays
        (runs input (notified ∷ []) [] locked_waiting starts_next refl) (λ h. absurd h))
