-- ===== src/Tasks/Runs/Dispatch.antt =====
-- A worker that takes a signature: the task of deployer/tasks/deployment.py that it names is run with
-- the arguments that it holds.
use cluster_deployer.Common.{ℕ, String, Bool, false, if◌then◌else◌, List}
use cluster_deployer.Value.{Fields}
use cluster_deployer.Services.Lock.{LockService}
use cluster_deployer.Services.Lock.EtcdClient.{Etcd}
use cluster_deployer.Tasks.Canvas.{
  Deployment, Sig, nil, create, start_deployment, pre_create_undeploy, register_upstreams,
  deploy_all, fleet_deploy, fleet_start_and_wait, fleet_start, fleet_check_deploy, check_discover,
  check_deployment, check_node, deployment_check_passed, promote_deployment, promote_success,
  fleet_stop, wait_for_stop, fleet_undeploy, wait_for_undeploy, using_lock, release_lock,
  async_wait, deployment_error_event, notify, joined, chain, chord, linked,
}
use cluster_deployer.Tasks.Check.{
  check_discover_task, check_deployment_task, check_node_task, deployment_check_passed_task,
}
use cluster_deployer.Tasks.Create.{create_task, deploy_all_task, fleet_start_and_wait_task}
use cluster_deployer.Tasks.Exceptions.{TaskError}
use cluster_deployer.Tasks.Failure.{register_upstreams_task, deployment_error_event_task}
use cluster_deployer.Tasks.Fleet.{
  fleet_deploy_task, fleet_start_task, fleet_check_deploy_task, fleet_stop_task, wait_for_stop_task,
  fleet_undeploy_task, wait_for_undeploy_task,
}
use cluster_deployer.Tasks.Locking.{using_lock_task, release_lock_task}
use cluster_deployer.Tasks.Monad.{World, Outcome, returned, retry, raised}
use cluster_deployer.Tasks.Platform.{Platform}
use cluster_deployer.Tasks.Promote.{
  pre_create_undeploy_task, promote_deployment_task, promote_success_task,
}
use cluster_deployer.Tasks.Start.{TaskSettings, start_deployment_task}

-- how the run of a task ends
pub data Ended : Type 0 where
  done : Ended
  again : Ended
  failed : Ended

-- What a run takes from outside its signature: the result of the task before it, the value of a new
-- lock, the deployment that `apply_defaults` makes of the argument of `create`, whether a retry is left,
-- and how a task ends that does not touch the world.
pub record Input : Type 0 where
  pub nodes : List (String × String)
  pub error : TaskError
  pub error_text : String
  pub lock_value : String
  pub deployment : Deployment
  pub search_params : Fields
  pub retries_left : Bool
  pub outside : Ended

-- A retry when none is left is a failure.
abbrev pub ended : {A : Type 0} → Input → Outcome A → Ended
ended i (returned a) = done
ended i (retry x n c) = if i.retries_left then again else failed
ended i (raised x) = failed

abbrev pub end_of : {A W : Type 0} → Input → Outcome A × W → Ended × W
end_of i (r, w) = (ended i r, w)

module _ (p : Platform) (e : Etcd) (now now_event : ℕ → ℕ) (settings : TaskSettings)
    (service : LockService) where
  -- `create` makes a deployment of its argument. `_async_wait` and `notify` end in any way. A composed
  -- signature is no task, and is left for another time.
  unfoldable pub dispatch : Input → Sig → World p e → Ended × World p e
  dispatch i (create v) w = end_of i (create_task p e now now_event i.deployment i.search_params w)
  dispatch i (start_deployment id) w = end_of i (start_deployment_task p e now settings id w)
  dispatch i (pre_create_undeploy d f n) w = end_of i (pre_create_undeploy_task p e now d f n w)
  dispatch i (register_upstreams name version us mode f) w =
      end_of i (register_upstreams_task p e now name version us mode f w)
  dispatch i (deploy_all d f n) w = end_of i (deploy_all_task p e now d f n w)
  dispatch i (fleet_deploy f name version nodes service_type t profile) w =
      end_of i (fleet_deploy_task p e now f name version nodes service_type t profile w)
  dispatch i (fleet_start_and_wait d f n) w = end_of i (fleet_start_and_wait_task p e now d f n w)
  dispatch i (fleet_start f name version nodes service_type t) w =
      end_of i (fleet_start_task p e now f name version nodes service_type t w)
  dispatch i (fleet_check_deploy name version service_cnt m f n) w =
      end_of i (fleet_check_deploy_task p e now name version service_cnt m f n w)
  dispatch i (check_discover name version port m mode f) w =
      end_of i (check_discover_task p e now name version port m mode f w)
  dispatch i (check_deployment path attempts timeout f n) w =
      end_of i (check_deployment_task p e now i.nodes path attempts timeout f n w)
  dispatch i (check_node node path attempts timeout) w =
      end_of i (check_node_task p e now node path attempts timeout w)
  dispatch i (deployment_check_passed f n) w = end_of i (deployment_check_passed_task p e now f n w)
  dispatch i (promote_deployment d f) w = end_of i (promote_deployment_task p e now d f w)
  dispatch i (promote_success d f) w = end_of i (promote_success_task p e now now_event d f w)
  dispatch i (fleet_stop name version exclude_version countdown) w =
      end_of i (fleet_stop_task p e now name version exclude_version false w)
  dispatch i (wait_for_stop name version exclude_version timeout retries f) w =
      end_of i (wait_for_stop_task p e now name version exclude_version timeout retries f w)
  dispatch i (fleet_undeploy name version exclude_version ignore_error) w =
      end_of i (fleet_undeploy_task p e now name version exclude_version ignore_error w)
  dispatch i (wait_for_undeploy name version exclude_version f) w =
      end_of i (wait_for_undeploy_task p e now name version exclude_version f w)
  dispatch i (using_lock f name do_task error_tasks) w =
      end_of i (using_lock_task p e now service i.lock_value f name do_task nil error_tasks w)
  dispatch i (release_lock lock) w = end_of i (release_lock_task p e now lock w)
  dispatch i (deployment_error_event d f) w =
      end_of i (deployment_error_event_task p e now now_event i.error i.error_text d f w)
  dispatch i (async_wait delay retries) w = (i.outside, w)
  dispatch i (notify n level d) w = (i.outside, w)
  dispatch i (joined a b) w = (again, w)
  dispatch i (chain ts) w = (again, w)
  dispatch i (chord header body) w = (again, w)
  dispatch i (linked t link link_error) w = (again, w)
