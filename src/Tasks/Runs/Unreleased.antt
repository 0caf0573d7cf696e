-- ===== src/Tasks/Runs/Unreleased.antt =====
-- What becomes of the tasks on an error of a deployment where its units cannot be undeployed.
use cluster_deployer.Common.{ℕ, String, none, some, List, true}
use cluster_deployer.Services.Lock.{Lock, LockService}
use cluster_deployer.Services.Lock.EtcdClient.{Etcd}
use cluster_deployer.Tasks.Canvas.{
  Sig, nil, cons, chain, fleet_undeploy, release_lock, Deployment, append_sig,
}
use cluster_deployer.Value.{Fields}
use cluster_deployer.Tasks.Create.{create_error_tasks}
use cluster_deployer.Tasks.Platform.{Platform}
use cluster_deployer.Tasks.Runs.{System, fresh}
use cluster_deployer.Tasks.Monad.{World}
use cluster_deployer.Tasks.Start.{TaskSettings}

-- what is left of the tasks on an error once the failure is stored
abbrev pub clean_up : (name version : String) → Lock → Sig
clean_up name version lock =
    chain (cons (fleet_undeploy name (some version) none true) (cons (release_lock lock) nil))

-- the tasks on an error of a deployment, with the release of its lock
abbrev pub error_run : Deployment → Fields → Lock → Sig
error_run d f lock = chain (append_sig (create_error_tasks d f) (release_lock lock))

module _ (p : Platform) (e : Etcd) (now now_event : ℕ → ℕ) (settings : TaskSettings)
    (service : LockService) where
  -- the world that an undeploy with an exception leaves
  abbrev left_by_undeploy : (name version : String) → System p e → World p e
  left_by_undeploy name version y = record (fresh y.world) {
    cluster = (p.undeploy name (some version) none y.world.cluster).1;
  }
