-- ===== src/Tasks/Sync/Tests.antt =====
-- The theorems of the synchronisation jobs on the small platform.
use cluster_deployer.Common.{ℕ, String, none, []}
use cluster_deployer.Services.Lock.Laws.{lock_of}
use cluster_deployer.Services.Lock.Tests.{memory, service}
use cluster_deployer.Services.Deployment.Formatting.{decimal}
use cluster_deployer.Tasks.Exceptions.{TaskError}
use cluster_deployer.Value.{Value}
use cluster_deployer.Tasks.Sync.{
  job_service, sync_promoted_units_task, sync_promoted_upstreams_task, RecoveryParams,
}
use cluster_deployer.Tasks.Sync.Released.{RunsLocked, sync_jobs_release}
use cluster_deployer.Tasks.Tests.{small, world, clock}

abbrev failure_text : TaskError → String
failure_text x = "failed"

sync_jobs_release_example :
    RunsLocked small memory
      (lock_of (job_service service) "sync" "uuid-1")
      world
      (sync_promoted_units_task small memory clock failure_text service "uuid-1" "sync" world)
    × RunsLocked small memory
        (lock_of (job_service service) "sync" "uuid-1")
        world
        (sync_promoted_upstreams_task small memory clock failure_text service "uuid-1" "sync" world)
sync_jobs_release_example =
    sync_jobs_release small memory clock failure_text service "uuid-1" "sync" world

abbrev params : RecoveryParams
params = record { state = none; name = none; version = none; exclude_names = [] }

abbrev uuid : ℕ → String
uuid i = decimal i
