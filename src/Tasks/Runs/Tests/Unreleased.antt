-- ===== src/Tasks/Runs/Tests/Unreleased.antt =====
-- The tasks on an error where the hosts of the units cannot be reached.
use cluster_deployer.Common.{false, some, [], ◌∷◌}
use cluster_deployer.Common.Result.{err}
use cluster_deployer.Value.{end}
use cluster_deployer.Services.Lock.Tests.{memory, put, start}
use cluster_deployer.Tasks.Platform.{Platform, retryable}
use cluster_deployer.Tasks.Runs.{System}
use cluster_deployer.Tasks.Runs.Dispatch.{Input}
use cluster_deployer.Tasks.Runs.Unreleased.{error_run}
use cluster_deployer.Tasks.Tests.{small, web, web_lock, unit}
use cluster_deployer.Services.Storage.Memory.Tests.{store}
use cluster_deployer.Tasks.Runs.Tests.{input}

abbrev unreachable : Platform
unreachable = record small { undeploy = λ name version exclude c. (err (retryable "ssh"), []) }

abbrev last_try : Input
last_try = record input { retries_left = false }

abbrev failed_system : System unreachable memory
failed_system = record {
  world = record {
    store = store;
    cluster = unit ∷ [];
    locks = put web_lock.key (some web_lock.value) start;
    sent = [];
  };
  waiting = error_run web end web_lock ∷ [];
  returned = [];
}
