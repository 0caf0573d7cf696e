-- ===== src/Tasks/Start.antt =====
-- `_start_deployment` of deployer/tasks/deployment.py, with the limit on deployments that are started
-- at the same time.
pub mod Limit
use cluster_deployer.Common.{
  ℕ, zero, suc, String, Bool, true, false, not, ◌&&◌, Option, none, some, length, leb, ltb, str_eq,
  if◌then◌else◌, [],
}
use cluster_deployer.Conf.{state_started}
use cluster_deployer.Services.Lock.EtcdClient.{Etcd}
use cluster_deployer.Services.Storage.Mongo.{MongoStore, Query, filter_deployments, update_state}
use cluster_deployer.Tasks.Platform.{Platform}
use cluster_deployer.Tasks.Exceptions.{max_start_concurrency_reached}
use cluster_deployer.Tasks.Monad.{World, Task, try_again, change_store}

-- `os.getenv('START_CONCURRENCY', 3)`: the number 3, or the text of the environment variable
pub data Setting : Type 0 where
  number : ℕ → Setting
  text : String → Setting

abbrev pub start_concurrency : Option String → Setting
start_concurrency none = number 3
start_concurrency (some t) = text t

-- the entries of `TASK_SETTINGS` that the task reads
pub record TaskSettings : Type 0 where
  pub concurrency : Setting
  pub retries : ℕ
  pub retry_delay : ℕ

-- the truth of a setting
abbrev pub is_set : Setting → Bool
is_set (number n) = ltb 0 n
is_set (text t) = not (str_eq t "")

-- `setting > n` and `n >= setting`, as Python 2 compares them: every number comes before every text.
abbrev pub above : Setting → ℕ → Bool
above (number m) n = ltb n m
above (text t) n = true

abbrev pub at_least : ℕ → Setting → Bool
at_least n (number m) = leb m n
at_least n (text t) = false

-- `if concurrency and concurrency > 0`, and `used_concurrency >= concurrency`
abbrev pub limit_reached : Setting → ℕ → Bool
limit_reached concurrency used =
    (is_set concurrency && above concurrency 0) && at_least used concurrency

-- the limit as the exception shows it
abbrev pub shown : Setting → ℕ
shown (number n) = n
shown (text t) = 0

-- the arguments of `filter_deployments` here
abbrev pub started : Query
started = record {
  name = none;
  version = none;
  only_running = true;
  only_ids = true;
  state = some state_started;
  exclude_names = [];
}

module _ (p : Platform) (e : Etcd) (now : ℕ → ℕ) where
  abbrev pub used_concurrency : MongoStore p.mongo → ℕ
  used_concurrency s = length (filter_deployments p.mongo p.cluster_name started s)

  -- `_start_deployment`
  unfoldable pub start_deployment_task : TaskSettings → String → Task (World p e) (Unit {0})
  start_deployment_task settings deployment_id w =
      (if limit_reached settings.concurrency (used_concurrency w.store)
          then try_again
              (max_start_concurrency_reached (shown settings.concurrency)
                (used_concurrency w.store))
              (some settings.retries) (some settings.retry_delay)
          else change_store (update_state p.mongo now deployment_id state_started))
        w
