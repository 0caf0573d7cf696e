-- ===== src/Tasks/Runs/Facts.antt =====
-- What a signature needs to have happened before its tasks run, for the deployments in
-- deployer/tasks/deployment.py, and what the return of a task shows.
use cluster_deployer.Common.{
  ℕ, String, Bool, true, false, if◌then◌else◌, ◌≡◌, ◌⊎◌, Option, none, some, length, str_eq,
}
use cluster_deployer.Conf.{blue_green}
use cluster_deployer.Tasks.Canvas.{
  Deployment, Sig, Sigs, Next, nothing, next, nil, cons, fleet_stop, fleet_undeploy, fleet_deploy,
  fleet_start, start_deployment, pre_create_undeploy, deploy_all, fleet_start_and_wait,
  fleet_check_deploy, check_discover, check_deployment, deployment_check_passed, promote_deployment,
  promote_success, wait_for_undeploy, using_lock, joined, chain, chord, linked,
}
use cluster_deployer.Tasks.Create.{min_nodes_of, enabled_templates}
use cluster_deployer.Tasks.Promote.{
  Before, version_only, all_versions, no_undeploy, undeployed_before,
}

-- what a task shows by its return
pub data Fact : Type 0 where
  locked : (name : String) → Fact
  started : (deployment_id : String) → Fact
  undeployed : (name : String) (version exclude_version : Option String) → Fact
  running : (name version : String) (service_cnt min_nodes : ℕ) → Fact
  discovered :
      (name version : String) (check_port : Option String) (min_nodes : ℕ) (mode : String) → Fact

abbrev pub Shows : Sig → Fact → Type 0
Shows (using_lock f name t es) x = x ≡ locked name
Shows (start_deployment id) x = x ≡ started id
Shows (wait_for_undeploy name version exclude_version f) x =
    x ≡ undeployed name version exclude_version
Shows (fleet_check_deploy name version service_cnt m f n) x = x ≡ running name version service_cnt m
Shows (check_discover name version port m mode f) x = x ≡ discovered name version port m mode
Shows _ x = ⊥

-- the facts, and those that the task shows
abbrev pub WithTask : (Fact → Type 0) → Sig → Fact → Type 0
WithTask P s x = P x ⊎ Shows s x

-- the number of services that `_fleet_start_and_wait` starts, with the schedule of the deployment
abbrev pub services_for : Deployment → (schedule : Option String) → ℕ
services_for d none = length (enabled_templates d)
services_for d (some s) = if str_eq s "" then length (enabled_templates d) else 1

abbrev pub service_count : Deployment → ℕ
service_count d = services_for d d.schedule

abbrev pub running_of : Deployment → Fact
running_of d = running d.name d.version (service_count d) (min_nodes_of d)

abbrev pub discovered_of : Deployment → Fact
discovered_of d = discovered d.name d.version d.check_port (min_nodes_of d) d.mode

-- what is undeployed before a deployment, for its mode
abbrev pub UndeployedFor : Before → Deployment → Fact → Type 0
UndeployedFor version_only d x = x ≡ undeployed d.name (some d.version) none
UndeployedFor all_versions d x = x ≡ undeployed d.name none none
UndeployedFor no_undeploy d x = ⊥

abbrev pub Cleared : (Fact → Type 0) → Before → Deployment → Type 0
Cleared P version_only d = P (undeployed d.name (some d.version) none)
Cleared P all_versions d = P (undeployed d.name none none)
Cleared P no_undeploy d = Unit

-- the other versions of a blue-green deployment are undeployed before it is marked as promoted
abbrev pub Retired : (Fact → Type 0) → (is_blue_green : Bool) → Deployment → Type 0
Retired P true d = P (undeployed d.name none (some d.version))
Retired P false d = Unit

abbrev pub ReadyToDeploy : (Fact → Type 0) → Deployment → Type 0
ReadyToDeploy P d = P (locked d.name) × P (started d.id) × Cleared P (undeployed_before d.mode) d

abbrev pub ReadyToPromote : (Fact → Type 0) → Deployment → Type 0
ReadyToPromote P d = ReadyToDeploy P d × P (running_of d) × P (discovered_of d)

-- `Safe P s`: with the facts `P`, and those that its own tasks show, the tasks of `s` and the signatures
-- that they hold run only when what they need has happened.
abbrev mutual
  pub Safe : (Fact → Type 0) → Sig → Type 0
  Safe P (promote_success d f) = ReadyToPromote P d × Retired P (str_eq d.mode blue_green) d
  Safe P (promote_deployment d f) = ReadyToPromote P d
  Safe P (fleet_stop name version exclude_version countdown) = P (locked name)
  Safe P (fleet_undeploy name version exclude_version ignore_error) = P (locked name)
  Safe P (fleet_deploy f name version nodes service_type t profile) = P (locked name)
  Safe P (fleet_start f name version nodes service_type t) = P (locked name)
  Safe P (pre_create_undeploy d f n) =
      P (locked d.name) × SafeNext (λ x. P x ⊎ UndeployedFor (undeployed_before d.mode) d x) n
  Safe P (deploy_all d f n) = ReadyToDeploy P d × SafeNext (λ x. P x ⊎ (x ≡ running_of d)) n
  Safe P (fleet_start_and_wait d f n) =
      ReadyToDeploy P d × SafeNext (λ x. P x ⊎ (x ≡ running_of d)) n
  Safe P (fleet_check_deploy name version service_cnt m f n) =
      SafeNext (λ x. P x ⊎ (x ≡ running name version service_cnt m)) n
  Safe P (check_deployment path attempts timeout f n) = SafeNext P n
  Safe P (deployment_check_passed f n) = SafeNext P n
  Safe P (using_lock f name do_task error_tasks) =
      Safe (λ x. P x ⊎ (x ≡ locked name)) do_task
      × SafeChain (λ x. P x ⊎ (x ≡ locked name)) error_tasks
  Safe P (joined a b) = Safe P a × Safe (WithTask P a) b
  Safe P (chain ts) = SafeChain P ts
  Safe P (chord header body) = SafeEach P header × Safe P body
  Safe P (linked t link link_error) = Safe P t × SafeChain P link × SafeChain P link_error
  Safe P _ = Unit

  pub SafeNext : (Fact → Type 0) → Next → Type 0
  SafeNext P nothing = Unit
  SafeNext P (next s) = Safe P s

  -- one after the other
  pub SafeChain : (Fact → Type 0) → Sigs → Type 0
  SafeChain P nil = Unit
  SafeChain P (cons t ts) = Safe P t × SafeChain (WithTask P t) ts

  -- in any order
  pub SafeEach : (Fact → Type 0) → Sigs → Type 0
  SafeEach P nil = Unit
  SafeEach P (cons t ts) = Safe P t × SafeEach P ts
