-- ===== src/Tasks/Runs/Weaken.antt =====
-- What is safe with some facts is safe with more.
use cluster_deployer.Common.{Bool, true, false, ◌⊎◌, inl, inr, str_eq}
use cluster_deployer.Conf.{blue_green}
use cluster_deployer.Tasks.Canvas.{
  Deployment, Sig, Sigs, Next, nothing, next, nil, cons, create, start_deployment,
  pre_create_undeploy, register_upstreams, deploy_all, fleet_deploy, fleet_start_and_wait,
  fleet_start, fleet_check_deploy, check_discover, check_deployment, check_node,
  deployment_check_passed, promote_deployment, promote_success, fleet_stop, wait_for_stop,
  fleet_undeploy, wait_for_undeploy, using_lock, release_lock, async_wait, deployment_error_event,
  notify, joined, chain, chord, linked,
}
use cluster_deployer.Tasks.Promote.{
  Before, version_only, all_versions, no_undeploy, undeployed_before,
}
use cluster_deployer.Tasks.Runs.Facts.{
  Fact, Cleared, Retired, ReadyToDeploy, ReadyToPromote, Safe, SafeNext, SafeChain, SafeEach,
}

abbrev pub Weaker : (Fact → Type 0) → (Fact → Type 0) → Type 0
Weaker P Q = (x : Fact) → P x → Q x

-- facts that are added on both sides
pub Weaker-or : (P Q A : Fact → Type 0) → Weaker P Q → Weaker (λ x. P x ⊎ A x) (λ x. Q x ⊎ A x)
Weaker-or P Q A h x (inl a) = inl (h x a)
Weaker-or P Q A h x (inr b) = inr b

Cleared-mono :
    (P Q : Fact → Type 0)
    → Weaker P Q
    → (b : Before) (d : Deployment) → Cleared P b d
    → Cleared Q b d
Cleared-mono P Q h version_only d a = h _ a
Cleared-mono P Q h all_versions d a = h _ a
Cleared-mono P Q h no_undeploy d a = tt

Retired-mono :
    (P Q : Fact → Type 0) → Weaker P Q → (b : Bool) (d : Deployment) → Retired P b d → Retired Q b d
Retired-mono P Q h true d a = h _ a
Retired-mono P Q h false d a = tt

pub ReadyToDeploy-mono :
    (P Q : Fact → Type 0) → Weaker P Q → (d : Deployment) → ReadyToDeploy P d → ReadyToDeploy Q d
ReadyToDeploy-mono P Q h d (l, a, b) =
    (h _ l, h _ a, Cleared-mono P Q h (undeployed_before d.mode) d b)

pub ReadyToPromote-mono :
    (P Q : Fact → Type 0) → Weaker P Q → (d : Deployment) → ReadyToPromote P d → ReadyToPromote Q d
ReadyToPromote-mono P Q h d (a, b, c) = (ReadyToDeploy-mono P Q h d a, h _ b, h _ c)

mutual
  pub Safe-mono : (P Q : Fact → Type 0) → Weaker P Q → (s : Sig) → Safe P s → Safe Q s
  Safe-mono P Q h (promote_success d f) (a, b) =
      (ReadyToPromote-mono P Q h d a, Retired-mono P Q h (str_eq d.mode blue_green) d b)
  Safe-mono P Q h (promote_deployment d f) a = ReadyToPromote-mono P Q h d a
  Safe-mono P Q h (pre_create_undeploy d f n) (a, b) =
      (h _ a, SafeNext-mono _ _ (Weaker-or P Q _ h) n b)
  Safe-mono P Q h (deploy_all d f n) (a, b) =
      (ReadyToDeploy-mono P Q h d a, SafeNext-mono _ _ (Weaker-or P Q _ h) n b)
  Safe-mono P Q h (fleet_start_and_wait d f n) (a, b) =
      (ReadyToDeploy-mono P Q h d a, SafeNext-mono _ _ (Weaker-or P Q _ h) n b)
  Safe-mono P Q h (fleet_check_deploy name version service_cnt m f n) a =
      SafeNext-mono _ _ (Weaker-or P Q _ h) n a
  Safe-mono P Q h (check_deployment path attempts timeout f n) a = SafeNext-mono P Q h n a
  Safe-mono P Q h (deployment_check_passed f n) a = SafeNext-mono P Q h n a
  Safe-mono P Q h (using_lock f name t es) (a, b) =
      (Safe-mono _ _ (Weaker-or P Q _ h) t a, SafeChain-mono _ _ (Weaker-or P Q _ h) es b)
  Safe-mono P Q h (joined s t) (a, b) = (Safe-mono P Q h s a, Safe-mono _ _ (Weaker-or P Q _ h) t b)
  Safe-mono P Q h (chain ts) a = SafeChain-mono P Q h ts a
  Safe-mono P Q h (chord header body) (a, b) =
      (SafeEach-mono P Q h header a, Safe-mono P Q h body b)
  Safe-mono P Q h (linked t ls es) (a, b, c) =
      (Safe-mono P Q h t a, SafeChain-mono P Q h ls b, SafeChain-mono P Q h es c)
  Safe-mono P Q h (create v) a = tt
  Safe-mono P Q h (start_deployment id) a = tt
  Safe-mono P Q h (register_upstreams name version us mode f) a = tt
  Safe-mono P Q h (fleet_deploy f name version nodes service_type t profile) a = h _ a
  Safe-mono P Q h (fleet_start f name version nodes service_type t) a = h _ a
  Safe-mono P Q h (check_discover name version port m mode f) a = tt
  Safe-mono P Q h (check_node node path attempts timeout) a = tt
  Safe-mono P Q h (fleet_stop name version exclude_version countdown) a = h _ a
  Safe-mono P Q h (wait_for_stop name version exclude_version timeout retries f) a = tt
  Safe-mono P Q h (fleet_undeploy name version exclude_version ignore_error) a = h _ a
  Safe-mono P Q h (wait_for_undeploy name version exclude_version f) a = tt
  Safe-mono P Q h (release_lock lock) a = tt
  Safe-mono P Q h (async_wait delay retries) a = tt
  Safe-mono P Q h (deployment_error_event d f) a = tt
  Safe-mono P Q h (notify n level d) a = tt

  pub SafeNext-mono : (P Q : Fact → Type 0) → Weaker P Q → (n : Next) → SafeNext P n → SafeNext Q n
  SafeNext-mono P Q h nothing a = tt
  SafeNext-mono P Q h (next s) a = Safe-mono P Q h s a

  pub SafeChain-mono :
      (P Q : Fact → Type 0) → Weaker P Q → (ts : Sigs) → SafeChain P ts → SafeChain Q ts
  SafeChain-mono P Q h nil a = tt
  SafeChain-mono P Q h (cons t ts) (a, b) =
      (Safe-mono P Q h t a, SafeChain-mono _ _ (Weaker-or P Q _ h) ts b)

  pub SafeEach-mono :
      (P Q : Fact → Type 0) → Weaker P Q → (ts : Sigs) → SafeEach P ts → SafeEach Q ts
  SafeEach-mono P Q h nil a = tt
  SafeEach-mono P Q h (cons t ts) (a, b) = (Safe-mono P Q h t a, SafeEach-mono P Q h ts b)
