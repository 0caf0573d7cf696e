-- ===== src/Tasks/Sync/Recovery.antt =====
-- `recover_cluster`: what it sends.
use cluster_deployer.Common.{ℕ, String, ◌+◌, ◌≡◌, ◌⊎◌, List, [], ◌∷◌}
use cluster_deployer.Common.Result.{err}
use cluster_deployer.Services.Deployment.Clone.{clone_deployment}
use cluster_deployer.Services.Deployment.Clone.Laws.{IsClone}
use cluster_deployer.Tasks.Platform.{Platform}
use cluster_deployer.Value.{Value, Fields, obj}
use cluster_deployer.Value.Access.{Access, AccessError}

-- One clone of each deployment, in order, each under a job id of its own.
abbrev pub AreClones : (uuid : ℕ → String) → ℕ → List Fields → List Value → Type 0
AreClones uuid i [] [] = Unit
AreClones uuid i (d ∷ ds) (v ∷ vs) = IsClone (uuid i) (obj d) v × AreClones uuid (i + 1) ds vs
AreClones uuid i _ _ = ⊥

-- One of the deployments cannot be cloned, with that exception, under the job id that it would have.
abbrev pub CannotClone : (uuid : ℕ → String) → ℕ → List Fields → AccessError → Type 0
CannotClone uuid i [] x = ⊥
CannotClone uuid i (d ∷ ds) x =
    (clone_deployment (uuid i) (obj d) ≡ err x) ⊎ CannotClone uuid (i + 1) ds x
