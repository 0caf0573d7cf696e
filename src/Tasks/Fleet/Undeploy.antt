-- ===== src/Tasks/Fleet/Undeploy.antt =====
-- `_fleet_undeploy`: when the deployments of an application are marked as decommissioned.
use mathlib.Core.Logic.{◌≢◌}
use cluster_deployer.Common.{
  none, ℕ, String, ◌≡◌, refl, Bool, true, false, ◌⊎◌, inl, inr, Option, some,
}
use cluster_deployer.Common.Result.{Result, ok, err}
use cluster_deployer.Conf.{state_decommissioned, state_promoted}
use cluster_deployer.Services.Lock.EtcdClient.{Etcd}
use cluster_deployer.Services.Storage.Mongo.{update_state_bulk, MongoStore}
use cluster_deployer.Tasks.Platform.{Fault, retryable, Platform, other}
use cluster_deployer.Tasks.Exceptions.{fleet_fault}
use cluster_deployer.Tasks.Monad.{
  Outcome, returned, retry, raised, World, pure, raise, change_store,
}
use cluster_deployer.Tasks.Rules.{fleet_call_cases}
use cluster_deployer.Tasks.Fleet.{fleet_undeploy_task}

module _ (p : Platform) (e : Etcd) (now : ℕ → ℕ) where
  -- the mark on the promoted deployments of the name, and of the version if one is given
  abbrev pub decommission : String → Option String → MongoStore p.mongo → MongoStore p.mongo
  decommission name version =
      update_state_bulk p.mongo p.cluster_name now name state_decommissioned (some state_promoted)
        version

  -- An undeploy that goes on: the provider has undeployed, or has failed with an exception that is none to
  -- retry, where errors are ignored.
  abbrev pub Undeployed : Bool → Result Fault (Unit {0}) → Type 0
  Undeployed ignore_error r =
      (r ≡ ok tt) ⊎ ((ignore_error ≡ true) × ((x : String) × (r ≡ err (other x))))

  -- How an undeploy ends, by the answer of the provider and the cluster that the provider leaves.
  abbrev pub UndeployEnds :
      String
      → (version exclude_version : Option String) → Bool
      → World p e
      → Outcome (Unit {0}) × World p e
      → Type 0
  UndeployEnds name version exclude_version ignore_error w (returned u, w') =
      Undeployed ignore_error (p.undeploy name version exclude_version w.cluster).0
      × (w' ≡ record w {
        cluster = (p.undeploy name version exclude_version w.cluster).1;
        store = decommission name version w.store;
      })
  UndeployEnds name version exclude_version ignore_error w (retry f n c, w') =
      ((x : String) × ((p.undeploy name version exclude_version w.cluster).0 ≡ err (retryable x))
        × (f ≡ fleet_fault (retryable x)))
      × (w' ≡ record w { cluster = (p.undeploy name version exclude_version w.cluster).1 })
  UndeployEnds name version exclude_version ignore_error w (raised f, w') =
      ((x : String) × ((p.undeploy name version exclude_version w.cluster).0 ≡ err (other x))
        × (f ≡ fleet_fault (other x))
        × (ignore_error ≡ false))
      × (w' ≡ record w { cluster = (p.undeploy name version exclude_version w.cluster).1 })

  -- `_fleet_undeploy` returns where the provider has undeployed, or has failed with an exception that is
  -- none to retry and errors are ignored; it has then marked as decommissioned the promoted deployments of
  -- the name, and of the version if one is given. It asks for a retry where the exception of the provider
  -- is one to retry, whether errors are ignored or not, and raises any other where errors are not ignored;
  -- then it has marked no deployment. The cluster is in each case the one that the provider leaves, also
  -- after an exception; nothing is sent, and the locks are as before.
  pub fleet_undeploy_exact :
      (name : String) (version exclude_version : Option String) (ignore_error : Bool)
      (w : World p e)
      → UndeployEnds name version exclude_version ignore_error w
          (fleet_undeploy_task p e now name version exclude_version ignore_error w)
  unfolding fleet_undeploy_task
  fleet_undeploy_exact name version exclude_version true w =
      fleet_call_cases (UndeployEnds name version exclude_version true w) w
        (p.undeploy name version exclude_version) (λ f. pure tt)
        (λ _. change_store (decommission name version)) (λ q. (inl q, refl))
        (λ x q. ((x, q, refl), refl)) (λ x q. (inr (refl, (x, q)), refl))
  fleet_undeploy_exact name version exclude_version false w =
      fleet_call_cases (UndeployEnds name version exclude_version false w) w
        (p.undeploy name version exclude_version) (λ f. raise (fleet_fault f))
        (λ _. change_store (decommission name version)) (λ q. (inl q, refl))
        (λ x q. ((x, q, refl), refl)) (λ x q. ((x, q, refl, refl), refl))

  -- An undeploy that ignores errors returns if the provider reports none to retry.
  abbrev pub IsUndeployed : String → String → World p e → Outcome (Unit {0}) × World p e → Type 0
  IsUndeployed name version w r =
      (w' : World p e) × (r ≡ (returned tt, w'))
      × (w'.store ≡ decommission name (some version) w.store)
      × (w'.locks ≡ w.locks)

  pub undeploy_returns :
      (name version : String) (w : World p e)
      → ((x : String) → (p.undeploy name (some version) none w.cluster).0 ≢ err (retryable x))
      → IsUndeployed name version w (fleet_undeploy_task p e now name (some version) none true w)
  unfolding fleet_undeploy_task
  undeploy_returns name version w h =
      fleet_call_cases (IsUndeployed name version w) w (p.undeploy name (some version) none)
        (λ f. pure tt) (λ _. change_store (decommission name (some version)))
        (λ q. (_, refl, refl, refl)) (λ x q. absurd (h x q)) (λ x q. (_, refl, refl, refl))
