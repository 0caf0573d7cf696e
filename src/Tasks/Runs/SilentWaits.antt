-- ===== src/Tasks/Runs/SilentWaits.antt =====
-- The waits and the checks of nodes send nothing.
use cluster_deployer.Common.{
  ℕ, String, inl, inr, Option, none, some, List, [], ◌∷◌, Bool-cases, ltb, length, ◌/◌,
}
use cluster_deployer.Common.Result.{Result, ok, err, Result-cases}
use cluster_deployer.Services.Lock.EtcdClient.{Etcd}
use cluster_deployer.Services.Lock.{Lock}
use cluster_deployer.Services.Storage.Collection.{keep}
use cluster_deployer.Util.Interval.{to_milliseconds, InvalidInterval}
use cluster_deployer.Value.{Fields}
use cluster_deployer.Tasks.Canvas.{Sig}
use cluster_deployer.Tasks.Check.{
  check_discover_task, get_discovered_nodes, request_node, check_node_task, check_url,
}
use cluster_deployer.Tasks.Fleet.{
  undeployed_or_retry, wait_for_undeploy_task, stopped_or_retry, check_stopped, wait_for_stop_task,
  is_active, check_interval, retries_or_default, timeout_or_default,
}
use cluster_deployer.Tasks.Locking.{release_lock_task}
use cluster_deployer.Tasks.Monad.{fetch_units}
use cluster_deployer.Tasks.Platform.{Platform, FleetUnit, codes}
use cluster_deployer.Tasks.Runs.Sends.{SendsOnly, bind-SendsOnly, fetch_units-SendsOnly}
use cluster_deployer.Tasks.Runs.Silent.{IsSilent}

module _ (p : Platform) (e : Etcd) (now : ℕ → ℕ) where
  undeployed_or_retry-IsSilent :
      (name : String) (version exclude_version : Option String) (f : Fields)
      (units : List FleetUnit)
      → IsSilent p e now (undeployed_or_retry p e now name version exclude_version f units)
  undeployed_or_retry-IsSilent name version exclude_version f [] R Q w h = h
  undeployed_or_retry-IsSilent name version exclude_version f (u ∷ us) R Q w h = h

  pub wait_for_undeploy-IsSilent :
      (name : String) (version exclude_version : Option String) (f : Fields)
      → IsSilent p e now (wait_for_undeploy_task p e now name version exclude_version f)
  unfolding wait_for_undeploy_task
  wait_for_undeploy-IsSilent name version exclude_version f R Q =
      bind-SendsOnly R Q (fetch_units name version exclude_version)
        (undeployed_or_retry p e now name version exclude_version f)
        (fetch_units-SendsOnly R Q name version exclude_version)
        (λ units. undeployed_or_retry-IsSilent name version exclude_version f units R Q)

  stopped_or_retry-IsSilent :
      (name : String) (version exclude_version : Option String) (n interval : ℕ) (f : Fields)
      (units active : List FleetUnit)
      → IsSilent p e now
          (stopped_or_retry p e now name version exclude_version n interval f units active)
  stopped_or_retry-IsSilent name version exclude_version n interval f units [] R Q w h = h
  stopped_or_retry-IsSilent name version exclude_version n interval f units (u ∷ us) R Q w h = h

  check_stopped-IsSilent :
      (name : String) (version exclude_version : Option String) (n : ℕ) (f : Fields)
      (timeout : Result InvalidInterval ℕ)
      → IsSilent p e now (check_stopped p e now name version exclude_version n f timeout)
  check_stopped-IsSilent name version exclude_version n f (err x) R Q w h = h
  check_stopped-IsSilent name version exclude_version n f (ok ms) R Q w h =
      bind-SendsOnly R Q (fetch_units name version exclude_version)
        (λ units.
          stopped_or_retry p e now name version exclude_version n (check_interval ms n) f units
            (keep is_active units))
        (fetch_units-SendsOnly R Q name version exclude_version)
        (λ units.
          stopped_or_retry-IsSilent name version exclude_version n (check_interval ms n) f units
            (keep is_active units) R Q)
        w h

  pub wait_for_stop-IsSilent :
      (name : String) (version exclude_version timeout : Option String) (retries : Option ℕ)
      (f : Fields)
      → IsSilent p e now (wait_for_stop_task p e now name version exclude_version timeout retries f)
  unfolding wait_for_stop_task
  wait_for_stop-IsSilent name version exclude_version timeout retries f =
      check_stopped-IsSilent name version exclude_version (retries_or_default retries) f
        (to_milliseconds (codes (timeout_or_default timeout)))

  pub check_discover-IsSilent :
      (name version : String) (port : Option String) (m : ℕ) (mode : String) (f : Fields)
      → IsSilent p e now (check_discover_task p e now name version port m mode f)
  unfolding check_discover_task
  check_discover-IsSilent name version none m mode f R Q w h = h
  check_discover-IsSilent name version (some port) m mode f R Q w h =
      elim (Bool-cases
        (ltb (length (get_discovered_nodes p e now name version port mode w.cluster)) m)) [
          | inl q ↦ rw q h
          | inr q ↦ rw q h
        ]

  request_node-IsSilent :
      (url : String) (attempts : ℕ) (timeout : Result InvalidInterval ℕ)
      → IsSilent p e now (request_node p e now url attempts timeout)
  request_node-IsSilent url attempts (err x) R Q w h = h
  request_node-IsSilent url attempts (ok ms) R Q w h =
      elim (Result-cases (p.urlopen url (ms / 1000) w.cluster)) [
        | inl (x, q) ↦ rw (q, request_node) h
        | inr (x, q) ↦ rw (q, request_node) h
      ]

  pub check_node-IsSilent :
      (node path : String) (attempts : ℕ) (timeout : String)
      → IsSilent p e now (check_node_task p e now node path attempts timeout)
  unfolding check_node_task
  check_node-IsSilent node path attempts timeout =
      request_node-IsSilent (check_url node path) attempts (to_milliseconds (codes timeout))

  -- the release changes the locks, and sends nothing
  pub release_lock-SendsOnly :
      (lock : Lock) (Q : Sig → Type 0)
      → SendsOnly (λ _. Unit {0}) Q (release_lock_task p e now lock)
  unfolding release_lock_task
  release_lock-SendsOnly lock Q w h = h
