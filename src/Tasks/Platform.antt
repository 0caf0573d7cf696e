-- ===== src/Tasks/Platform.antt =====
-- What the tasks of deployer/tasks/deployment.py use and do not implement: the fleet provider and its
-- deployer, the yoda proxy, the check request, and the settings of the process. The functions of the
-- fleet library may raise; which exceptions are worth a retry is RETRYABLE_FLEET_EXCEPTIONS.
use cluster_deployer.Common.{ℕ, String, Bool, Option, List, ◌||◌, map}
use cluster_deployer.Common.Result.{Result}
use cluster_deployer.Value.{Value}
use cluster_deployer.Services.Proxy.{Call}
use cluster_deployer.Services.Storage.Collection.{MongoDb}
pub use cluster_deployer.Util.Text.{codes, lower, same_codes}

-- an exception of the fleet library: one of RETRYABLE_FLEET_EXCEPTIONS, or another
pub data Fault : Type 0 where
  retryable : String → Fault
  other : String → Fault

-- a unit, as `filter_units` reports it
pub record FleetUnit : Type 0 where
  pub unit : String
  pub machine : String
  pub active : String
  pub sub : String

-- a template of a deployment
pub record Template : Type 0 where
  pub name : String
  pub enabled : Bool
  pub args : Value

-- the arguments of `fleet.deploy.deployer.Deployment`
pub record FleetDeployment : Type 0 where
  pub name : String
  pub version : String
  pub template : String
  pub nodes : ℕ
  pub template_args : Value
  pub service_type : String
  pub timer : Bool

pub record Platform : Type 1 where
  pub mongo : MongoDb
  pub cluster_name : String
  -- the state of the cluster and its proxy
  pub Cluster : Type 0
  -- Calls that change the cluster: the result, and the cluster that the call leaves. A call that raises may
  -- have changed some of the units before.
  pub undeploy :
      String → Option String → Option String → Cluster → Result Fault (Unit {0}) × Cluster
  pub stop : String → Option String → Option String → Cluster → Result Fault (Unit {0}) × Cluster
  pub deploy : FleetDeployment → Cluster → Result Fault (Unit {0}) × Cluster
  pub start_units : FleetDeployment → Cluster → Result Fault (Unit {0}) × Cluster
  pub filter_units :
      String → Option String → Option String → Cluster → Result Fault (List FleetUnit)
  pub as_upstream : String → String → Option String → String
  -- `get_nodes` of the yoda client
  pub get_nodes : String → Cluster → List (String × String)
  -- `get_nodes_with_meta` of the yoda client
  pub get_nodes_with_meta : String → Cluster → List (String × Value)
  -- a call of the yoda client that changes the proxy
  pub call_proxy : Call → Cluster → Cluster
  -- `decrypt_obj` of the encryption library, with the store and the passphrase of the settings
  pub decrypt_config : Value → String → Value
  -- `urllib2.urlopen(url, None, timeout)`, with the reason of an `IOError` or `HTTPException`
  pub urlopen : String → (timeout : ℕ) → Cluster → Result String (Unit {0})

-- `unit['sub'].lower() in FLEET_STARTED_STATES`
abbrev pub is_started : FleetUnit → Bool
is_started u =
    let sub = map lower (codes u.sub) in
    same_codes sub (codes "running") || same_codes sub (codes "waiting")
