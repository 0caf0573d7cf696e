-- ===== src/Tasks/Tests.antt =====
-- A small platform, on which the theorems of the tasks are applied: the fleet reports one unit of
-- version v2, and every change of it succeeds.
mod Chains
mod Checks
use cluster_deployer.Common.{
  eq_refl, ℕ, ◌<◌, ◌≤◌, ◌*◌, ◌/◌, String, ◌≡◌, refl, true, false, ◌⊎◌, Option, none, some, List, [],
  ◌∷◌, length, str_eq, All, arith,
}
use cluster_deployer.Common.Result.{ok}
use cluster_deployer.Conf.{blue_green, red_green}
use cluster_deployer.Value.{str, obj, end, field}
use cluster_deployer.Services.Lock.{Lock, lock_key}
use cluster_deployer.Services.Lock.Laws.{lock_of, Updates}
use cluster_deployer.Services.Lock.Tests.{put, memory, service, start}
use cluster_deployer.Services.Proxy.{
  ProxyConfig, HostConfig, UpstreamConfig, ProxyError, wire_proxy, register_upstreams,
}
use cluster_deployer.Services.Proxy.Names.{Names}
use cluster_deployer.Services.Storage.Collection.{keep}
use cluster_deployer.Services.Storage.Memory.{list_db}
use cluster_deployer.Services.Storage.Memory.Tests.{store, store-AreDeployments}
use cluster_deployer.Services.Storage.Mongo.{update_state}
use cluster_deployer.Services.Storage.Mongo.States.{entries_of}
use cluster_deployer.Tasks.Platform.{Platform, FleetUnit, Template, is_started}
use cluster_deployer.Tasks.Canvas.{
  Deployment, Sig, Sigs, nil, next, chain, async_wait, promote_success,
}
use cluster_deployer.Tasks.Exceptions.{TaskError, node_check_failed, proxy_error}
use cluster_deployer.Tasks.Monad.{World, returned, raised, ◌>>◌}
use cluster_deployer.Tasks.Failure.Released.{error_run, error_run_releases}
use cluster_deployer.Services.Storage.Mongo.Kept.{is_promoted_app}
use cluster_deployer.Tasks.Rules.{Passes}
use cluster_deployer.Tasks.Fleet.{
  check_interval, fleet_undeploy_task, fleet_check_deploy_task, wait_for_stop_task,
  wait_for_undeploy_task,
}
use cluster_deployer.Tasks.Fleet.Waits.{
  next_list, Reported, Sends, AllStopped, wait_for_undeploy_gate,
}
use cluster_deployer.Tasks.Fleet.Undeploy.{UndeployEnds, fleet_undeploy_exact}
use cluster_deployer.Tasks.Start.{TaskSettings, number, text, start_deployment_task}
use cluster_deployer.Tasks.Start.Limit.{started_count, start_bound}
use cluster_deployer.Tasks.Locking.{using_lock_task}
use cluster_deployer.Tasks.Locking.Released.{last, SendsReleased, using_lock_exact}
use cluster_deployer.Tasks.Promote.{
  promote_deployment_task, pre_create_undeploy_task, promote_success_task,
}
use cluster_deployer.Tasks.Promote.Chains.{
  AllSpare, SendsUndeploy, SendsNext, after_calls, promote_deployment_exact,
  pre_create_undeploy_exact,
}
use cluster_deployer.Tasks.Promote.Single.{OnlyPromoted, promotion_leaves_one}
use cluster_deployer.Tasks.Create.{create_task, fleet_start_and_wait_task}
use cluster_deployer.Tasks.Create.Sent.{SendsStarts, IsCreated}
use cluster_deployer.Tasks.Check.{get_discovered_nodes, check_discover_task, check_deployment_task}
use cluster_deployer.Tasks.Check.Gates.{ChecksOrGoesOn, check_deployment_exact}

abbrev pub unit : FleetUnit
unit = record {
  unit = "web-v2-1.service";
  machine = "10.0.0.1";
  active = "active";
  sub = "running";
}

abbrev pub upstream_name : String → String → Option String → String
upstream_name app port none = app
upstream_name app port (some v) = v

abbrev pub small : Platform
small = record {
  mongo = list_db;
  cluster_name = "local";
  Cluster = List FleetUnit;
  undeploy = λ name version exclude c. (ok tt, []);
  stop = λ name version exclude c. (ok tt, c);
  deploy = λ d c. (ok tt, unit ∷ c);
  start_units = λ d c. (ok tt, c);
  filter_units = λ name version exclude c. ok c;
  as_upstream = upstream_name;
  get_nodes = λ u c. ("node1", "10.0.0.1:8080") ∷ [];
  get_nodes_with_meta = λ u c. [];
  call_proxy = λ call c. c;
  decrypt_config = λ v profile. v;
  urlopen = λ url timeout c. ok tt;
}

abbrev pub world : World small memory
world = record { store = store; cluster = unit ∷ []; locks = start; sent = [] }

abbrev pub clock : ℕ → ℕ
clock n = n

abbrev pub template : Template
template = record { name = "default-app"; enabled = true; args = obj end }

abbrev pub host : HostConfig
host = record {
  enabled = none;
  hostname = "web.example.com, www.example.com";
  locations =
      record {
        key = "home";
        port = "8080";
        path = "/";
        allowed_acls = none;
        denied_acls = none;
        force_ssl = none;
      }
      ∷ [];
}

abbrev pub proxy : ProxyConfig
proxy = record { hosts = host ∷ []; listeners = [] }

abbrev pub upstreams : List UpstreamConfig
upstreams =
    record {
      port = "8080";
      mode = none;
      health_uri = none;
      health_timeout = none;
      health_interval = none;
      ttl = none;
    }
    ∷ []

abbrev pub web : Deployment
web = record {
  id = "d2";
  name = "web";
  version = "v2";
  nodes = 1;
  mode = blue_green;
  min_nodes = none;
  check_port = some "8080";
  check_path = some "/health";
  attempts = 3;
  check_timeout = "5s";
  stop_timeout = "30s";
  stop_check_retries = 10;
  templates = ("app", template) ∷ [];
  schedule = none;
  upstreams = upstreams;
  hosts_and_listeners = proxy;
  proxy = obj end;
  security_profile = "default";
  document = obj (field "id" (str "d2") end);
}

abbrev pub settings : TaskSettings
settings = record { concurrency = number 3; retries = 60; retry_delay = 60 }

abbrev pub wait : Sig
wait = async_wait 60 240

abbrev pub found_nodes : List (String × String)
found_nodes = ("node1", "10.0.0.1:8080") ∷ []

-- the world with the lock of the application held
abbrev pub web_lock : Lock
web_lock = lock_of service "web" "uuid-1"

abbrev pub locked_world : World small memory
locked_world = record world { locks = put web_lock.key (some web_lock.value) start }

pub web_lock_held : locked_world.locks web_lock.key ≡ some web_lock.value
web_lock_held = rw eq_refl refl

abbrev pub failed_check : TaskError
failed_check = node_check_failed "http://10.0.0.1:8080/health" "Connection refused" 3
