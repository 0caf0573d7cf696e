-- ===== src/Tasks/Canvas.antt =====
-- The signatures that the tasks send to Celery: a constructor for each task of
-- deployer/tasks/deployment.py with the arguments that it is given, and the ways to join them.
use cluster_deployer.Common.{ℕ, String, Bool, Option, List, [], ◌∷◌}
use cluster_deployer.Value.{Value, Fields}
use cluster_deployer.Services.Lock.{Lock}
use cluster_deployer.Services.Proxy.{ProxyConfig, UpstreamConfig}
use cluster_deployer.Tasks.Exceptions.{TaskError}
use cluster_deployer.Tasks.Platform.{Template}

-- A deployment with its defaults applied: the entries of the dict that the tasks read, and the dict. `proxy`
-- is the entry `proxy` as it stands in events.
pub record Deployment : Type 0 where
  pub id : String
  pub name : String
  pub version : String
  pub nodes : ℕ
  pub mode : String
  pub min_nodes : Option ℕ
  pub check_port : Option String
  pub check_path : Option String
  pub attempts : ℕ
  pub check_timeout : String
  pub stop_timeout : String
  pub stop_check_retries : ℕ
  pub templates : List (String × Template)
  pub schedule : Option String
  pub upstreams : List UpstreamConfig
  pub hosts_and_listeners : ProxyConfig
  pub proxy : Value
  pub security_profile : String
  pub document : Value

-- the first argument of `notify`: `{'message': ...}`, or the exception that a task ended with
pub data Notice : Type 0 where
  message : String → Notice
  failure : TaskError → Notice

mutual
  pub data Sig : Type 0 where
    -- `create`, of a deployment without its defaults
    create : (deployment : Value) → Sig
    start_deployment : (deployment_id : String) → Sig
    pre_create_undeploy : Deployment → Fields → (next_task : Next) → Sig
    register_upstreams :
        (name version : String) (upstreams : List UpstreamConfig) (mode : String) → Fields → Sig
    deploy_all : Deployment → Fields → (next_task : Next) → Sig
    fleet_deploy :
        Fields
        → (name version : String) (nodes : ℕ) (service_type : String) → Template
        → (profile : String) → Sig
    fleet_start_and_wait : Deployment → Fields → (next_task : Next) → Sig
    fleet_start :
        Fields → (name version : String) (nodes : ℕ) (service_type : String) → Template → Sig
    fleet_check_deploy :
        (name version : String) (service_cnt min_nodes : ℕ) → Fields → (next_task : Next) → Sig
    check_discover :
        (name version : String) (check_port : Option String) (min_nodes : ℕ) (mode : String)
        → Fields
        → Sig
    check_deployment :
        (path : Option String) (attempts : ℕ) (timeout : String) → Fields → (next_task : Next) → Sig
    check_node : (node path : String) (attempts : ℕ) (timeout : String) → Sig
    deployment_check_passed : Fields → (next_task : Next) → Sig
    promote_deployment : Deployment → Fields → Sig
    promote_success : Deployment → Fields → Sig
    fleet_stop : (name : String) (version exclude_version : Option String) (countdown : ℕ) → Sig
    wait_for_stop :
        (name : String) (version exclude_version timeout : Option String) (check_retries : Option ℕ)
        → Fields
        → Sig
    fleet_undeploy :
        (name : String) (version exclude_version : Option String) (ignore_error : Bool) → Sig
    wait_for_undeploy : (name : String) (version exclude_version : Option String) → Fields → Sig
    using_lock : Fields → (name : String) (do_task : Sig) (error_tasks : Sigs) → Sig
    release_lock : Lock → Sig
    async_wait : (default_retry_delay max_retries : ℕ) → Sig
    deployment_error_event : Deployment → Fields → Sig
    notify : Notice → (level : ℕ) → Deployment → Sig
    -- `a | b`
    joined : Sig → Sig → Sig
    -- `chain([...])`
    chain : Sigs → Sig
    -- `chord(group(header), body)`
    chord : (header : Sigs) (body : Sig) → Sig
    -- `task.apply_async(link=chain(...), link_error=chain(...))`
    linked : (task : Sig) (link link_error : Sigs) → Sig

  -- `next_task=None`, or a signature
  pub data Next : Type 0 where
    nothing : Next
    next : Sig → Next

  pub data Sigs : Type 0 where
    nil : Sigs
    cons : Sig → Sigs → Sigs

-- the signatures of a list, each made from an element
abbrev pub signatures : {A : Type 0} → (A → Sig) → List A → Sigs
signatures f [] = nil
signatures f (x ∷ xs) = cons (f x) (signatures f xs)

abbrev pub append_sig : Sigs → Sig → Sigs
append_sig nil s = cons s nil
append_sig (cons t ts) s = cons t (append_sig ts s)
