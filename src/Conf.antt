-- ===== src/Conf.antt =====
-- Constants of conf/appconfig.py, and the settings that come from the environment.
pub mod Defaults
use cluster_deployer.Common.{ℕ, String, List, [], ◌∷◌}

abbrev pub blue_green : String
blue_green = "blue-green"

abbrev pub red_green : String
red_green = "red-green"

abbrev pub state_new : String
state_new = "NEW"

abbrev pub state_started : String
state_started = "STARTED"

abbrev pub state_promoted : String
state_promoted = "PROMOTED"

abbrev pub state_failed : String
state_failed = "FAILED"

abbrev pub state_decommissioned : String
state_decommissioned = "DECOMMISSIONED"

abbrev pub running_deployment_states : List String
running_deployment_states = state_new ∷ state_started ∷ state_promoted ∷ []

-- `TASK_SETTINGS`
abbrev pub ssh_retries : ℕ
ssh_retries = 10

abbrev pub ssh_retry_delay : ℕ
ssh_retry_delay = 10

abbrev pub deployment_wait_retries : ℕ
deployment_wait_retries = 240

abbrev pub deployment_wait_retry_delay : ℕ
deployment_wait_retry_delay = 60

abbrev pub check_node_retry_delay : ℕ
check_node_retry_delay = 10

abbrev pub deployment_stop_min_check_retry_delay : ℕ
deployment_stop_min_check_retry_delay = 2

abbrev pub default_deployment_stop_check_retries : ℕ
default_deployment_stop_check_retries = 10

-- `DEFAULT_STOP_TIMEOUT`
abbrev pub default_stop_timeout : String
default_stop_timeout = "30s"

abbrev pub level_failed : ℕ
level_failed = 1

abbrev pub level_success : ℕ
level_success = 3

abbrev pub level_started : ℕ
level_started = 4

-- `UPSTREAM_DEFAULTS['ttl']`
abbrev pub upstream_ttl : String
upstream_ttl = "1w"

abbrev pub level_failed_warn : ℕ
level_failed_warn = 2

abbrev pub level_pending : ℕ
level_pending = 5

-- `DISCOVER_UPSTREAM_TTL_DEFAULT`
abbrev pub discover_upstream_ttl_default : String
discover_upstream_ttl_default = "86400"

-- `LOCK_JOB_BASE`
abbrev pub lock_job_base : String
lock_job_base = "/cluster-deployer/locks/jobs"

-- `MIME_JSON`
abbrev pub mime_json : String
mime_json = "application/json"

-- `MIME_APP_VERSION_V1`
abbrev pub mime_app_version_v1 : String
mime_app_version_v1 = "application/vnd.deployer.app.version.v1+json"

-- `MIME_APP_VERSION_UNIT_LIST_V1`
abbrev pub mime_app_version_unit_list_v1 : String
mime_app_version_unit_list_v1 = "application/vnd.deployer.app.version.unit-list.v1+json"

-- `MIME_APP_VERSION_DELETE_V1`
abbrev pub mime_app_version_delete_v1 : String
mime_app_version_delete_v1 = "application/vnd.deployer.app.version.delete.v1+json"

-- `MIME_APP_DELETE_V1`
abbrev pub mime_app_delete_v1 : String
mime_app_delete_v1 = "application/vnd.deployer.app.delete.v1+json"

-- `API_DEFAULT_PAGE_SIZE`
abbrev pub api_default_page_size : ℕ
api_default_page_size = 10
