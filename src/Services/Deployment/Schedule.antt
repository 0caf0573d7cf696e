-- ===== src/Services/Deployment/Schedule.antt =====
-- `check_and_apply_schedule` of deployer/services/deployment.py.
use cluster_deployer.Common.{Bool, true, false, [], ◌∷◌, if◌then◌else◌}
use cluster_deployer.Common.Result.{ok, ◌>>=◌}
use cluster_deployer.Conf.Defaults.{empty, one}
use cluster_deployer.Util.Merge.{dict_merge}
use cluster_deployer.Value.{Value, null, bool, str, obj, end, field, truthy}
use cluster_deployer.Value.Access.{Access, item, get, assign, update_at}

-- `deployment_upd['proxy'].update(...)`
abbrev pub clear_proxy : Value → Access Value
clear_proxy proxy = do
  a ← assign "upstreams" empty proxy
  b ← assign "hosts" empty a
  assign "listeners" empty b

-- `deployment_upd['deployment']['check'].update(...)`
abbrev pub clear_check : Value → Access Value
clear_check check = do a ← assign "port" null check; assign "path" (str "") a

-- `x['args'] = dict_merge(service_params, x['args'])`
abbrev pub add_service : (schedule : Value) → Value → Access Value
add_service schedule template = do
  args ← item "args" template
  assign "args" (dict_merge (one "service" (one "schedule" schedule) ∷ args ∷ [])) template

-- the templates of a deployment with a schedule: the application and its timer, or none
abbrev pub scheduled_templates : (schedule app timer : Value) → (enabled : Bool) → Access Value
scheduled_templates schedule app timer false = ok empty
scheduled_templates schedule app timer true = do
  app' ← add_service schedule app
  timer' ← add_service schedule timer
  timer'' ← assign "enabled" (bool true) timer'
  ok (obj (field "app" app' (field "timer" timer'' end)))

-- `app_template and app_template['enabled']`
abbrev pub app_enabled : Value → Access Bool
app_enabled app =
    if truthy app then (item "enabled" app >>= λ enabled. ok (truthy enabled)) else ok false

-- the body of `if deployment_upd['schedule']`
unfoldable pub apply_schedule : (schedule : Value) → Value → Access Value
unfolding get item assign update_at dict_merge truthy
apply_schedule schedule deployment = do
  a ← update_at ("proxy" ∷ []) clear_proxy deployment
  b ← update_at ("deployment" ∷ "check" ∷ []) clear_check a
  templates ← get "templates" null b
  app ← get "app" null templates
  timer ← get "timer" null templates
  name ← item "name" app
  let timer_template = dict_merge (timer ∷ obj (field "name" name (field "args" empty end)) ∷ [])
  enabled ← app_enabled app
  new_templates ← scheduled_templates schedule app timer_template enabled
  assign "templates" new_templates b

-- `check_and_apply_schedule`
unfoldable pub check_and_apply_schedule : Value → Access Value
unfolding item dict_merge truthy apply_schedule
check_and_apply_schedule deployment = do
  let deployment_upd = dict_merge (deployment ∷ one "schedule" null ∷ [])
  schedule ← item "schedule" deployment_upd
  if truthy schedule then apply_schedule schedule deployment_upd else ok deployment_upd
