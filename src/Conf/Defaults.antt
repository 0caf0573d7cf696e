-- ===== src/Conf/Defaults.antt =====
-- The defaults of a deployment in conf/appconfig.py. What comes from the environment of the process is
-- in `Environment`.
use cluster_deployer.Common.{
  ℕ, String, text_append, Bool, true, false, ◌||◌, List, [], ◌∷◌, reverse, map,
}
use cluster_deployer.Conf.{
  blue_green, level_failed, level_pending, default_stop_timeout,
  default_deployment_stop_check_retries,
}
use cluster_deployer.Util.Text.{codes, lower, same_codes}
use cluster_deployer.Util.Interval.{skip_spaces}
use cluster_deployer.Value.{Value, null, bool, num, str, obj, end, field}

pub record Environment : Type 0 where
  pub cluster_name : String
  pub quay_path_prefix : String
  pub hipchat_enabled : String
  pub hipchat_room : String
  pub github_enabled : String

abbrev pub member : List ℕ → List String → Bool
member cs [] = false
member cs (s ∷ ss) = same_codes cs (codes s) || member cs ss

-- `BOOLEAN_TRUE_VALUES`
abbrev pub boolean_true_values : List String
boolean_true_values = "true" ∷ "yes" ∷ "y" ∷ "1" ∷ "on" ∷ []

-- `os.getenv(...).strip().lower() in BOOLEAN_TRUE_VALUES`
unfoldable pub is_true_value : String → Bool
unfolding skip_spaces
is_true_value s =
    let stripped = reverse (skip_spaces (reverse (skip_spaces (codes s)))) in
    member (map lower stripped) boolean_true_values

abbrev pub deployment_type_git_quay : String
deployment_type_git_quay = "git-quay"

abbrev pub deployment_type_default : String
deployment_type_default = "default"

abbrev pub empty : Value
empty = obj end

-- a dict with one entry
abbrev pub one : String → Value → Value
one k v = obj (field k v end)

unfoldable pub notifications_defaults : Environment → Value
notifications_defaults e = obj (
    field "hipchat"
      (obj (
        field "enabled" (bool (is_true_value e.hipchat_enabled)) (
          field "room" (str e.hipchat_room) (
            field "token" (str "") (
              field "level" (num level_failed) (
                field "colors"
                  (obj (
                    field "1" (str "red") (
                      field "2" (str "red") (
                        field "3" (str "green")
                          (field "4" (str "yellow") (field "5" (str "yellow") end))))))
                  (field "url" (str "https://api.hipchat.com") end)))))))
      (field "github"
        (obj (
          field "enabled" (bool (is_true_value e.github_enabled))
            (field "token" (str "") (field "level" (num level_pending) end))))
        end))

-- `DEPLOYMENT_DEFAULTS['git-quay']`
unfoldable pub git_quay_defaults : Environment → Value
git_quay_defaults e = obj (
    field "deployment"
      (obj
        (field "name" (str "{GIT_OWNER}-{GIT_REPO}-{GIT_REF}") (field "type" (str "git-quay") end)))
      (field "templates"
        (obj (
          field "app"
            (obj (
              field "args"
                (obj (
                  field "image"
                    (str (text_append e.quay_path_prefix "/{GIT_OWNER}-{GIT_REPO}:{GIT_COMMIT}"))
                    (field "environment" empty (field "docker-args" (str "") end))))
                (field "name" (str "default-app") end)))
            (field "yoda-register" (one "name" (str "yoda-register")) end)))
        end))

abbrev pub git_meta_defaults : Value
git_meta_defaults = obj (
    field "owner" (str "not_set") (
      field "repo" (str "not_set") (
        field "ref" (str "master")
          (field "commit" (str "not_set") (field "type" (str "github") end)))))

abbrev pub check_defaults : Value
check_defaults = obj (
    field "min-nodes" (num 1)
      (field "port" null (field "attempts" (num 10) (field "timeout" (str "10s") end))))

abbrev pub stop_defaults : Value
stop_defaults = obj (
    field "timeout" (str default_stop_timeout)
      (field "check-retries" (num default_deployment_stop_check_retries) end))

-- `DEPLOYMENT_DEFAULTS['default']`
unfoldable pub default_defaults : Environment → Value
unfolding notifications_defaults
default_defaults e = obj (
    field "meta-info" (obj (field "job-id" (str "not_set") (field "git" git_meta_defaults end))) (
      field "deployment"
        (obj (
          field "type" (str "default") (
            field "version" null (
              field "mode" (str blue_green) (
                field "nodes" (num 1)
                  (field "check" check_defaults (field "stop" stop_defaults end)))))))
        (field "templates"
          (one "app" (one "args" (one "environment" (one "DISCOVER_UPSTREAM_TTL" (str "86400")))))
          (field "proxy"
            (obj (field "hosts" empty (field "listeners" empty (field "upstreams" empty end))))
            (field "security" (one "profile" (str "default")) (
              field "notifications" (notifications_defaults e) (field "environment" empty end)))))))

-- `UPSTREAM_DEFAULTS`
abbrev pub upstream_defaults : Value
upstream_defaults = obj (
    field "mode" (str "http")
      (field "health" (one "timeout" (str "5s")) (field "ttl" (str "1w") end)))

-- `TEMPLATE_DEFAULTS`
abbrev pub template_defaults : Value
template_defaults = obj (field "enabled" (bool true) (field "args" empty end))
