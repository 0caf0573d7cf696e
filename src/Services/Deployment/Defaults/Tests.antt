-- ===== src/Services/Deployment/Defaults/Tests.antt =====
-- The theorems of the defaults at one deployment.
use cluster_deployer.Common.{String, ◌≡◌, refl, [], ◌∷◌}
use cluster_deployer.Common.Result.{ok, err}
use cluster_deployer.Conf.Defaults.{Environment, one}
use cluster_deployer.Services.Deployment.Application.{apply_app}
use cluster_deployer.Services.Deployment.Defaults.{apply_defaults}
use cluster_deployer.Services.Deployment.Defaults.Stop.{IsInterval, apply_app_needs_timeout}
use cluster_deployer.Services.Deployment.Ports.{number}
use cluster_deployer.Services.Deployment.Formatting.{Formatting, decimal}
use cluster_deployer.Util.Merge.{merge, or_empty}
use cluster_deployer.Value.{get_field, set_field, Value, null, num, str, end, field, obj}
use cluster_deployer.Value.Access.{Access, item_at}

abbrev text_of : Value → String
text_of (str s) = s
text_of (num n) = decimal n
text_of _ = "None"

-- on texts that name no argument
abbrev pub formatting : Formatting
formatting = record {
  text_of = text_of;
  dumps = λ v. "{}";
  format = λ s arguments. ok s;
  text_of-str = λ s. refl;
  text_of-num = λ n. refl;
}

abbrev pub environment : Environment
environment = record {
  cluster_name = "local";
  quay_path_prefix = "quay.io/example";
  hipchat_enabled = "false";
  hipchat_room = "not-set";
  github_enabled = "true";
}

abbrev pub web_given : Value
web_given = obj (
    field "deployment"
      (obj
        (field "name" (str "web") (field "type" (str "default") (field "version" (str "v1") end))))
      (field "templates" (one "app" (one "args" (one "image" (str "web:v1")))) (
        field "proxy"
          (one "hosts" (one "web" (one "locations" (one "home" (one "port" (num 8080)))))) end)))

abbrev result_or_null : Access Value → Value
result_or_null (ok v) = v
result_or_null (err x) = null

abbrev pub web_with_defaults : Value
unfolding apply_defaults merge or_empty get_field set_field
web_with_defaults = result_or_null (apply_defaults formatting environment 1000 5 web_given)

pub web_has_defaults : apply_defaults formatting environment 1000 5 web_given ≡ ok web_with_defaults
unfolding apply_defaults merge or_empty get_field set_field
web_has_defaults = refl

abbrev web_again : Value
unfolding apply_app
web_again = result_or_null (apply_app formatting environment (number 8080 ∷ []) web_with_defaults)

web_app : apply_app formatting environment (number 8080 ∷ []) web_with_defaults ≡ ok web_again
unfolding apply_app apply_defaults merge or_empty get_field set_field
web_app = refl

apply_app_needs_timeout_example :
    (timeout : Value) × (item_at ("deployment" ∷ "stop" ∷ "timeout" ∷ []) web_with_defaults
      ≡ ok timeout)
    × IsInterval timeout
apply_app_needs_timeout_example =
    apply_app_needs_timeout formatting environment (number 8080 ∷ []) web_with_defaults web_again
      web_app
