-- ===== src/Services/Notify/Tests.antt =====
-- `massage_config` on an environment with a password.
use cluster_deployer.Common.{String, ◌≡◌, refl, true}
use cluster_deployer.Value.{Value, bool, str, obj, Fields, end, field, get_field, truthy}
use cluster_deployer.Services.Notify.{massage_config}
use cluster_deployer.Services.Notify.Secrets.{
  IsSecret, Alike, same, secrets, dicts, one_field, no_fields, massage_config_hides,
}

-- a password and another, both encrypted
abbrev with_password : String → Fields
with_password p = field "value" (str p) (field "encrypted" (bool true) end)

with_password-IsSecret : (p : String) → IsSecret (with_password p)
unfolding get_field truthy
with_password-IsSecret p = record { secret = str p; has_value = refl; marked = refl }

abbrev environment : String → Value
environment p = obj (field "name" (str "web") (field "password" (obj (with_password p)) end))

environment-Alike : Alike (environment "one") (environment "two")
unfolding get_field
environment-Alike = dicts refl refl (
    one_field "name" (same (str "web")) (
      one_field "password" (secrets (with_password-IsSecret "one") (with_password-IsSecret "two"))
        no_fields))

abbrev shown_text : Value → String
shown_text v = "shown"

massage_config_hides_example :
    massage_config shown_text (environment "one") ≡ massage_config shown_text (environment "two")
massage_config_hides_example =
    massage_config_hides shown_text (environment "one") (environment "two") environment-Alike
