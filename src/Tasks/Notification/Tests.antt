-- ===== src/Tasks/Notification/Tests.antt =====
-- A notification of GitHub, and the choice by the level.
use cluster_deployer.Common.{String, ◌≡◌, refl, true, some, [], ◌∷◌}
use cluster_deployer.Common.Result.{ok}
use cluster_deployer.Tasks.Notification.{
  StatusPost, enabled_notifications, notify_github_task, git_of,
}
use cluster_deployer.Tasks.Notification.Sent.{IsGiven, Shortens, notify_github_posts}
use cluster_deployer.Conf.Defaults.{empty, one}
use cluster_deployer.Value.{Value, bool, num, str, Fields, end, field, obj, get_field, truthy}
use cluster_deployer.Value.Access.{get}

abbrev text_of : Value → String
text_of (str s) = s
text_of _ = "None"

abbrev message : Value
message = one "message" (str "Deployment web-v2 failed")

abbrev git : Value
git = obj (field "owner" (str "totem") (field "repo" (str "web") (field "commit" (str "c1") end)))

abbrev context : Value
context = one "deployment" (one "meta-info" (one "git" git))

abbrev status : StatusPost
status = record {
  url = "https://api.github.com/repos/totem/web/statuses/c1";
  token = str "secret";
  state = "failure";
  description = "Deployment web-v2 failed";
  context = "local::Deployer";
}

posted : notify_github_task text_of (str "secret") message "" context 1 empty ≡ ok (some status)
unfolding notify_github_task get_field
posted = refl

notify_github_posts_example :
    ((g : Value) × (git_of context ≡ ok g)
      × IsGiven "owner" g
      × IsGiven "repo" g
      × IsGiven "commit" g)
    × (truthy status.token ≡ true)
    × ((m : String) × (get "message" (str "") message ≡ ok (str m)) × Shortens m status.description)
notify_github_posts_example =
    notify_github_posts text_of (str "secret") message "" context 1 empty status posted

abbrev channels : Fields
channels = field "github" (obj (field "enabled" (bool true) (field "level" (num 5) end))) (
    field "hipchat" (obj (field "enabled" (bool true) end))
      (field "pager" (one "enabled" (bool true)) end))

-- a success reaches GitHub only
chosen :
    enabled_notifications 3 channels
    ≡ ok (
        record {
          name = "github";
          config = obj (field "enabled" (bool true) (field "level" (num 5) end));
        }
        ∷ [])
unfolding enabled_notifications get_field
chosen = refl
