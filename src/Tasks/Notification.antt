-- ===== src/Tasks/Notification.antt =====
-- deployer/tasks/notification.py: the choice of the notifications, and what is posted to GitHub and
-- HipChat. The decryption of a configuration, the templates and the requests are those of other
-- libraries: a configuration and a message are arguments, and a request is what a task gives.
pub mod Sent
pub mod Tests
use cluster_deployer.Common.{
  ℕ, zero, suc, String, text_append, Bool, true, false, ◌&&◌, Option, none, some, List, [], ◌∷◌,
  ltb, leb, ◌==◌, str_eq, if◌then◌else◌, length,
}
use cluster_deployer.Common.Result.{Result, ok, err, ◌>>=◌}
use cluster_deployer.Conf.{level_failed, level_failed_warn, level_success}
use cluster_deployer.Conf.Defaults.{Environment, empty, notifications_defaults}
use cluster_deployer.Services.Deployment.Formatting.{decimal}
use cluster_deployer.Util.Text.{codes}
use cluster_deployer.Value.{Value, null, bool, num, str, date, arr, obj, Fields, end, field, truthy}
use cluster_deployer.Value.Access.{as_text, Access, wrong_type, get, items, assign}

-- a notification that `notify` sends: the task `notify_` and the name, with its configuration
pub record Notification : Type 0 where
  pub name : String
  pub config : Value

-- the tasks that there are
abbrev pub is_known : String → Bool
is_known name =
    if str_eq name "hipchat"
    then true
    else if str_eq name "slack"
    then true
    else str_eq name "github"

-- `level <= v`, where Python 2 has `None` before the numbers and the texts and containers behind them; a
-- datetime cannot be compared
abbrev pub reaches : (level : ℕ) → Value → Access Bool
reaches level null = ok false
reaches level (bool b) = ok (leb level (if b then 1 else 0))
reaches level (num n) = ok (leb level n)
reaches level (date n) = err wrong_type
reaches level _ = ok true

-- whether the notification takes the level, and has a task
abbrev pub within_level : (level : ℕ) → (name : String) → Value → Access Bool
within_level level name notification = do
  limit ← get "level" (num level_failed) notification
  reached ← reaches level limit
  ok (reached && is_known name)

-- the condition of the comprehension
unfoldable pub is_due : (level : ℕ) → (name : String) → Value → Access Bool
unfolding get truthy
is_due level name notification = do
  enabled ← get "enabled" null notification
  if truthy enabled then within_level level name notification else ok false

abbrev pub if_due : Bool → Notification → List Notification → List Notification
if_due true n ns = n ∷ ns
if_due false n ns = ns

-- the enabled notifications
unfoldable pub enabled_notifications : (level : ℕ) → Fields → Access (List Notification)
unfolding is_due
enabled_notifications level end = ok []
enabled_notifications level (field name notification d) = do
  due ← is_due level name notification
  ns ← enabled_notifications level d
  ok (if_due due (record { name = name; config = notification }) ns)

-- `notify`
unfoldable pub notify_task :
    Environment → (level : ℕ) → (notifications : Value) → Access (List Notification)
unfolding truthy items enabled_notifications notifications_defaults
notify_task e level notifications =
    items (if truthy notifications then notifications else notifications_defaults e)
    >>= enabled_notifications level

-- `desc[:n]`
abbrev pub first_characters : ℕ → String → String
first_characters zero s = ""
first_characters (suc n) String.[] = ""
first_characters (suc n) (String.◌∷◌ c s) = String.◌∷◌ c (first_characters n s)

-- `len`
abbrev pub text_length : String → ℕ
text_length s = length (codes s)

-- a description of at most 140 characters
unfoldable pub use_description : String → String
use_description desc =
    if ltb 140 (text_length desc) then text_append (first_characters 137 desc) "..." else desc

-- the state of a commit for a level
unfoldable pub commit_state : (level : ℕ) → String
commit_state level =
    if level == level_failed
    then "failure"
    else if level == level_failed_warn
    then "failure"
    else if level == level_success
    then "success"
    else "pending"

-- the post to GitHub
pub record StatusPost : Type 0 where
  pub url : String
  pub token : Value
  pub state : String
  pub description : String
  pub context : String

abbrev pub or_value : Value → Value → Value
or_value v default = if truthy v then v else default

abbrev pub is_text : String → Value → Bool
is_text s (str t) = str_eq t s
is_text s _ = false

abbrev pub slash : String → String → String
slash a b = text_append a (text_append "/" b)

-- the entry `git` of the meta-information of a context
abbrev pub git_of : Value → Access Value
git_of ctx = do
  deployment ← get "deployment" empty ctx
  meta_info ← get "meta-info" empty deployment
  get "git" empty meta_info

-- the owner, the repository and the commit
abbrev pub commit_of : Value → Access (Value × Value × Value)
commit_of git = do
  owner ← get "owner" null git
  repo ← get "repo" null git
  commit ← get "commit" null git
  ok (owner, repo, commit)

module _ (text_of : Value → String) (default_github_token : Value) where
  -- the body of the `if`
  abbrev pub status_post :
      (api_url owner repo commit token : Value)
      → (desc : String) → (level : ℕ) → (cluster : String) → StatusPost
  status_post api_url owner repo commit token desc level cluster = record {
    url =
        slash (slash (slash (slash (text_of api_url) "repos") (text_of owner)) (text_of repo))
          (slash "statuses" (text_of commit));
    token = token;
    state = commit_state level;
    description = use_description desc;
    context = text_append cluster "::Deployer";
  }

  -- the post with its description and its cluster
  abbrev pub post :
      (notification : Value)
      → (obj_text : String) → (ctx : Value) → (level : ℕ)
      → ((desc : String) → (level : ℕ) → (cluster : String) → StatusPost)
      → Access (Option StatusPost)
  post notification obj_text ctx level make = do
    message ← get "message" (str obj_text) notification
    desc ← as_text message
    cluster_value ← get "cluster" (str "local") ctx
    cluster ← as_text cluster_value
    ok (some (make desc level cluster))

  -- whether GitHub knows the commit
  abbrev pub is_posted : (owner repo commit token git_type : Value) → Bool
  is_posted owner repo commit token git_type =
      truthy owner
      && (truthy repo && (truthy commit && (truthy token && is_text "github" git_type)))

  abbrev pub post_if_known :
      (notification : Value)
      → (obj_text : String) → (ctx : Value) → (level : ℕ)
      → (api_url owner repo commit token git_type : Value) → Access (Option StatusPost)
  post_if_known notification obj_text ctx level api_url owner repo commit token git_type =
      if is_posted owner repo commit token git_type
      then post notification obj_text ctx level (status_post api_url owner repo commit token)
      else ok none

  -- `notify_github`; `notification` is `as_dict(obj)` and `obj_text` is `str(obj)`
  unfoldable pub notify_github_task :
      (notification : Value)
      → (obj_text : String) → (ctx : Value) → (level : ℕ) → (config : Value)
      → Access (Option StatusPost)
  unfolding get truthy use_description commit_state
  notify_github_task notification obj_text ctx level config = do
    url ← get "url" null config
    git ← git_of ctx
    (owner, repo, commit) ← commit_of git
    git_type ← get "type" (str "github") git
    own_token ← get "token" null config
    post_if_known notification obj_text ctx level (or_value url (str "https://api.github.com"))
        owner repo commit (or_value own_token default_github_token) git_type

-- the post to a room of HipChat
pub record RoomPost : Type 0 where
  pub url : String
  pub token : Value
  pub message : String
  pub color : Value
  pub notify : Bool

-- the post to Slack
pub record SlackPost : Type 0 where
  pub url : Value
  pub message : String

module _ (text_of : Value → String) (default_hipchat_token : Value) where
  -- `notify_hipchat`; `msg` is the rendered template
  unfoldable pub notify_hipchat_task :
      (msg : String) → (level : ℕ) → (config : Value) → Access RoomPost
  unfolding get truthy
  notify_hipchat_task msg level config = do
    url ← get "url" null config
    room ← get "room" null config
    own_token ← get "token" (str "") config
    colors ← get "colors" empty config
    color ← get (decimal level) (str "gray") colors
    ok (record {
      url =
          slash (text_of (or_value url (str "https://api.hipchat.com")))
            (slash "v2" (slash "room" (slash (text_of room) "notification")));
      token = or_value own_token default_hipchat_token;
      message = first_characters 5000 msg;
      color = color;
      notify = leb level level_failed_warn;
    })

-- what the template of `notify_slack` gets; `now_s` is the time in seconds
unfoldable pub slack_notification : (now_s : ℕ) → (notification config : Value) → Access Value
unfolding get assign
slack_notification now_s notification config = do
  channel ← get "channel" null config
  with_channel ← assign "channel" channel notification
  assign "date" (num now_s) with_channel

-- `notify_slack`; `render` is the template
unfoldable pub notify_slack_task :
    (render : Value → String)
    → (now_s : ℕ) → (notification config : Value) → Access (Option SlackPost)
unfolding slack_notification get truthy
notify_slack_task render now_s notification config = do
  url ← get "url" null config
  with_channel ← slack_notification now_s notification config
  ok (if truthy url then some (record { url = url; message = render with_channel }) else none)
