-- ===== src/Views/Task.antt =====
-- `TaskApi` of deployer/views/task.py. The wait is for at most the seconds of the argument `timeout`, which
-- must be a number; a wait that takes longer is left out.
use cluster_deployer.Common.{
  ℕ, String, Bool, true, false, Option, none, some, List, map, reverse, str_eq, if◌then◌else◌,
}
use cluster_deployer.Common.Result.{Result, ok, err}
use cluster_deployer.Conf.Defaults.{member, boolean_true_values}
use cluster_deployer.Services.TaskClient.{Reply, ready, Looks}
use cluster_deployer.Tasks.Results.{TaskResult}
use cluster_deployer.Util.Interval.{skip_spaces}
use cluster_deployer.Util.Text.{codes, lower}
use cluster_deployer.Views.Application.{ViewError, not_found, bad_number, client}
use cluster_deployer.Views.Paging.{read_integer}
use cluster_deployer.Views.Response.{Response, replied, build_response}

-- `strip()`, of white space of ASCII
abbrev pub strip : List ℕ → List ℕ
strip s = reverse (skip_spaces (reverse (skip_spaces s)))

-- `request.args.get('wait', 'false').strip().lower() in BOOLEAN_TRUE_VALUES`
unfoldable pub wants_wait : Option String → Bool
unfolding skip_spaces
wants_wait none = false
wants_wait (some s) = member (map lower (strip (codes s))) boolean_true_values

-- `int(request.args.get('timeout', ...))` is a number
unfoldable pub is_timeout : Option String → Bool
unfolding read_integer
is_timeout none = true
is_timeout (some s) = elim (read_integer s) [ none ↦ false | some i ↦ true ]

module _ (text_of : TaskResult → String) where
  -- `flask.jsonify(response)`
  abbrev pub answered : Result ViewError Reply → Result ViewError Response
  answered (ok reply) = ok (build_response (replied reply))
  answered (err x) = err x

  -- `TaskApi.get` with an id; `now` and `later` are the result of the task as it is and after the wait
  abbrev pub get_known_task :
      (wait timeout : Option String) → (now later : Looks) → Result ViewError Response
  get_known_task wait timeout now later =
      if is_timeout timeout
      then answered
          (client (ready text_of (wants_wait wait) false (if wants_wait wait then later else now)))
      else err bad_number

  -- `TaskApi.get`
  unfoldable pub get_task :
      (id wait timeout : Option String) → (now later : Looks) → Result ViewError Response
  unfolding ready wants_wait is_timeout
  get_task none wait timeout now later = err not_found
  get_task (some id) wait timeout now later =
      if str_eq id "" then err not_found else get_known_task wait timeout now later
