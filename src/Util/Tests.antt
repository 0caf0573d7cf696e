-- ===== src/Util/Tests.antt =====
-- The theorems on deployer/util.py at concrete arguments.
use cluster_deployer.Common.{ℕ, ◌≡◌, ◌<◌, ◌↔◌, refl, String, [], ◌∷◌, arith, zero, suc, some}
use cluster_deployer.Common.Result.{ok}
use cluster_deployer.Value.{Value, str, num, obj, end, field, get_path, get_field, lookup, IsDict}
use cluster_deployer.Util.Merge.{dict_merge}
use cluster_deployer.Util.Merge.Defaults.{dict_merge_first_wins}
use cluster_deployer.Util.Interval.{to_milliseconds}
use cluster_deployer.Util.Interval.Meaning.{IsInterval, to_milliseconds_iff}
use cluster_deployer.Util.Text.{codes}
use cluster_deployer.Util.Retry.{Outcome, returned, caught, running, function_retry}
use cluster_deployer.Util.Retry.Attempts.{
  IsCaught, settle, backoffs, function_retry_settles, function_retry_never_ends,
}

abbrev given : Value
given = obj (field "nodes" (num 1) end)

abbrev defaults : Value
defaults = obj (field "nodes" (num 2) (field "mode" (str "blue-green") end))

given-IsDict : IsDict given
unfolding get_field
given-IsDict = (refl, tt, tt)

defaults-IsDict : IsDict defaults
unfolding get_field
defaults-IsDict = (refl, tt, (refl, tt, tt))

given_nodes : get_path ("nodes" ∷ []) given ≡ some (num 1)
unfolding get_path lookup get_field
given_nodes = refl

dict_merge_first_wins_example :
    get_path ("nodes" ∷ []) (dict_merge (given ∷ defaults ∷ [])) ≡ some (num 1)
dict_merge_first_wins_example =
    dict_merge_first_wins "nodes" [] [] given (defaults ∷ []) tt given-IsDict given_nodes (λ h. h)
      (defaults-IsDict, tt)

to_milliseconds_iff_example :
    (to_milliseconds (codes "30s") ≡ ok 30000) ↔ IsInterval (codes "30s") 30000
to_milliseconds_iff_example = to_milliseconds_iff (codes "30s") 30000

-- two failures, then a result
abbrev third_time : ℕ → Outcome String String
third_time zero = caught "busy"
third_time (suc zero) = caught "busy"
third_time (suc (suc n)) = returned "done"

third_time_busy : (n : ℕ) → n < 2 → IsCaught (third_time n)
third_time_busy zero h = tt
third_time_busy (suc zero) h = tt
third_time_busy (suc (suc n)) h = omega arith

function_retry_settles_example :
    function_retry 5 4 1 2 third_time ≡ settle (third_time 2) 3 (backoffs 2 1 2)
function_retry_settles_example =
    function_retry_settles third_time 2 5 4 1 2 (omega arith) third_time_busy (λ h. h)

abbrev always_busy : ℕ → Outcome String String
always_busy n = caught "busy"

function_retry_never_ends_example : function_retry 100 3 1 2 always_busy ≡ running
function_retry_never_ends_example = function_retry_never_ends always_busy 100 3 1 2 (λ n. tt)
