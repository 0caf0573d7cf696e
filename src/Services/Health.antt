-- ===== src/Services/Health.antt =====
-- deployer/services/health.py and the handler of deployer/views/health.py. What etcd, the store and Celery
-- answer, or the text of the exception that a check ends with, are arguments.
pub mod Limits
use cluster_deployer.Common.{
  String, ◌≡◌, refl, Bool, true, false, not, ◌&&◌, ◌||◌, Bool-cases, inl, inr, Option, none, some,
  List, [], ◌∷◌, str_eq, if◌then◌else◌, map,
}
use cluster_deployer.Common.Result.{Result, ok, err}
use cluster_deployer.Conf.Defaults.{member, boolean_true_values}
use cluster_deployer.Util.Text.{codes, lower}
use cluster_deployer.Value.{Value, str, obj, Fields, end, field, get_field}
use cluster_deployer.Value.Access.{values}
use cluster_deployer.Views.Response.{Response, document, build_response}

abbrev pub health_ok : String
health_ok = "ok"

abbrev pub health_failed : String
health_failed = "failed"

-- the answer of a check, or the text of its exception
abbrev pub Answer : Type 0
Answer = Result String Value

-- `_check`
unfoldable pub check : Answer → Value
check (ok details) = obj (field "status" (str health_ok) (field "details" details end))
check (err text) = obj (field "status" (str health_failed) (field "details" (str text) end))

-- `get_health`
unfoldable pub get_health : (check_celery : Bool) → (etcd store celery : Answer) → Fields
unfolding check
get_health check_celery etcd store celery =
    field "etcd" (check etcd) (
      field "store" (check store) (if check_celery then field "celery" (check celery) end else end))

-- `health_status['status'] != HEALTH_OK`
unfoldable pub is_failed : Value → Bool
unfolding get_field
is_failed (obj d) = elim (get_field "status" d) [
  | some (str s) ↦ not (str_eq s health_ok)
  | _ ↦ true
]
is_failed _ = true

abbrev pub some_failed : List Value → Bool
some_failed [] = false
some_failed (v ∷ vs) = if is_failed v then true else some_failed vs

-- `request.args.get('celery', 'true').lower() in BOOLEAN_TRUE_VALUES`
abbrev pub wants_celery : Option String → Bool
wants_celery none = true
wants_celery (some s) = member (map lower (codes s)) boolean_true_values

-- `HealthApi.get`
unfoldable pub get_health_view :
    (celery_argument : Option String) → (etcd store celery : Answer) → Response
unfolding get_health is_failed
get_health_view celery_argument etcd store celery =
    let health = get_health (wants_celery celery_argument) etcd store celery in
    record (build_response (document health)) {
      status = if some_failed (values health) then 500 else 200;
    }

abbrev succeeds : Answer → Bool
succeeds (ok details) = true
succeeds (err text) = false

status_of :
    (b : Bool) (etcd store celery : Answer)
    → some_failed (values (get_health b etcd store celery))
      ≡ not (succeeds etcd && (succeeds store && (not b || succeeds celery)))
unfolding get_health is_failed
status_of b (err t) store celery = refl
status_of b (ok v) (err t) celery = refl
status_of true (ok v) (ok w) (err t) = refl
status_of true (ok v) (ok w) (ok u) = refl
status_of false (ok v) (ok w) celery = refl

-- The view answers 500 where the check of etcd, of the store, or of Celery if it is asked for, fails, and
-- 200 where these succeed.
get_health_view-status :
    (celery_argument : Option String) (etcd store celery : Answer)
    → (get_health_view celery_argument etcd store celery).status ≡ (
        if succeeds etcd
          && (succeeds store && (not (wants_celery celery_argument) || succeeds celery))
        then 200
        else 500)
unfolding get_health_view
get_health_view-status celery_argument etcd store celery =
    let all_succeed =
      succeeds etcd
      && (succeeds store && (not (wants_celery celery_argument) || succeeds celery)) in
    rw (status_of (wants_celery celery_argument) etcd store celery)
      (elim (Bool-cases all_succeed) [ inl q ↦ rw q refl | inr q ↦ rw q refl ])
