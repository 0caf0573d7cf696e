-- ===== src/Services/Health/Limits.antt =====
-- The checks of deployer/services/health.py in time: `get_health` with the decorator `timeout` on each of
-- its checks.
mod Tests
use cluster_deployer.Common.{
  ℕ, zero, suc, ◌+◌, ◌-◌, ◌≤◌, ◌<◌, min, String, ◌≡◌, refl, ◌∙◌, ap, Bool, true, false, ltb, lt→ltb,
  if◌then◌else◌, arith,
}
use cluster_deployer.Common.Result.{err}
use cluster_deployer.Services.Health.{Answer, check, get_health}
use cluster_deployer.Util.Timeout.{
  Body, returns, takes_second, hangs, Ended, ended, never, later, and_then, run, cancelled, timeout,
}
use cluster_deployer.Value.{Value, Fields, end, field}

abbrev pub health_timeout_seconds : ℕ
health_timeout_seconds = 10

-- What a check asks: it answers after some seconds, or it does not answer. `TimeoutError`, with its text
-- `os.strerror(errno.ETIME)`, passes through the libraries that wait for it.
pub data Call : Type 0 where
  answers : (seconds : ℕ) → Answer → Call
  no_answer : Call

abbrev pub timed_out : Answer
timed_out = err "Timer expired"

abbrev pub answering : (seconds : ℕ) → Answer → Body Answer
answering zero r = returns r
answering (suc n) r = takes_second (answering n r) (returns timed_out)

abbrev pub body : Call → Body Answer
body (answers n r) = answering n r
body no_answer = hangs (returns timed_out)

-- `_check` of a function, which catches every exception
abbrev pub checked : Body Answer → Body Value
checked (returns r) = returns (check r)
checked (takes_second rest interrupted) = takes_second (checked rest) (checked interrupted)
checked (hangs interrupted) = hangs (checked interrupted)

-- `_check_etcd`, `_check_store` and `_check_celery`
unfoldable pub timed_check : (main_thread : Bool) → Call → (alarm : ℕ) → Ended Value
unfolding timeout
timed_check main_thread call alarm =
    timeout main_thread health_timeout_seconds (checked (body call)) alarm

abbrev pub statuses : Value → Value → Fields → Fields
statuses etcd store rest = field "etcd" etcd (field "store" store rest)

-- `get_health`
unfoldable pub timed_get_health :
    (main_thread check_celery : Bool) → (etcd store celery : Call) → (alarm : ℕ) → Ended Fields
unfolding timed_check
timed_get_health main_thread check_celery etcd store celery alarm =
    and_then (timed_check main_thread etcd alarm) λ e alarm1.
      and_then (timed_check main_thread store alarm1) λ s alarm2.
        if check_celery
        then and_then (timed_check main_thread celery alarm2)
            (λ c alarm3. ended (statuses e s (field "celery" c end)) alarm3 0)
        else ended (statuses e s end) alarm2 0

-- the answer that is there within the limit, or the error of the timeout
abbrev pub in_time : Call → Answer
in_time (answers n r) = if ltb n health_timeout_seconds then r else timed_out
in_time no_answer = timed_out

-- the seconds that a check takes
abbrev pub spent : Call → ℕ
spent (answers n r) = min n health_timeout_seconds
spent no_answer = health_timeout_seconds

cancelled-later : {A : Type 0} (n : ℕ) (e : Ended A) → cancelled (later n e) ≡ later n (cancelled e)
cancelled-later n (ended a alarm took) = refl
cancelled-later n never = refl

run-answering :
    (k n : ℕ) (r : Answer)
    → cancelled (run (suc k) (checked (answering n r)))
      ≡ ended (check (if ltb n (suc k) then r else timed_out)) 0 (min n (suc k))
unfolding run
run-answering k zero r = rw (lt→ltb 0 (suc k) (omega arith)) (ap (ended (check r) 0) (omega arith))
run-answering zero (suc n) r = ground arith
run-answering (suc k) (suc n) r =
    cancelled-later 1 (run (suc k) (checked (answering n r)))
    ∙ ap (later 1) (run-answering k n r)
    ∙ ground arith

timed_check_lem :
    (call : Call) (alarm : ℕ)
    → timed_check true call alarm ≡ ended (check (in_time call)) 0 (spent call)
unfolding timed_check
timed_check_lem (answers n r) alarm = run-answering 9 n r
timed_check_lem no_answer alarm = refl

spent-le : (call : Call) → spent call ≤ 10
spent-le (answers n r) = omega arith
spent-le no_answer = omega arith

-- the seconds of all the checks that are made
abbrev pub spent_all : (check_celery : Bool) → (etcd store celery : Call) → ℕ
spent_all check_celery etcd store celery =
    spent etcd + (spent store + (if check_celery then spent celery else 0))

-- In the main thread the health is answered whatever etcd, the store and Celery do, within thirty
-- seconds: with the status of each answer that comes within ten seconds, and the status `failed`, with the
-- error of the timeout, for each that does not; no alarm is left behind. In any other thread, with no alarm
-- set, a check of etcd that gets no answer never ends, and with it the health.
pub health_answers :
    (check_celery : Bool) (etcd store celery : Call) (alarm : ℕ)
    → (timed_get_health true check_celery etcd store celery alarm
        ≡ ended
            (get_health check_celery (in_time etcd) (in_time store) (in_time celery))
            0
            (spent_all check_celery etcd store celery))
      × (spent_all check_celery etcd store celery ≤ 30)
      × (timed_get_health false check_celery no_answer store celery 0 ≡ never)
unfolding timed_get_health get_health
health_answers true etcd store celery alarm = (
  rw (timed_check_lem etcd alarm, timed_check_lem store 0, timed_check_lem celery 0) (ground arith),
  omega (arith, spent-le etcd, spent-le store, spent-le celery),
  refl,
)
health_answers false etcd store celery alarm = (
  rw (timed_check_lem etcd alarm, timed_check_lem store 0) (ground arith),
  omega (arith, spent-le etcd, spent-le store),
  refl,
)
