-- ===== src/Util/Timeout.antt =====
-- The decorator `timeout` of deployer/util.py, with the alarm of the process that it sets. Time is in
-- whole seconds, as `signal.alarm` counts it. A function is what it does second by second: where the
-- alarm goes off, the handler raises `TimeoutError` in it, which it may catch.
use cluster_deployer.Common.{ℕ, zero, suc, ◌+◌, Bool, true, false}

-- How a function runs: it returns (or raises, as its result says), it takes one more second, or it waits
-- without end for something that does not come; and how it goes on where `TimeoutError` is raised in it
-- then.
pub data Body (A : Type 0) : Type 0 where
  returns : A → Body A
  takes_second : (rest interrupted : Body A) → Body A
  hangs : (interrupted : Body A) → Body A

-- how a run ends: with a result, the seconds left of the alarm (0 if none is set), and the seconds that it
-- took; or not at all
pub data Ended (A : Type 0) : Type 0 where
  ended : A → (alarm took : ℕ) → Ended A
  never : Ended A

abbrev pub later : {A : Type 0} → ℕ → Ended A → Ended A
later n (ended a alarm took) = ended a alarm (n + took)
later n never = never

-- what comes after a run, with the alarm that it leaves
abbrev pub and_then : {A B : Type 0} → Ended A → (A → ℕ → Ended B) → Ended B
and_then (ended a alarm took) f = later took (f a alarm)
and_then never f = never

-- a run with the seconds that are left until the alarm goes off, 0 if none is set
unfoldable pub run : {A : Type 0} → (alarm : ℕ) → Body A → Ended A
run alarm (returns a) = ended a alarm 0
run zero (takes_second rest interrupted) = later 1 (run 0 rest)
run (suc zero) (takes_second rest interrupted) = later 1 (run 0 interrupted)
run (suc (suc n)) (takes_second rest interrupted) = later 1 (run (suc n) rest)
run zero (hangs interrupted) = never
run (suc n) (hangs interrupted) = later (suc n) (run 0 interrupted)

-- `signal.alarm(0)`
abbrev pub cancelled : {A : Type 0} → Ended A → Ended A
cancelled (ended a alarm took) = ended a 0 took
cancelled never = never

-- `timeout(seconds)` of a function. `signal.signal` raises `ValueError` in a thread that is not the main
-- one, and then no alarm is set. An alarm that is set before is replaced.
unfoldable pub timeout :
    {A : Type 0} → (main_thread : Bool) → (seconds : ℕ) → Body A → (alarm : ℕ) → Ended A
unfolding run
timeout true seconds func alarm = cancelled (run seconds func)
timeout false seconds func alarm = run alarm func
