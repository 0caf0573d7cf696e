-- ===== src/Util/Retry.antt =====
-- `function_retry` and `retry` of deployer/util.py. What `fn` does at each call is a parameter: it
-- returns, it raises one of `except_on`, or it raises something else. Sleeps are recorded. The code
-- counts `mtries` below 0; only `mtries > 0` is tested, so a count that stops at 0 is the same.
pub mod Attempts
use cluster_deployer.Common.{ℕ, zero, suc, ◌+◌, ◌-◌, ◌*◌, List, [], ◌∷◌, ◌++◌, ltb, if◌then◌else◌}

pub data Outcome (A E : Type 0) : Type 0 where
  returned : A → Outcome A E
  caught : E → Outcome A E
  raised : E → Outcome A E

-- How the loop stands: it has returned or raised, after a number of calls and some sleeps, or it is
-- still running when the fuel is used up.
pub data Loop (A E : Type 0) : Type 0 where
  finished : A → (calls : ℕ) → (slept : List ℕ) → Loop A E
  failed : E → (calls : ℕ) → (slept : List ℕ) → Loop A E
  running : Loop A E

-- One call and what follows it: `rest` is the rest of the loop.
abbrev pub after_call : {A E : Type 0} → Outcome A E → ℕ → List ℕ → Loop A E → Loop A E
after_call (returned a) calls slept rest = finished a calls slept
after_call (raised e) calls slept rest = failed e calls slept
after_call (caught e) calls slept rest = rest

module _ {A E : Type 0} (fn : ℕ → Outcome A E) (backoff : ℕ) where
  -- `while True`, from the state before a call
  pub function_retry_loop : ℕ → ℕ → ℕ → ℕ → List ℕ → Loop A E
  function_retry_loop zero call mtries mdelay slept = running
  function_retry_loop (suc fuel) call mtries mdelay slept =
      let sleeps = ltb 0 (mtries - 1) in
      let rest =
        function_retry_loop fuel (call + 1) (mtries - 1)
          (if sleeps then mdelay * backoff else mdelay)
          (if sleeps then slept ++ mdelay ∷ [] else slept) in
      after_call (fn call) (call + 1) slept rest

-- `function_retry(tries, delay, backoff, except_on, fn)`
pub function_retry : {A E : Type 0} → ℕ → ℕ → ℕ → ℕ → (ℕ → Outcome A E) → Loop A E
unfolding function_retry_loop
function_retry fuel tries delay backoff fn = function_retry_loop fn backoff fuel 0 tries delay []
