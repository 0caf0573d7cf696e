-- ===== src/Util/Retry/Attempts.antt =====
-- How often `function_retry` calls the function, and how long it sleeps.
use cluster_deployer.Common.{
  ℕ, zero, suc, ◌+◌, ◌-◌, ◌*◌, ◌<◌, ◌≡◌, refl, ◌∙◌, ap, List, [], ◌∷◌, ◌++◌, ltb, if◌then◌else◌,
  arith, min, Bool-cases, ltb→lt, inl, inr,
}
use mathlib.Core.List.{append_assoc, append-nil}
use cluster_deployer.Util.Retry.{
  Outcome, caught, Loop, running, function_retry_loop, function_retry, after_call,
}

-- n sleeps, each longer than the one before by the factor
abbrev pub backoffs : ℕ → ℕ → ℕ → List ℕ
backoffs zero delay factor = []
backoffs (suc n) delay factor = delay ∷ backoffs n (delay * factor) factor

abbrev pub IsCaught : {A E : Type 0} → Outcome A E → Type 0
IsCaught (caught e) = Unit
IsCaught _ = ⊥

-- The result of the loop after its last call, which caught nothing.
abbrev pub settle : {A E : Type 0} → Outcome A E → ℕ → List ℕ → Loop A E
settle o calls slept = after_call o calls slept running

module _ {A E : Type 0} where
  after_caught :
      (o : Outcome A E) (calls : ℕ) (slept : List ℕ) (rest : Loop A E)
      → IsCaught o
      → after_call o calls slept rest ≡ rest
  after_caught (caught e) calls slept rest h = refl
  after_caught _ calls slept rest h = absurd h

  after_other :
      (o : Outcome A E) (calls : ℕ) (slept : List ℕ) (rest : Loop A E)
      → ¬ IsCaught o
      → after_call o calls slept rest ≡ settle o calls slept
  after_other (caught e) calls slept rest h = absurd (h tt)
  after_other _ calls slept rest h = refl

-- The sleeps so far and those of the later rounds, before and after one round.
sleeps_step :
    (k tries delay factor : ℕ) (slept : List ℕ)
    → (if ltb 0 (tries - 1) then slept ++ delay ∷ [] else slept)
        ++ backoffs
            (min k (tries - 1 - 1))
            (if ltb 0 (tries - 1) then delay * factor else delay)
            factor
      ≡ slept ++ backoffs (min (suc k) (tries - 1)) delay factor
sleeps_step k tries delay factor slept = elim (Bool-cases (ltb 0 (tries - 1))) [
  | inl e ↦
      let lt = ltb→lt 0 (tries - 1) e in
      let n : min (suc k) (tries - 1) ≡ suc (min k (tries - 1 - 1)) = omega arith in
      rw (e, n)
        (append_assoc slept (delay ∷ []) (backoffs (min k (tries - 1 - 1)) (delay * factor) factor))
  | inr e ↦
      let none_left : tries - 1 ≡ 0 = ground arith in
      let a : min k (tries - 1 - 1) ≡ 0 = omega arith in
      let b : min (suc k) (tries - 1) ≡ 0 = omega arith in rw (e, a, b)
]

module _ {A E : Type 0} (fn : ℕ → Outcome A E) (factor : ℕ) where
  loop_running :
      (fuel call tries delay : ℕ) (slept : List ℕ)
      → ((n : ℕ) → IsCaught (fn n))
      → function_retry_loop fn factor fuel call tries delay slept ≡ running
  unfolding function_retry_loop
  loop_running zero call tries delay slept h = refl
  loop_running (suc fuel) call tries delay slept h =
      after_caught (fn call) (call + 1) slept _ (h call)
      ∙ loop_running fuel (call + 1) (tries - 1)
          (if ltb 0 (tries - 1) then delay * factor else delay)
          (if ltb 0 (tries - 1) then slept ++ delay ∷ [] else slept) h

  -- from call `call` on, with k calls before the one that settles
  loop_settles :
      (k fuel call tries delay : ℕ) (slept : List ℕ)
      → k < fuel
      → ((n : ℕ) → n < call + k → IsCaught (fn n))
      → ¬ IsCaught (fn (call + k))
      → function_retry_loop fn factor fuel call tries delay slept
        ≡ settle (fn (call + k)) (call + k + 1) (slept ++ backoffs (min k (tries - 1)) delay factor)
  unfolding function_retry_loop
  loop_settles k zero call tries delay slept lt h n = absurd (omega arith)
  loop_settles zero (suc fuel) call tries delay slept lt h n =
      let a : call + 0 ≡ call = omega arith in
      let b : min 0 (tries - 1) ≡ 0 = omega arith in
      rw (a, b, append-nil) (after_other (fn call) (call + 1) slept _ (rw a at n))
  loop_settles (suc k) (suc fuel) call tries delay slept lt h n =
      let a : call + suc k ≡ call + 1 + k = omega arith in
      rw a (
        after_caught (fn call) (call + 1) slept _ (h call (omega arith))
        ∙ loop_settles k fuel (call + 1) (tries - 1)
            (if ltb 0 (tries - 1) then delay * factor else delay)
            (if ltb 0 (tries - 1) then slept ++ delay ∷ [] else slept) (omega arith)
            (λ i lt'. h i (omega arith)) (rw a at n)
        ∙ ap (settle (fn (call + 1 + k)) (call + 1 + k + 1))
            (sleeps_step k tries delay factor slept))

-- If the first k calls raise an exception that is caught and the next one does not, the loop ends
-- with what that call does, after k + 1 calls, and it has slept min(k, tries - 1) times, at first
-- `delay` seconds and each time longer by the factor `backoff`.
pub function_retry_settles :
    {A E : Type 0} (fn : ℕ → Outcome A E) (k fuel tries delay backoff : ℕ)
    → k < fuel
    → ((n : ℕ) → n < k → IsCaught (fn n))
    → ¬ IsCaught (fn k)
    → function_retry fuel tries delay backoff fn
      ≡ settle (fn k) (k + 1) (backoffs (min k (tries - 1)) delay backoff)
unfolding function_retry
function_retry_settles fn k fuel tries delay backoff lt h n =
    let a : 0 + k ≡ k = omega arith in
    rw a at (
      loop_settles fn backoff k fuel 0 tries delay [] lt (λ i l. h i (omega arith)) (rw (← a) at n))

-- If every call raises an exception that is caught, the loop never ends, whatever `tries` is: with
-- any fuel it is still running. The `raise` behind the loop is not reached.
pub function_retry_never_ends :
    {A E : Type 0} (fn : ℕ → Outcome A E) (fuel tries delay backoff : ℕ)
    → ((n : ℕ) → IsCaught (fn n))
    → function_retry fuel tries delay backoff fn ≡ running
unfolding function_retry
function_retry_never_ends fn fuel tries delay backoff h =
    loop_running fn backoff fuel 0 tries delay [] h
