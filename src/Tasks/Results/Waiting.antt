-- ===== src/Tasks/Results/Waiting.antt =====
-- `async_wait`: when it ends, and how.
use cluster_deployer.Common.{
  ℕ, ◌≡◌, refl, sym, ◌∙◌, ◌⊎◌, inl, inr, Option, none, some, Option-cases,
}
use cluster_deployer.Common.Result.{Result, ok, err}
use cluster_deployer.Tasks.Results.{
  TaskExecution, execution, chord_error, other_error, TaskResult, plain, many, group_result,
  async_result, Status, pending, started_or_retry, success, failure, TaskResults, no_results, also,
  Output, exception, Outputs, or_else, check_or_raise, check_all, check_error, Unread, not_ready,
  raises, unless_raised, as_list, in_front, simple_result, simple_results, Waited, done, again,
  failed, waited, async_wait_task,
}
use cluster_deployer.Tasks.Results.Reached.{
  IsPassedOver, HasSucceeded, HaveSucceeded, IsUnbroken, IsPending, ArePending, Raises, SomeRaises,
}
use cluster_deployer.Value.{Value}

some_injective : {A : Type 0} {a b : A} → Path (Option A) (some a) (some b) → a ≡ b
some_injective h = cc

mutual
  unfolding check_or_raise

  check_or_raise-Raises :
      (r : TaskResult) (x : TaskExecution) → check_or_raise r ≡ some x → Raises x r
  check_or_raise-Raises (plain v) x h = cc
  check_or_raise-Raises (many rs) x h = cc
  check_or_raise-Raises (group_result rs) x h = check_all-SomeRaises rs x h
  check_or_raise-Raises (async_result pending parent) x h = cc
  check_or_raise-Raises (async_result started_or_retry parent) x h = cc
  check_or_raise-Raises (async_result (success r) parent) x h = cc
  check_or_raise-Raises (async_result (failure (execution y) t) parent) x h =
      inl (sym (some_injective h))
  check_or_raise-Raises (async_result (failure (chord_error c) t) parent) x h =
      inr (check_or_raise-Raises parent x h)
  check_or_raise-Raises (async_result (failure (other_error c) t) parent) x h =
      inl (sym (some_injective h))

  check_all-SomeRaises :
      (rs : TaskResults) (x : TaskExecution) → check_all rs ≡ some x → SomeRaises x rs
  check_all-SomeRaises no_results x h = cc
  check_all-SomeRaises (also r rs) x h = elim (Option-cases (check_or_raise r)) [
    | inl q ↦ inr (check_all-SomeRaises rs x (rw q at h))
    | inr (y, q) ↦ inl (check_or_raise-Raises r x (q ∙ rw q at h))
  ]

check_error-Raises : (r : TaskResult) (x : TaskExecution) → check_error r ≡ some x → Raises x r
unfolding check_error
check_error-Raises (async_result s parent) x h =
    elim (Option-cases (check_or_raise (async_result s parent))) [
      | inl q ↦ inr (check_error-Raises parent x (rw q at h))
      | inr (y, q) ↦ check_or_raise-Raises (async_result s parent) x (q ∙ rw q at h)
    ]
check_error-Raises _ x h = cc

check_or_raise-IsPassedOver :
    (s : Status) (parent : TaskResult)
    → check_or_raise (async_result s parent) ≡ none
    → IsPassedOver s
unfolding check_or_raise
check_or_raise-IsPassedOver pending parent h = tt
check_or_raise-IsPassedOver started_or_retry parent h = tt
check_or_raise-IsPassedOver (success r) parent h = tt
check_or_raise-IsPassedOver (failure (execution x) t) parent h = cc
check_or_raise-IsPassedOver (failure (chord_error c) t) parent h = tt
check_or_raise-IsPassedOver (failure (other_error c) t) parent h = cc

or_else-none : (a b : Option TaskExecution) → or_else a b ≡ none → (a ≡ none) × (b ≡ none)
or_else-none none b h = (refl, h)
or_else-none (some x) b h = cc

check_error-IsUnbroken : (r : TaskResult) → check_error r ≡ none → IsUnbroken r
unfolding check_error
check_error-IsUnbroken (async_result s parent) h =
    let (a, b) = or_else-none (check_or_raise (async_result s parent)) (check_error parent) h in
    (check_or_raise-IsPassedOver s parent a, check_error-IsUnbroken parent b)
check_error-IsUnbroken _ h = tt

-- what the answer of a look says of the results
abbrev Tells :
    {A : Type 0} → (success not_done : Type 0) → (TaskExecution → Type 0) → Result Unread A → Type 0
Tells S N R (ok o) = S
Tells S N R (err not_ready) = N
Tells S N R (err (raises x)) = R x

Tells-unless_raised :
    {A : Type 0} (S N : Type 0) (R : TaskExecution → Type 0) (o : Option TaskExecution)
    (r : Result Unread A)
    → ((x : TaskExecution) → o ≡ some x → R x)
    → (o ≡ none → Tells S N R r)
    → Tells S N R (unless_raised o r)
Tells-unless_raised S N R none r h k = k refl
Tells-unless_raised S N R (some x) r h k = h x refl

Tells-as_list :
    (S N : Type 0) (R : TaskExecution → Type 0) (r : Result Unread Outputs)
    → Tells S N R r
    → Tells S N R (as_list r)
Tells-as_list S N R (ok os) h = h
Tells-as_list S N R (err not_ready) h = h
Tells-as_list S N R (err (raises x)) h = h

Tells-in_front :
    (S N S' N' : Type 0) (R R' : TaskExecution → Type 0) (a : Result Unread Output)
    (b : Result Unread Outputs)
    → Tells S N R a
    → Tells S' N' R' b
    → Tells (S × S') (N ⊎ N') (λ x. R x ⊎ R' x) (in_front a b)
Tells-in_front S N S' N' R R' (err not_ready) b h k = inl h
Tells-in_front S N S' N' R R' (err (raises x)) b h k = inl h
Tells-in_front S N S' N' R R' (ok o) (err not_ready) h k = inr k
Tells-in_front S N S' N' R R' (ok o) (err (raises x)) h k = inr k
Tells-in_front S N S' N' R R' (ok o) (ok os) h k = (h, k)

Tells-success :
    (S N U : Type 0) (R R' : TaskExecution → Type 0) (r : Result Unread Output)
    → U
    → Tells S N R r
    → Tells (S × U) N (λ x. R x ⊎ R' x) r
Tells-success S N U R R' (ok o) u h = (h, u)
Tells-success S N U R R' (err not_ready) u h = h
Tells-success S N U R R' (err (raises x)) u h = inl h

-- the two checks of a task, and then what its status says
Tells-checked :
    (s : Status) (parent : TaskResult) (r : Result Unread Output)
    → (IsPassedOver s
        → IsUnbroken parent
        → Tells
            (HasSucceeded (async_result s parent))
            (IsPending (async_result s parent))
            (λ x. Raises x (async_result s parent))
            r)
    → Tells
        (HasSucceeded (async_result s parent))
        (IsPending (async_result s parent))
        (λ x. Raises x (async_result s parent))
        (unless_raised
          (check_error (async_result s parent))
          (unless_raised (check_or_raise (async_result s parent)) r))
Tells-checked s parent r h =
    Tells-unless_raised _ _ (λ x. Raises x (async_result s parent))
      (check_error (async_result s parent)) _ (check_error-Raises (async_result s parent))
      (λ q.
        let (a, b) = check_error-IsUnbroken (async_result s parent) q in
        Tells-unless_raised _ _ (λ x. Raises x (async_result s parent))
          (check_or_raise (async_result s parent)) r (check_or_raise-Raises (async_result s parent))
          (λ _. h a b))

mutual
  unfolding simple_result

  simple_result-Tells :
      (r : TaskResult) → Tells (HasSucceeded r) (IsPending r) (λ x. Raises x r) (simple_result r)
  simple_result-Tells (plain v) = tt
  simple_result-Tells (many rs) =
      Tells-as_list _ _ (λ x. SomeRaises x rs) (simple_results rs) (simple_results-Tells rs)
  simple_result-Tells (group_result rs) =
      Tells-as_list _ _ (λ x. SomeRaises x rs) (simple_results rs) (simple_results-Tells rs)
  simple_result-Tells (async_result pending parent) =
      Tells-unless_raised _ _ (λ x. Raises x (async_result pending parent))
        (check_error (async_result pending parent)) _
        (check_error-Raises (async_result pending parent)) (λ _. tt)
  simple_result-Tells (async_result started_or_retry parent) =
      Tells-unless_raised _ _ (λ x. Raises x (async_result started_or_retry parent))
        (check_error (async_result started_or_retry parent)) _
        (check_error-Raises (async_result started_or_retry parent)) (λ _. tt)
  simple_result-Tells (async_result (success r) parent) =
      Tells-checked (success r) parent (simple_result r) (λ a b.
        Tells-success (HasSucceeded r) (IsPending r) (IsUnbroken parent) (λ x. Raises x r)
          (λ x. Raises x parent) (simple_result r) b (simple_result-Tells r))
  simple_result-Tells (async_result (failure f t) parent) =
      Tells-checked (failure f t) parent (ok (exception f)) (λ a b. (a, b))

  simple_results-Tells :
      (rs : TaskResults)
      → Tells (HaveSucceeded rs) (ArePending rs) (λ x. SomeRaises x rs) (simple_results rs)
  simple_results-Tells no_results = tt
  simple_results-Tells (also r rs) =
      Tells-in_front (HasSucceeded r) (IsPending r) (HaveSucceeded rs) (ArePending rs)
        (λ x. Raises x r) (λ x. SomeRaises x rs) (simple_result r) (simple_results rs)
        (simple_result-Tells r) (simple_results-Tells rs)

-- The end of a wait, in terms of the results that it waits for.
abbrev pub EndsFor : (default_retry_delay max_retries : ℕ) → TaskResult → Waited → Type 0
EndsFor d m r (done o) = HasSucceeded r
EndsFor d m r (again countdown max_retries) = IsPending r × (countdown ≡ d) × (max_retries ≡ m)
EndsFor d m r (failed x) = Raises x r

waited-EndsFor :
    (d m : ℕ) (ret_value : Value) (r : TaskResult) (a : Result Unread Output)
    → Tells (HasSucceeded r) (IsPending r) (λ x. Raises x r) a
    → EndsFor d m r (waited d m ret_value a)
waited-EndsFor d m ret_value r (ok o) h = h
waited-EndsFor d m ret_value r (err not_ready) h = (h, refl, refl)
waited-EndsFor d m ret_value r (err (raises x)) h = h

-- The wait returns only if every task that it reaches is done and none of them, and none of their
-- ancestors up to the first that is a group, has failed but with `ChordError`. It asks for a retry, with the delay and the number that it
-- was given, only if a task that it reaches is not done. It raises only the exception that stands for
-- the failure of a task that it reaches, or of an ancestor of one.
pub async_wait_exact :
    (default_retry_delay max_retries : ℕ) (ret_value : Value) (r : TaskResult)
    → EndsFor default_retry_delay max_retries r
        (async_wait_task default_retry_delay max_retries ret_value r)
unfolding async_wait_task
async_wait_exact d m ret_value r =
    waited-EndsFor d m ret_value r (simple_result r) (simple_result-Tells r)
