-- ===== src/Tasks/Fleet/Waits.antt =====
-- The waits: when they let the chain go on, and what they change when they do not.
use native.Mathlib.Nat.{div-add-mod, mod-lt, mul-le-mul_left, mul-add}
use mathlib.Core.List.{append-nil}
use cluster_deployer.Common.{
  ℕ, ◌+◌, ◌*◌, ◌/◌, ◌≤◌, ◌<◌, max, String, ◌≡◌, refl, sym, Bool, false, inl, inr, Option, none,
  some, List, [], ◌∷◌, ◌++◌, ltb, length, All, Bool-cases, arith,
}
use cluster_deployer.Common.Result.{Result, ok, err}
use cluster_deployer.Util.Interval.{to_milliseconds, InvalidInterval}
use cluster_deployer.Value.{Fields}
use cluster_deployer.Services.Lock.EtcdClient.{Etcd}
use cluster_deployer.Services.Storage.Collection.{keep}
use cluster_deployer.Tasks.Platform.{Platform, FleetUnit, codes, is_started}
use cluster_deployer.Tasks.Canvas.{Sig, Next, nothing, next}
use cluster_deployer.Tasks.Monad.{World}
use cluster_deployer.Tasks.Rules.{Passes, fetch_units_cases}
use cluster_deployer.Tasks.Fleet.{
  is_active, check_interval, retries_or_default, timeout_or_default, wait_for_undeploy_task,
  wait_for_stop_task, fleet_check_deploy_task, running_or_retry, undeployed_or_retry,
  stopped_or_retry, check_stopped,
}

-- the signature that is sent, if there is one
abbrev pub next_list : Next → List Sig
next_list nothing = []
next_list (next s) = s ∷ []

keep_none : {A : Type 0} (q : A → Bool) (xs : List A) → keep q xs ≡ [] → All (λ x. q x ≡ false) xs
keep_none q [] h = tt
keep_none q (x ∷ xs) h = elim (Bool-cases (q x)) [
  | inl e ↦ ground arith
  | inr e ↦ (e, keep_none q xs (ground arith))
]

-- The retries of the wait for a stop last longer than the timeout: the number of retries times the
-- seconds between two of them is more than the seconds of the timeout, and they are 2 or more apart.
check_interval_covers :
    (ms n : ℕ) → 0 < n → (ms / 1000 < n * check_interval ms n) × (2 ≤ check_interval ms n)
check_interval_covers ms n h =
    let q = ms / 1000 / n in
    let d = div-add-mod (ms / 1000) n in
    let r = mod-lt (ms / 1000) h in
    let grows : n * (q + 1) ≤ n * max (q + 1) 2 = mul-le-mul_left n (omega arith) in
    (omega (arith, mul-add n q 1), omega arith)

module _ (p : Platform) (e : Etcd) (now : ℕ → ℕ) where
  -- Units that the fleet reports and that pass a test.
  abbrev pub Reported :
      String
      → (version exclude_version : Option String) → World p e
      → (List FleetUnit → Type 0)
      → Type 0
  Reported name version exclude_version w Q =
      (units : List FleetUnit) × (p.filter_units name version exclude_version w.cluster ≡ ok units)
      × Q units

  -- The signatures are sent, and the cluster and the locks are as they were.
  abbrev pub Sends : List Sig → World p e → World p e → Type 0
  Sends sigs w w' = (w'.sent ≡ w.sent ++ sigs) × (w'.cluster ≡ w.cluster) × (w'.locks ≡ w.locks)

  running_gate :
      (name version : String) (n : ℕ) (search_params : Fields) (next_task : Next) (w : World p e)
      (units : List FleetUnit)
      → p.filter_units name (some version) none w.cluster ≡ ok units
      → Passes
          (λ _ w'.
            Reported name (some version) none w (λ us. n ≤ length (keep is_started us))
            × Sends (next_list next_task) w w')
          w
          (running_or_retry p e now name version n search_params next_task units w)
  running_gate name version n search_params nothing w units q =
      elim (Bool-cases (ltb (length (keep is_started units)) n)) [
        | inl few ↦ rw few refl
        | inr enough ↦ rw enough ((units, q, ground arith), (sym (append-nil w.sent), refl, refl))
      ]
  running_gate name version n search_params (next s) w units q =
      elim (Bool-cases (ltb (length (keep is_started units)) n)) [
        | inl few ↦ rw few refl
        | inr enough ↦ rw enough ((units, q, ground arith), (refl, refl, refl))
      ]

  -- `_fleet_check_deploy` goes on only with enough units. If it stops, in a retry or an exception, it
  -- has changed nothing. If it returns, the fleet reports at least `min_nodes * service_cnt` started
  -- units, it has sent the next task and nothing else, and the cluster and the locks are as they were.
  pub fleet_check_deploy_gate :
      (name version : String) (service_cnt min_nodes : ℕ) (search_params : Fields)
      (next_task : Next) (w : World p e)
      → Passes
          (λ _ w'.
            Reported name
              (some version)
              none
              w
              (λ units. min_nodes * service_cnt ≤ length (keep is_started units))
            × Sends (next_list next_task) w w')
          w
          (fleet_check_deploy_task p e now name version service_cnt min_nodes search_params
            next_task w)
  unfolding fleet_check_deploy_task
  fleet_check_deploy_gate name version service_cnt min_nodes search_params next_task w =
      let n = min_nodes * service_cnt in
      fetch_units_cases
        (Passes
          (λ _ w'.
            Reported name (some version) none w (λ units. n ≤ length (keep is_started units))
            × Sends (next_list next_task) w w')
          w)
        w name (some version) none (running_or_retry p e now name version n search_params next_task)
        (running_gate name version n search_params next_task w) (λ f n c. refl) (λ f. refl)

  undeployed_gate :
      (name : String) (version exclude_version : Option String) (search_params : Fields)
      (w : World p e) (units : List FleetUnit)
      → p.filter_units name version exclude_version w.cluster ≡ ok units
      → Passes
          (λ _ w'. Reported name version exclude_version w (λ us. us ≡ []) × Sends [] w w')
          w
          (undeployed_or_retry p e now name version exclude_version search_params units w)
  undeployed_gate name version exclude_version search_params w [] q =
      (([], q, refl), (sym (append-nil w.sent), refl, refl))
  undeployed_gate name version exclude_version search_params w (u ∷ us) q = refl

  -- `_wait_for_undeploy` returns only when the fleet reports no unit of the version any more; if it
  -- stops it has changed nothing.
  pub wait_for_undeploy_gate :
      (name : String) (version exclude_version : Option String) (search_params : Fields)
      (w : World p e)
      → Passes
          (λ _ w'. Reported name version exclude_version w (λ us. us ≡ []) × Sends [] w w')
          w
          (wait_for_undeploy_task p e now name version exclude_version search_params w)
  unfolding wait_for_undeploy_task
  wait_for_undeploy_gate name version exclude_version search_params w =
      fetch_units_cases
        (Passes (λ _ w'. Reported name version exclude_version w (λ us. us ≡ []) × Sends [] w w') w)
        w name version exclude_version
        (undeployed_or_retry p e now name version exclude_version search_params)
        (undeployed_gate name version exclude_version search_params w) (λ f n c. refl) (λ f. refl)

  -- No unit is active.
  abbrev pub AllStopped : List FleetUnit → Type 0
  AllStopped = All (λ u. is_active u ≡ false)

  stopped_gate :
      (name : String) (version exclude_version : Option String) (n interval : ℕ)
      (search_params : Fields) (w : World p e) (units active : List FleetUnit)
      → keep is_active units ≡ active
      → p.filter_units name version exclude_version w.cluster ≡ ok units
      → Passes
          (λ _ w'. Reported name version exclude_version w AllStopped × Sends [] w w')
          w
          (stopped_or_retry p e now name version exclude_version n interval search_params units
            active w)
  stopped_gate name version exclude_version n interval search_params w units [] a q =
      ((units, q, keep_none is_active units a), (sym (append-nil w.sent), refl, refl))
  stopped_gate name version exclude_version n interval search_params w units (u ∷ us) a q = refl

  check_stopped_gate :
      (name : String) (version exclude_version : Option String) (n : ℕ) (search_params : Fields)
      (w : World p e) (timeout : Result InvalidInterval ℕ)
      → Passes
          (λ _ w'. Reported name version exclude_version w AllStopped × Sends [] w w')
          w
          (check_stopped p e now name version exclude_version n search_params timeout w)
  check_stopped_gate name version exclude_version n search_params w (err i) = refl
  check_stopped_gate name version exclude_version n search_params w (ok ms) =
      fetch_units_cases
        (Passes (λ _ w'. Reported name version exclude_version w AllStopped × Sends [] w w') w) w
        name version exclude_version
        (λ units.
          stopped_or_retry p e now name version exclude_version n (check_interval ms n)
            search_params units (keep is_active units))
        (λ units q.
          stopped_gate name version exclude_version n (check_interval ms n) search_params w units
            (keep is_active units) refl q)
        (λ f n' c. refl) (λ f. refl)

  -- `_wait_for_stop` returns only when the fleet reports no active unit: each is `inactive`, `loaded`
  -- or `failed`. If it stops, also on a timeout that is no interval, it has changed nothing.
  wait_for_stop_gate :
      (name : String) (version exclude_version timeout : Option String) (check_retries : Option ℕ)
      (search_params : Fields) (w : World p e)
      → Passes
          (λ _ w'. Reported name version exclude_version w AllStopped × Sends [] w w')
          w
          (wait_for_stop_task p e now name version exclude_version timeout check_retries
            search_params w)
  unfolding wait_for_stop_task
  wait_for_stop_gate name version exclude_version timeout check_retries search_params w =
      check_stopped_gate name version exclude_version (retries_or_default check_retries)
        search_params w (to_milliseconds (codes (timeout_or_default timeout)))
