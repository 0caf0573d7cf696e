-- ===== src/Tasks/Check/Gates.antt =====
-- What the checks let through.
use mathlib.Core.List.{append-nil}
use cluster_deployer.Common.{
  ℕ, ◌≤◌, String, ◌≡◌, refl, sym, ◌<◌, Bool, true, false, ◌⊎◌, inl, inr, Option, none, some, List,
  [], ◌∷◌, ◌++◌, length, ltb, str_eq, Bool-cases, arith,
}
use cluster_deployer.Value.{Fields}
use cluster_deployer.Services.Lock.EtcdClient.{Etcd}
use cluster_deployer.Tasks.Platform.{Platform}
use cluster_deployer.Tasks.Canvas.{
  Sigs, nil, cons, Next, nothing, next, chord, check_node, deployment_check_passed, signatures,
}
use cluster_deployer.Tasks.Monad.{World}
use cluster_deployer.Tasks.Rules.{Passes}
use cluster_deployer.Tasks.Fleet.{send_next}
use cluster_deployer.Tasks.Fleet.Waits.{next_list}
use cluster_deployer.Tasks.Check.{
  get_discovered_nodes, discovered_or_retry, check_discover_task, check_deployment_task,
}

-- A check for each node, in order, on the path, with the attempts and the timeout.
abbrev pub ChecksEach :
    (path : String) (attempts : ℕ) (timeout : String) → List (String × String) → Sigs → Type 0
ChecksEach path attempts timeout [] nil = Unit
ChecksEach path attempts timeout ((k, node) ∷ ns) (cons (check_node n q a t) ss) =
    (n ≡ node)
    × (q ≡ path)
    × (a ≡ attempts)
    × (t ≡ timeout)
    × ChecksEach path attempts timeout ns ss
ChecksEach path attempts timeout _ _ = ⊥

signatures-ChecksEach :
    (path : String) (attempts : ℕ) (timeout : String) (ns : List (String × String))
    → ChecksEach path attempts timeout ns
        (signatures (λ node. check_node node.1 path attempts timeout) ns)
signatures-ChecksEach path attempts timeout [] = tt
signatures-ChecksEach path attempts timeout ((k, node) ∷ ns) =
    (refl, refl, refl, refl, signatures-ChecksEach path attempts timeout ns)

-- no path, or an empty one
abbrev pub is_empty : (path : Option String) → Bool
is_empty none = true
is_empty (some path) = str_eq path ""

module _ (p : Platform) (e : Etcd) (now : ℕ → ℕ) where
  discovered_gate :
      (app_name app_version : String) (min_nodes : ℕ) (search_params : Fields)
      (nodes : List (String × String)) (w : World p e)
      → Passes
          (λ found w'.
            (found ≡ nodes)
            × (min_nodes ≤ length nodes)
            × (w'.sent ≡ w.sent)
            × (w'.cluster ≡ w.cluster)
            × (w'.locks ≡ w.locks))
          w
          (discovered_or_retry p e now app_name app_version min_nodes search_params nodes w)
  discovered_gate app_name app_version min_nodes search_params nodes w =
      elim (Bool-cases (ltb (length nodes) min_nodes)) [
        | inl few ↦ rw few refl
        | inr enough ↦ rw enough (refl, ground arith, refl, refl, refl)
      ]

  -- `_check_discover` with a port returns only the nodes that the proxy has discovered for the
  -- application, the port and the mode, and only if they are at least as many as asked for; it sends
  -- nothing and leaves the cluster and the locks. If it stops it has changed nothing.
  pub check_discover_gate :
      (app_name app_version port : String) (min_nodes : ℕ) (mode : String) (search_params : Fields)
      (w : World p e)
      → Passes
          (λ found w'.
            (found ≡ get_discovered_nodes p e now app_name app_version port mode w.cluster)
            × (min_nodes
                ≤ length (get_discovered_nodes p e now app_name app_version port mode w.cluster))
            × (w'.sent ≡ w.sent)
            × (w'.cluster ≡ w.cluster)
            × (w'.locks ≡ w.locks))
          w
          (check_discover_task p e now app_name app_version
            (some port)
            min_nodes
            mode
            search_params
            w)
  unfolding check_discover_task
  check_discover_gate app_name app_version port min_nodes mode search_params w =
      discovered_gate app_name app_version min_nodes search_params
        (get_discovered_nodes p e now app_name app_version port mode w.cluster) w

  -- The next task is sent at once.
  abbrev pub GoesOn : (next_task : Next) → World p e → World p e → Type 0
  GoesOn next_task w w' = w'.sent ≡ w.sent ++ next_list next_task

  -- One check of the path is sent for each node, and the next task only as what follows when all pass.
  abbrev pub ChecksFirst :
      (path : Option String) (attempts : ℕ) (timeout : String)
      → List (String × String)
      → Fields
      → (next_task : Next) → World p e
      → World p e
      → Type 0
  ChecksFirst none attempts timeout nodes search_params next_task w w' = ⊥
  ChecksFirst (some path) attempts timeout nodes search_params next_task w w' =
      (checks : Sigs) × (w'.sent
        ≡ w.sent ++ chord checks (deployment_check_passed search_params next_task) ∷ [])
      × ChecksEach path attempts timeout nodes checks

  -- what `_check_deployment` does with the nodes and the path
  abbrev pub ChecksOrGoesOn :
      List (String × String)
      → (path : Option String) (attempts : ℕ) (timeout : String) → Fields
      → (next_task : Next) → World p e
      → World p e
      → Type 0
  ChecksOrGoesOn nodes path attempts timeout search_params next_task w w' =
      (((nodes ≡ []) ⊎ (is_empty path ≡ true)) × GoesOn next_task w w')
      ⊎ ((0 < length nodes)
          × (is_empty path ≡ false)
          × ChecksFirst path attempts timeout nodes search_params next_task w w')

  goes_on :
      (next_task : Next) (w : World p e) → GoesOn next_task w (send_next p e now next_task w).1
  goes_on nothing w = sym (append-nil w.sent)
  goes_on (next s) w = refl

  -- `_check_deployment` goes on to the next task without a check where there is no node, or no path, or an
  -- empty one. With nodes and a path it sends one check of that path for each node, with the attempts
  -- and the timeout, and the next task is left to what follows when all of them pass.
  pub check_deployment_exact :
      (nodes : List (String × String)) (path : Option String) (attempts : ℕ) (timeout : String)
      (search_params : Fields) (next_task : Next) (w : World p e)
      → ChecksOrGoesOn nodes path attempts timeout search_params next_task w
          (check_deployment_task p e now nodes path attempts timeout search_params next_task w).1
  unfolding check_deployment_task
  check_deployment_exact nodes none attempts timeout search_params next_task w =
      inl (inr refl, goes_on next_task w)
  check_deployment_exact [] (some path) attempts timeout search_params next_task w =
      elim (Bool-cases (str_eq path "")) [
        | inl q ↦ inl (inl refl, rw q (goes_on next_task w))
        | inr q ↦ inl (inl refl, rw q (goes_on next_task w))
      ]
  check_deployment_exact (n ∷ ns) (some path) attempts timeout search_params next_task w =
      elim (Bool-cases (str_eq path "")) [
        | inl q ↦ inl (inr q, rw q (goes_on next_task w))
        | inr q ↦ inr (
          omega arith,
          q,
          rw q (
            signatures (λ node. check_node node.1 path attempts timeout) (n ∷ ns),
            refl,
            signatures-ChecksEach path attempts timeout (n ∷ ns),
          ),
        )
      ]
