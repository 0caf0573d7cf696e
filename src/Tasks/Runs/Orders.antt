-- ===== src/Tasks/Runs/Orders.antt =====
-- What the tasks of a deployment send is safe: each waits for what it needs.
use cluster_deployer.Common.{
  ℕ, String, ◌≡◌, refl, false, ◌⊎◌, inl, inr, Option, none, some, List, [], ◌∷◌, str_eq, Bool-cases,
}
use cluster_deployer.Conf.{blue_green}
use cluster_deployer.Value.{Fields}
use cluster_deployer.Tasks.Canvas.{
  Deployment, Sig, Next, nothing, next, signatures, wait_for_stop, wait_for_undeploy, fleet_stop,
  fleet_undeploy, check_node, start_deployment, register_upstreams, check_discover, fleet_deploy,
  fleet_start,
}
use cluster_deployer.Tasks.Create.{min_nodes_of, create_tasks, create_error_tasks, delete_tasks}
use cluster_deployer.Tasks.Platform.{Template}
use cluster_deployer.Tasks.Promote.{
  Before, version_only, all_versions, no_undeploy, undeployed_before, undeploy_chain, followed_by,
  promotion_tasks,
}
use cluster_deployer.Tasks.Runs.Facts.{
  Fact, locked, undeployed, Shows, WithTask, UndeployedFor, Cleared, ReadyToDeploy, ReadyToPromote,
  running_of, Safe, SafeNext, SafeChain, SafeEach,
}
use cluster_deployer.Tasks.Runs.Weaken.{
  Weaker, Safe-mono, SafeNext-mono, ReadyToDeploy-mono, ReadyToPromote-mono,
}

cleared_lem :
    (P : Fact → Type 0) (b : Before) (d : Deployment) → Weaker (UndeployedFor b d) P → Cleared P b d
cleared_lem P version_only d h = h _ refl
cleared_lem P all_versions d h = h _ refl
cleared_lem P no_undeploy d h = tt

-- The tasks of `create` need the lock of the application only.
pub create_tasks-Safe :
    (P : Fact → Type 0) (d : Deployment) (f : Fields)
    → P (locked d.name)
    → Safe P (create_tasks d f)
create_tasks-Safe P d f l =
    let before = undeployed_before d.mode in
    let P1 : Fact → Type 0 = λ x. WithTask P (start_deployment d.id) x ⊎ UndeployedFor before d x in
    let P2 : Fact → Type 0 =
      WithTask P1 (register_upstreams d.name d.version d.upstreams d.mode f) in
    let P3 : Fact → Type 0 = λ x. P2 x ⊎ (x ≡ running_of d) in
    let P4 : Fact → Type 0 =
      WithTask P3 (check_discover d.name d.version d.check_port (min_nodes_of d) d.mode f) in
    let deploys : ReadyToDeploy P2 d =
      (inl (inl (inl l)), inl (inl (inr refl)), cleared_lem P2 before d (λ x h. inl (inr h))) in
    let promotes : ReadyToPromote P4 d =
      (ReadyToDeploy-mono P2 P4 (λ x h. inl (inl h)) d deploys, inl (inr refl), inr refl) in
    (tt, (inl l, (tt, (deploys, (tt, promotes)))))

followed_by-Safe :
    (P A : Fact → Type 0) (t : Sig) (n : Next)
    → Safe P t
    → Weaker A (Shows t)
    → SafeNext (λ x. P x ⊎ A x) n
    → SafeChain P (followed_by t n)
followed_by-Safe P A t nothing h k a = (h, tt)
followed_by-Safe P A t (next s) h k a = (h, (Safe-mono _ _ go s a, tt))
  where
    go : (x : Fact) → P x ⊎ A x → WithTask P t x
    go x (inl b) = inl b
    go x (inr b) = inr (k x b)

pub undeploy_chain-Safe :
    (P : Fact → Type 0) (name : String) (version : Option String) (f : Fields) (n : Next)
    → P (locked name)
    → SafeNext (λ x. P x ⊎ (x ≡ undeployed name version none)) n
    → SafeChain P (undeploy_chain name version f n)
undeploy_chain-Safe P name version f n l h = (
  ((l, tt), inl l),
  followed_by-Safe _ (λ x. x ≡ undeployed name version none) (wait_for_undeploy name version none f)
      n tt (λ x a. a) (SafeNext-mono _ _ go n h),
)
  where
    go :
        (x : Fact)
        → P x ⊎ (x ≡ undeployed name version none)
        → (P x ⊎ ⊥) ⊎ (x ≡ undeployed name version none)
    go x (inl b) = inl (inl b)
    go x (inr b) = inr b

pub promotion_tasks-Safe :
    (P : Fact → Type 0) (d : Deployment) (f : Fields)
    → ReadyToPromote P d
    → SafeChain P (promotion_tasks d f)
promotion_tasks-Safe P d f h =
    let stopped =
      wait_for_stop d.name none (some d.version) (some d.stop_timeout) (some d.stop_check_retries)
        f in
    let P2 : Fact → Type 0 =
      WithTask (WithTask P (fleet_stop d.name none (some d.version) 60)) stopped in
    let P4 : Fact → Type 0 =
      WithTask (WithTask P2 (fleet_undeploy d.name none (some d.version) false))
        (wait_for_undeploy d.name none (some d.version) f) in
    let ready : ReadyToPromote P4 d =
      ReadyToPromote-mono P P4 (λ x a. inl (inl (inl (inl a)))) d h in
    elim (Bool-cases (str_eq d.mode blue_green)) [
      | inl q ↦ rw q (h.0.0, (tt, (inl (inl h.0.0), (tt, ((ready, rw q (inr refl)), tt)))))
      | inr q ↦ rw q ((h, rw q tt), tt)
    ]

-- the members of the groups
pub deploys-Safe :
    (P : Fact → Type 0) (f : Fields) (d : Deployment) (ts : List (String × Template))
    → P (locked d.name)
    → SafeEach P
        (signatures (λ t. fleet_deploy f d.name d.version d.nodes t.0 t.1 d.security_profile) ts)
deploys-Safe P f d [] l = tt
deploys-Safe P f d (t ∷ ts) l = (l, deploys-Safe P f d ts l)

pub starts-Safe :
    (P : Fact → Type 0) (f : Fields) (d : Deployment) (ts : List (String × Template))
    → P (locked d.name)
    → SafeEach P (signatures (λ t. fleet_start f d.name d.version d.nodes t.0 t.1) ts)
starts-Safe P f d [] l = tt
starts-Safe P f d (t ∷ ts) l = (l, starts-Safe P f d ts l)

pub checks-Safe :
    (P : Fact → Type 0) (path : String) (attempts : ℕ) (timeout : String)
    (ns : List (String × String))
    → SafeEach P (signatures (λ node. check_node node.1 path attempts timeout) ns)
checks-Safe P path attempts timeout [] = tt
checks-Safe P path attempts timeout (n ∷ ns) = (tt, checks-Safe P path attempts timeout ns)

pub create_error_tasks-Safe :
    (P : Fact → Type 0) (d : Deployment) (f : Fields)
    → P (locked d.name)
    → SafeChain P (create_error_tasks d f)
create_error_tasks-Safe P d f l = (tt, (inl l, tt))

pub delete_tasks-Safe :
    (P : Fact → Type 0) (name : String) (version : Option String) (f : Fields)
    → P (locked name)
    → Safe P (delete_tasks name version f)
delete_tasks-Safe P name version f l = (((l, tt), inl l), tt)
