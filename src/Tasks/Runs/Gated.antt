-- ===== src/Tasks/Runs/Gated.antt =====
-- In every order of the tasks, a task of a deployment runs only after what it needs has happened.
use cluster_deployer.Common.{
  ℕ, String, ◌≡◌, refl, sym, subst, ◌⊎◌, inl, inr, Option, List, [], ◌∷◌, ◌++◌, str_eq, All,
  All-append, All-mono, All_middle, All-others,
}
use cluster_deployer.Conf.{blue_green}
use cluster_deployer.Value.{Fields}
use cluster_deployer.Services.Lock.{LockService}
use cluster_deployer.Services.Lock.EtcdClient.{Etcd}
use cluster_deployer.Tasks.Canvas.{
  Deployment, Sig, fleet_stop, fleet_undeploy, fleet_deploy, fleet_start, promote_success,
}
use cluster_deployer.Tasks.Create.{delete_task}
use cluster_deployer.Tasks.Monad.{World}
use cluster_deployer.Tasks.Platform.{Platform}
use cluster_deployer.Tasks.Runs.{
  Focus, System, MayRun, fresh, left, logged, after_run, Step, runs, creates, deletes, loses,
  delivers_again, drifts, Reach, starts, goes_on,
}
use cluster_deployer.Tasks.Runs.Dispatch.{Ended, done, again, failed, Input, dispatch}
use cluster_deployer.Tasks.Runs.Facts.{Fact, locked, Shows, WithTask, Safe, ReadyToPromote, Retired}
use cluster_deployer.Tasks.Runs.Kept.{Gained, Weaker-Gained, dispatch-Safe}
use cluster_deployer.Tasks.Runs.Orders.{delete_tasks-Safe}
use cluster_deployer.Tasks.Runs.Past.{Holds, Past, dispatch-Holds}
use cluster_deployer.Tasks.Runs.Remains.{SafeRest, Focus-Safe, option_list-Safe}
use cluster_deployer.Tasks.Runs.Weaken.{Weaker, Safe-mono}
use cluster_deployer.Tasks.Start.{TaskSettings}

All-same : (P Q : Fact → Type 0) → Weaker P Q → (l : List Sig) → All (Safe P) l → All (Safe Q) l
All-same P Q h = All-mono (Safe P) (Safe Q) (Safe-mono P Q h)

-- What takes the place of the signature is safe.
left-Safe :
    (P : Fact → Type 0) (end : Ended) (s t : Sig) (rest : Option Sig) (rescue : List Sig)
    → Safe P s
    → SafeRest (WithTask P t) rest
    → All (Safe P) rescue
    → All (Safe (Gained P t end)) (left end s rest rescue)
left-Safe P done s t rest rescue h k b = option_list-Safe (WithTask P t) rest k
left-Safe P again s t rest rescue h k b = (h, tt)
left-Safe P failed s t rest rescue h k b = b

-- The signatures that take the place of one.
placed :
    (Q : Sig → Type 0) (before behind new sent : List Sig)
    → All Q (before ++ behind)
    → All Q new
    → All Q sent
    → All Q (before ++ (new ++ (behind ++ sent)))
placed Q [] behind new sent h k l =
    All-append Q new (behind ++ sent) k (All-append Q behind sent h l)
placed Q (x ∷ xs) behind new sent h k l = (h.0, placed Q xs behind new sent h.1 k l)

module _ (p : Platform) (e : Etcd) (now now_event : ℕ → ℕ) (settings : TaskSettings)
    (service : LockService) where
  abbrev pub PastOf : System p e → Fact → Type 0
  PastOf y = Past p e now now_event settings service y.returned

  abbrev Inv : System p e → Type 0
  Inv y = All (Safe (PastOf y)) y.waiting

  -- the task is on record with what it shows
  Gained-logged :
      (end : Ended) (t : Sig) (w : World p e) (past : List (Sig × World p e))
      → (end ≡ done → (x : Fact) → Shows t x → Holds p e now now_event settings service x w)
      → Weaker
          (Gained (Past p e now now_event settings service past) t end)
          (Past p e now now_event settings service (logged end t w past))
  Gained-logged done t w past h x (inl a) = inr a
  Gained-logged done t w past h x (inr b) = inl (b, h refl x b)
  Gained-logged again t w past h x a = a
  Gained-logged failed t w past h x a = a

  runs-Inv :
      (y : System p e) (i : Input) (before behind : List Sig) (s t : Sig) (rest : Option Sig)
      (rescue : List Sig)
      → y.waiting ≡ before ++ s ∷ behind
      → Focus s t rest rescue
      → Inv y
      → Inv (
          after_run y before behind s t rest rescue
            (dispatch p e now now_event settings service i t (fresh y.world)))
  runs-Inv y i before behind s t rest rescue q f inv =
      let P = PastOf y in
      let w = fresh y.world in
      let (end, w1) = dispatch p e now now_event settings service i t w in
      let all : All (Safe P) (before ++ s ∷ behind) = subst (All (Safe P)) q inv in
      let others : All (Safe P) (before ++ behind) = All-others (Safe P) before s behind all in
      let safe : Safe P s = All_middle (Safe P) before s behind all in
      let (task, more, bad) = Focus-Safe P f safe in
      let grows =
        Gained-logged end t w y.returned
          (dispatch-Holds p e now now_event settings service i t w) in
      let after : Fact → Type 0 = PastOf (after_run y before behind s t rest rescue (end, w1)) in
      placed (Safe after) before behind (left end s rest rescue) w1.sent
        (All-same P after (λ x h. grows x (Weaker-Gained P t end x h)) (before ++ behind) others)
        (All-same (Gained P t end) after grows (left end s rest rescue)
          (left-Safe P end s t rest rescue safe more bad))
        (All-same (Gained P t end) after grows w1.sent
          (dispatch-Safe p e now now_event settings service P i t w refl task))

  Step-Inv : (y z : System p e) → Step p e now now_event settings service y z → Inv y → Inv z
  unfolding delete_task
  Step-Inv y z (runs i before behind {s} {t} {rest} {rescue} q f r) h =
      subst Inv (sym r) (runs-Inv y i before behind s t rest rescue q f h)
  Step-Inv y z (creates v r) h = subst Inv (sym r) (tt, h)
  Step-Inv y z (deletes name version f r) h =
      let Q : Fact → Type 0 = λ x. PastOf y x ⊎ (x ≡ locked name) in
      subst Inv (sym r) ((delete_tasks-Safe Q name version f (inr refl), tt), h)
  Step-Inv y z (loses before behind s q r) h =
      let P = PastOf y in
      subst Inv (sym r) (All-others (Safe P) before s behind (subst (All (Safe P)) q h))
  Step-Inv y z (delivers_again before behind s q r) h =
      let P = PastOf y in
      subst Inv (sym r) (All_middle (Safe P) before s behind (subst (All (Safe P)) q h), h)
  Step-Inv y z (drifts w r) h = subst Inv (sym r) h

  Reach-Inv : (z : System p e) → Reach p e now now_event settings service z → Inv z
  Reach-Inv z (starts w) = tt
  Reach-Inv z (goes_on {y} r st) = Step-Inv y z st (Reach-Inv y r)

  pub may_run-Safe :
      (z : System p e) (t : Sig)
      → Reach p e now now_event settings service z
      → MayRun z t
      → Safe (PastOf z) t
  may_run-Safe z t r m =
      let P = PastOf z in
      let all : All (Safe P) (m.before ++ m.signature ∷ m.behind) =
        subst (All (Safe P)) m.waits (Reach-Inv z r) in
      (Focus-Safe P m.focus (All_middle (Safe P) m.before m.signature m.behind all)).0

  -- In every order of the tasks of any creates and deletes, with tasks that are retried, fail, are lost
  -- or are run again, and with any changes to the cluster, the locks and the store between them:
  -- whenever `_promote_success` of a deployment may run, all that `_promote_deployment` of it needs has
  -- happened, and if its mode is blue-green a `_wait_for_undeploy` has returned before that found no unit
  -- of another version.
  pub success_waits :
      (d : Deployment) (f : Fields) (z : System p e)
      → Reach p e now now_event settings service z
      → MayRun z (promote_success d f)
      → ReadyToPromote (Past p e now now_event settings service z.returned) d
        × Retired (Past p e now now_event settings service z.returned) (str_eq d.mode blue_green) d
  success_waits d f z r m = may_run-Safe z (promote_success d f) r m

  -- The task changes units of the application.
  abbrev pub Changes : Sig → (name : String) → Type 0
  Changes (fleet_stop name version exclude_version countdown) n = n ≡ name
  Changes (fleet_undeploy name version exclude_version ignore_error) n = n ≡ name
  Changes (fleet_deploy f name version nodes service_type t profile) n = n ≡ name
  Changes (fleet_start f name version nodes service_type t) n = n ≡ name
  Changes _ n = ⊥

  changes-locked :
      (P : Fact → Type 0) (t : Sig) (name : String) → Safe P t → Changes t name → P (locked name)
  changes-locked P (fleet_stop name version exclude_version countdown) n h q =
      subst (λ x. P (locked x)) (sym q) h
  changes-locked P (fleet_undeploy name version exclude_version ignore_error) n h q =
      subst (λ x. P (locked x)) (sym q) h
  changes-locked P (fleet_deploy f name version nodes service_type t profile) n h q =
      subst (λ x. P (locked x)) (sym q) h
  changes-locked P (fleet_start f name version nodes service_type t) n h q =
      subst (λ x. P (locked x)) (sym q) h
  changes-locked P t n h q = absurd q

  -- In every order of the tasks of any creates and deletes, with tasks that are retried, fail, are lost
  -- or are run again, and with any changes to the cluster, the locks and the store between them:
  -- a task that deploys, starts, stops or undeploys units of an application may run only after a
  -- `_using_lock` of the application has returned, which found its lock free.
  pub units_change_after_lock :
      (t : Sig) (name : String) (z : System p e)
      → Changes t name
      → Reach p e now now_event settings service z
      → MayRun z t
      → Past p e now now_event settings service z.returned (locked name)
  units_change_after_lock t name z c r m = changes-locked (PastOf z) t name (may_run-Safe z t r m) c
