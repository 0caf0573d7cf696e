-- ===== src/Tasks/Start/Limit.antt =====
-- How many deployments are started at the same time.
use mathlib.Core.Bool.{and-true}
use cluster_deployer.Common.{
  ℕ, suc, ◌+◌, ◌≤◌, ◌<◌, String, ◌≡◌, refl, sym, ap, ◌∙◌, Bool, true, ◌&&◌, List, [], ◌∷◌, map,
  length, leb, lt→ltb, str_eq, All, Bool-cases, inl, inr, arith,
}
use cluster_deployer.Conf.{state_started}
use cluster_deployer.Value.{Fields}
use cluster_deployer.Services.Lock.EtcdClient.{Etcd}
use cluster_deployer.Services.Storage.Collection.{keep, change_first, text_is}
use cluster_deployer.Services.Storage.Mongo.{
  MongoStore, filter_deployments, query_filter, update_state,
}
use cluster_deployer.Services.Storage.Mongo.View.{Entry, view, enter, IsDeployment}
use cluster_deployer.Services.Storage.Mongo.States.{
  has_id, All-map, entries_of, AreDeployments, update_state_exact,
}
use cluster_deployer.Tasks.Platform.{Platform}
use cluster_deployer.Tasks.Monad.{World}
use cluster_deployer.Tasks.Rules.{Passes}
use cluster_deployer.Tasks.Start.{
  number, TaskSettings, started, used_concurrency, start_deployment_task,
}

-- a deployment of the cluster that is started
abbrev pub is_started_in : String → Entry → Bool
is_started_in cluster e =
    text_is (λ t. str_eq t cluster) e.cluster && text_is (λ t. str_eq t state_started) e.state

abbrev pub count : {A : Type 0} → (A → Bool) → List A → ℕ
count q xs = length (keep q xs)

length-map : {A B : Type 0} (f : A → B) (xs : List A) → length (map f xs) ≡ length xs
length-map f [] = refl
length-map f (x ∷ xs) = ap suc (length-map f xs)

keep_all : {A : Type 0} (xs : List A) → keep (λ x. true) xs ≡ xs
keep_all [] = refl
keep_all (x ∷ xs) = ap (λ l. x ∷ l) (keep_all xs)

count-map :
    {A B : Type 0} (f : A → B) (q : A → Bool) (r : B → Bool) (xs : List A)
    → All (λ x. q x ≡ r (f x)) xs
    → count q xs ≡ count r (map f xs)
count-map f q r [] a = refl
count-map f q r (x ∷ xs) (h, a) = ground (arith, count-map f q r xs a)

-- A change of one element adds at most one to a count.
count-change_first :
    {A : Type 0} (q r : A → Bool) (g : A → A) (xs : List A)
    → count q (change_first r g xs) ≤ count q xs + 1
count-change_first q r g [] = omega arith
count-change_first q r g (x ∷ xs) = ground (arith, count-change_first q r g xs)

module _ (p : Platform) (e : Etcd) (now : ℕ → ℕ) where
  -- the deployments of the cluster that are started
  abbrev pub started_count : MongoStore p.mongo → ℕ
  started_count s = count (is_started_in p.cluster_name) (entries_of p.mongo s)

  matches_started :
      (d : Fields)
      → IsDeployment p.mongo d
      → p.mongo.matches (query_filter p.cluster_name started) d
        ≡ is_started_in p.cluster_name (view p.mongo d)
  matches_started d h =
      rw
        (
          p.mongo.matches-is "cluster" p.cluster_name _ d h.plain_cluster,
          p.mongo.matches-is "state" state_started [] d h.plain_state,
          p.mongo.matches-nil d,
        )
        (rw and-true)

  used-eq-started_count :
      (s : MongoStore p.mongo)
      → AreDeployments p.mongo s
      → used_concurrency p e now s ≡ started_count s
  unfolding filter_deployments
  used-eq-started_count s plain =
      length-map (p.mongo.project ("id" ∷ [])) _
      ∙ ap length (sym (keep_all _))
      ∙ p.mongo.length-keep-sort "deployment.version" (λ d. true) _
      ∙ ap length (keep_all _)
      ∙ ap length (p.mongo.find_lem (query_filter p.cluster_name started) s.deployments)
      ∙ count-map (view p.mongo) (p.mongo.matches (query_filter p.cluster_name started))
          (is_started_in p.cluster_name) (p.mongo.docs s.deployments)
          (All-map matches_started (p.mongo.docs s.deployments) plain)

  started_after :
      (now' : ℕ → ℕ) (id : String) (s : MongoStore p.mongo)
      → AreDeployments p.mongo s
      → started_count (update_state p.mongo now' id state_started s) ≤ started_count s + 1
  started_after now' id s plain = rw (update_state_exact p.mongo now' id state_started s plain) (
      count-change_first (is_started_in p.cluster_name) (has_id id) (enter state_started (now' 2))
        (entries_of p.mongo s))

  -- With a limit that is a positive number, a start that returns has found fewer deployments of the
  -- cluster started than the limit, and leaves at most as many started as the limit. A start that
  -- does not return has changed nothing. The store has no array in the fields that filters test.
  pub start_bound :
      (settings : TaskSettings) (n : ℕ) (id : String) (w : World p e)
      → settings.concurrency ≡ number (suc n)
      → AreDeployments p.mongo w.store
      → Passes
          (λ _ w'. (started_count w.store < suc n) × (started_count w'.store ≤ suc n))
          w
          (start_deployment_task p e now settings id w)
  unfolding start_deployment_task
  start_bound settings n id w h plain =
      let used = used-eq-started_count w.store plain in
      let more = started_after now id w.store plain in
      elim (Bool-cases (leb (suc n) (used_concurrency p e now w.store))) [
        | inl full ↦ rw (h, lt→ltb 0 (suc n) (omega arith), full) refl
        | inr free ↦
            rw (h, lt→ltb 0 (suc n) (omega arith), free)
              (ground (arith, used, more), ground (arith, used, more))
      ]
