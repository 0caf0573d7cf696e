-- ===== src/Tasks/Promote/Single.antt =====
-- After a promotion no other deployment of the application is promoted.
use cluster_deployer.Common.{
  ℕ, String, ◌≡◌, refl, sym, ap, subst, true, false, Option, none, some, List, All,
}
use cluster_deployer.Conf.{state_promoted, state_decommissioned}
use cluster_deployer.Value.{null, Fields}
use cluster_deployer.Services.Lock.EtcdClient.{Etcd}
use cluster_deployer.Services.Storage.Collection.{change_first}
use cluster_deployer.Services.Storage.Mongo.{add_event}
use cluster_deployer.Services.Storage.Mongo.View.{Entry, enter}
use cluster_deployer.Services.Storage.Mongo.States.{
  has_id, All-map, entries_of, AreDeployments, update_state_exact,
}
use cluster_deployer.Services.Storage.Mongo.Kept.{
  is_promoted_app, update_state_bulk_clears, update_state_bulk-AreDeployments, All-change_first,
}
use cluster_deployer.Tasks.Platform.{Platform}
use cluster_deployer.Tasks.Canvas.{Deployment}
use cluster_deployer.Tasks.Monad.{World, Task, Outcome, returned, retry, raised, ◌>>=◌, ◌>>◌}
use cluster_deployer.Tasks.Rules.{Ends, after, bind-after}
use cluster_deployer.Tasks.Fleet.{fleet_undeploy_task}
use cluster_deployer.Tasks.Fleet.Undeploy.{UndeployEnds, decommission, fleet_undeploy_exact}
use cluster_deployer.Tasks.Promote.{promote_success_task}

-- A deployment of the application is promoted only if it has the id.
abbrev pub OnlyPromoted : (cluster name id : String) → Entry → Type 0
OnlyPromoted cluster name id e = is_promoted_app cluster name none e ≡ true → has_id id e ≡ true

module _ {W A B : Type 0} where
  -- A task that may stop, before one that always returns.
  Ends-bind :
      (S : W → Type 0) (Q : A → W → Type 0) (R : B → W → Type 0) (m : Task W A) (k : A → Task W B)
      (w : W)
      → Ends S Q (m w)
      → ((a : A) (w1 : W) → Q a w1 → (b : B) × (w2 : W) × (k a w1 ≡ (returned b, w2)) × R b w2)
      → Ends S R ((m >>= k) w)
  Ends-bind S Q R m k w h f = subst (Ends S R) (sym (bind-after m k w)) (go (m w) h)
    where
      go : (r : Outcome A × W) → Ends S Q r → Ends S R (after k r)
      go (returned a, w1) q = let (b, w2, eq, r) = f a w1 q in subst (Ends S R) (sym eq) r
      go (retry x n c, w1) q = q
      go (raised x, w1) q = q

only_this :
    (cluster name id : String) (t : ℕ) (es : List Entry)
    → All (λ e. is_promoted_app cluster name none e ≡ false) es
    → All (OnlyPromoted cluster name id) (change_first (has_id id) (enter state_promoted t) es)
only_this cluster name id t es h =
    All-change_first (OnlyPromoted cluster name id) (has_id id) (enter state_promoted t) es
      (λ e k q r. q) (All-map (λ e q r. cc) es h)

module _ (p : Platform) (e : Etcd) (now now_event : ℕ → ℕ) where
  promote_success_store :
      (d : Deployment) (search_params : Fields) (w : World p e)
      → AreDeployments p.mongo w.store
      → All
          (λ en. is_promoted_app p.cluster_name d.name none en ≡ false)
          (entries_of p.mongo w.store)
      → All
          (OnlyPromoted p.cluster_name d.name d.id)
          (entries_of p.mongo (promote_success_task p e now now_event d search_params w).1.store)
  unfolding promote_success_task add_event
  promote_success_store d search_params w plain h =
      rw
        (update_state_exact p.mongo now d.id state_promoted
          (add_event p.mongo now_event "PROMOTED" null search_params w.store) plain)
        (only_this p.cluster_name d.name d.id (now 2) (entries_of p.mongo w.store) h)

  promote_success_returns :
      (d : Deployment) (search_params : Fields) (w : World p e)
      → (b : Option Fields) × (promote_success_task p e now now_event d search_params w
          ≡ (returned b, (promote_success_task p e now now_event d search_params w).1))
  unfolding promote_success_task
  promote_success_returns d search_params w = (_, refl)

  -- the parts of the result of an undeploy that a promotion rests on
  undeploy_marks :
      (d : Deployment) (w : World p e) (r : Outcome (Unit {0}) × World p e)
      → UndeployEnds p e now d.name none (some d.version) false w r
      → Ends
          (λ w'. (w'.store ≡ w.store) × (w'.sent ≡ w.sent) × (w'.locks ≡ w.locks))
          (λ _ w'. w'.store ≡ decommission p e now d.name none w.store)
          r
  undeploy_marks d w (returned u, w') h = ap (λ v. v.store) h.1
  undeploy_marks d w (retry f n c, w') h =
      (ap (λ v. v.store) h.1, ap (λ v. v.sent) h.1, ap (λ v. v.locks) h.1)
  undeploy_marks d w (raised f, w') h =
      (ap (λ v. v.store) h.1, ap (λ v. v.sent) h.1, ap (λ v. v.locks) h.1)

  -- A blue-green promotion undeploys the other versions, and then records the new deployment as
  -- promoted, here one right after the other. If the undeploy stops, in a retry or an exception, the
  -- store and the locks are as before and nothing is sent, whatever the provider has done to the units; if
  -- it goes through, no deployment of the application in this cluster is promoted but those with the id of
  -- the new one. The store has no array in the fields that filters test.
  pub promotion_leaves_one :
      (d : Deployment) (search_params : Fields) (w : World p e)
      → AreDeployments p.mongo w.store
      → Ends
          (λ w'. (w'.store ≡ w.store) × (w'.sent ≡ w.sent) × (w'.locks ≡ w.locks))
          (λ _ w'. All (OnlyPromoted p.cluster_name d.name d.id) (entries_of p.mongo w'.store))
          ((fleet_undeploy_task p e now d.name none (some d.version) false
              >> promote_success_task p e now now_event d search_params)
            w)
  promotion_leaves_one d search_params w plain =
      Ends-bind (λ w'. (w'.store ≡ w.store) × (w'.sent ≡ w.sent) × (w'.locks ≡ w.locks))
        (λ _ w'. w'.store ≡ decommission p e now d.name none w.store)
        (λ _ w'. All (OnlyPromoted p.cluster_name d.name d.id) (entries_of p.mongo w'.store))
        (fleet_undeploy_task p e now d.name none (some d.version) false)
        (λ _. promote_success_task p e now now_event d search_params) w
        (undeploy_marks d w _ (fleet_undeploy_exact p e now d.name none (some d.version) false w))
        (λ _ w1 q.
          let cleared =
            update_state_bulk_clears p.mongo p.cluster_name now d.name state_decommissioned none
              w.store plain refl in
          let plain1 =
            update_state_bulk-AreDeployments p.mongo p.cluster_name now d.name state_decommissioned
              (some state_promoted) none w.store plain in
          let (b, eq) = promote_success_returns d search_params w1 in
          (
            b,
            (promote_success_task p e now now_event d search_params w1).1,
            eq,
            promote_success_store d search_params w1 (subst (AreDeployments p.mongo) (sym q) plain1)
                (subst
                  (λ s.
                    All (λ en. is_promoted_app p.cluster_name d.name none en ≡ false)
                      (entries_of p.mongo s))
                  (sym q) cleared),
          ))
