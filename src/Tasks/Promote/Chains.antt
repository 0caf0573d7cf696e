-- ===== src/Tasks/Promote/Chains.antt =====
-- The chains that a deployment sends before it starts and after its checks.
use mathlib.Core.List.{append-nil}
use cluster_deployer.Common.{
  ℕ, String, ◌≡◌, refl, sym, ap, true, false, ◌⊎◌, inl, inr, Option, none, some, List, [], ◌∷◌,
  ◌++◌, Bool-cases, str_eq, foldl,
}
use cluster_deployer.Conf.{blue_green, red_green}
use cluster_deployer.Value.{Fields}
use cluster_deployer.Services.Lock.EtcdClient.{Etcd}
use cluster_deployer.Common.Result.{Result, ok, err, Result-cases}
use cluster_deployer.Services.Proxy.{wire_proxy, ProxyError}
use cluster_deployer.Tasks.Exceptions.{proxy_error}
use cluster_deployer.Tasks.Platform.{Platform}
use cluster_deployer.Tasks.Canvas.{
  Deployment, Sig, Sigs, nil, cons, Next, nothing, next, joined, chain, fleet_stop, fleet_undeploy,
  promote_success, wait_for_stop, wait_for_undeploy,
}
use cluster_deployer.Tasks.Monad.{World, returned, raised, send}
use cluster_deployer.Tasks.Locking.Released.{last}
use cluster_deployer.Tasks.Fleet.{send_next}
use cluster_deployer.Tasks.Fleet.Waits.{next_list}
use cluster_deployer.Tasks.Promote.{
  promotion_tasks, undeploy_chain, promote_deployment_task, pre_create_undeploy_task,
}

-- A stop or an undeploy of the application leaves the version: it names it as the one to exclude, or it
-- names another one.
abbrev pub Spares : String → Sig → Type 0
Spares version (fleet_stop n v x c) = x ≡ some version
Spares version (fleet_undeploy n v x i) = x ≡ some version
Spares version (joined s t) = Spares version s × Spares version t
Spares version _ = Unit

abbrev pub AllSpare : String → Sigs → Type 0
AllSpare version nil = Unit
AllSpare version (cons s ss) = Spares version s × AllSpare version ss

-- what a signature does, in the order in which it is done
abbrev pub in_order : Sig → List Sig
in_order (joined s t) = in_order s ++ in_order t
in_order s = s ∷ []

abbrev pub all_in_order : Sigs → List Sig
all_in_order nil = []
all_in_order (cons s ss) = in_order s ++ all_in_order ss

abbrev pub first_in_order : Next → List Sig
first_in_order nothing = []
first_in_order (next s) = in_order s

module _ (p : Platform) (e : Etcd) (now : ℕ → ℕ) where
  -- the cluster after the calls of the proxy
  abbrev pub after_calls : Deployment → p.Cluster → p.Cluster
  after_calls d c =
      foldl (λ c call. p.call_proxy call c) c
        (wire_proxy p.as_upstream d.name d.version d.hosts_and_listeners blue_green).0

  -- whether all calls of the proxy can be made
  abbrev pub calls_end : Deployment → Result ProxyError (Unit {0})
  calls_end d = (wire_proxy p.as_upstream d.name d.version d.hosts_and_listeners blue_green).1

  -- `_promote_deployment` makes the calls of the proxy, and keeps the locks. If, and only if, a
  -- call cannot be made it raises the exception of that call, with no event, and sends nothing. Otherwise it returns and sends one chain, in which every
  -- stop and every undeploy excludes the version that is promoted, and which ends with
  -- `_promote_success`.
  pub promote_deployment_exact :
      (d : Deployment) (search_params : Fields) (w : World p e)
      → ((promote_deployment_task p e now d search_params w).1.cluster ≡ after_calls d w.cluster)
        × ((promote_deployment_task p e now d search_params w).1.locks ≡ w.locks)
        × (((calls_end d ≡ ok tt)
              × ((promote_deployment_task p e now d search_params w).0 ≡ returned tt)
              × ((tasks : Sigs) × ((promote_deployment_task p e now d search_params w).1.sent
                    ≡ w.sent ++ chain tasks ∷ [])
                  × AllSpare d.version tasks
                  × (last tasks ≡ next (promote_success d search_params))))
            ⊎ ((x : ProxyError) × (calls_end d ≡ err x)
                × ((promote_deployment_task p e now d search_params w).0 ≡ raised (proxy_error x))
                × ((promote_deployment_task p e now d search_params w).1.store ≡ w.store)
                × ((promote_deployment_task p e now d search_params w).1.sent ≡ w.sent)))
  unfolding promote_deployment_task
  promote_deployment_exact d search_params w =
      elim (Result-cases
        (wire_proxy p.as_upstream d.name d.version d.hosts_and_listeners blue_green).1) [
          | inl (u, q) ↦
              rw (q, promote_deployment_task)
                (
                  refl,
                  refl,
                  inl (
                    refl,
                    refl,
                    (
                      promotion_tasks d search_params,
                      refl,
                      (spares d search_params).0,
                      (spares d search_params).1,
                    ),
                  ),
                )
          | inr (x, q) ↦
              rw (q, promote_deployment_task) (refl, refl, inr (x, refl, refl, refl, refl))
        ]
    where
      spares :
          (d : Deployment) (search_params : Fields)
          → AllSpare d.version (promotion_tasks d search_params)
            × (last (promotion_tasks d search_params) ≡ next (promote_success d search_params))
      spares d search_params = elim (Bool-cases (str_eq d.mode blue_green)) [
        | inl e ↦ rw e ((refl, (tt, (refl, (tt, (tt, tt))))), refl)
        | inr e ↦ rw e ((tt, tt), refl)
      ]

  -- One chain is sent, which does this in order: it stops the units of the application, waits until they
  -- have stopped, undeploys them, waits until they are undeployed, and then runs the next task, if there is
  -- one. All of it is for the version, or for all versions for `none`, and nothing is excluded.
  abbrev pub SendsUndeploy :
      (name : String) (version : Option String) (search_params : Fields) (next_task : Next)
      → World p e
      → World p e
      → Type 0
  SendsUndeploy name version search_params next_task w w' =
      (tasks : Sigs) × (w'.sent ≡ w.sent ++ chain tasks ∷ [])
      × (all_in_order tasks
          ≡ fleet_stop name version none 0
            ∷ wait_for_stop name version none none none search_params
            ∷ fleet_undeploy name version none false
            ∷ wait_for_undeploy name version none search_params
            ∷ first_in_order next_task)

  -- The next task is sent alone, if there is one.
  abbrev pub SendsNext : (next_task : Next) → World p e → World p e → Type 0
  SendsNext next_task w w' = w'.sent ≡ w.sent ++ next_list next_task

  sends_undeploy :
      (name : String) (version : Option String) (search_params : Fields) (next_task : Next)
      (w : World p e)
      → SendsUndeploy name version search_params next_task w
          (send (chain (undeploy_chain name version search_params next_task)) w).1
  sends_undeploy name version search_params nothing w =
      (undeploy_chain name version search_params nothing, refl, refl)
  sends_undeploy name version search_params (next s) w = (
    undeploy_chain name version search_params (next s),
    refl,
    ap
        (λ l.
          fleet_stop name version none 0
          ∷ wait_for_stop name version none none none search_params
          ∷ fleet_undeploy name version none false
          ∷ wait_for_undeploy name version none search_params
          ∷ l)
        (append-nil (in_order s)),
  )

  sends_next :
      (next_task : Next) (w : World p e) → SendsNext next_task w (send_next p e now next_task w).1
  sends_next nothing w = sym (append-nil w.sent)
  sends_next (next s) w = refl

  -- What is undeployed before a deployment follows from its mode: in blue-green mode its own version
  -- only, in red-green mode all versions: one chain stops the units, waits for that, undeploys them, waits
  -- for that, and ends with the next task. In any other mode nothing is undeployed, and the next task is
  -- sent by itself.
  pub pre_create_undeploy_exact :
      (d : Deployment) (search_params : Fields) (next_task : Next) (w : World p e)
      → ((str_eq d.mode blue_green ≡ true)
          × SendsUndeploy d.name
              (some d.version)
              search_params
              next_task
              w
              (pre_create_undeploy_task p e now d search_params next_task w).1)
        ⊎ (((str_eq d.mode blue_green ≡ false)
              × (str_eq d.mode red_green ≡ true)
              × SendsUndeploy d.name none search_params next_task w
                  (pre_create_undeploy_task p e now d search_params next_task w).1)
            ⊎ ((str_eq d.mode blue_green ≡ false)
                × (str_eq d.mode red_green ≡ false)
                × SendsNext next_task w
                    (pre_create_undeploy_task p e now d search_params next_task w).1))
  unfolding pre_create_undeploy_task
  pre_create_undeploy_exact d search_params next_task w =
      elim (Bool-cases (str_eq d.mode blue_green)) [
        | inl b ↦ inl (b, rw b (sends_undeploy d.name (some d.version) search_params next_task w))
        | inr b ↦ elim (Bool-cases (str_eq d.mode red_green)) [
          | inl r ↦
              inr (inl (b, r, rw (b, r) (sends_undeploy d.name none search_params next_task w)))
          | inr r ↦ inr (inr (b, r, rw (b, r) (sends_next next_task w)))
        ]
      ]
