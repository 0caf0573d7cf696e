-- ===== src/Tasks/Create/Sent.antt =====
-- What `create` and `_fleet_start_and_wait` send.
use cluster_deployer.Common.{
  ℕ, zero, suc, String, ◌≡◌, refl, inl, inr, Option, none, some, List, [], ◌∷◌, ◌++◌, length,
  str_eq, Bool-cases,
}
use cluster_deployer.Common.Result.{ok}
use cluster_deployer.Conf.{level_started}
use cluster_deployer.Services.Deployment.Formatting.{Formatting}
use cluster_deployer.Value.{Fields, Value}
use cluster_deployer.Services.Lock.EtcdClient.{Etcd}
use cluster_deployer.Services.Storage.Mongo.{MongoStore, create_deployment, add_event}
use cluster_deployer.Tasks.Platform.{Platform, Template}
use cluster_deployer.Tasks.Canvas.{
  message, Deployment, Sig, Sigs, nil, cons, Next, chord, using_lock, notify, fleet_start,
  fleet_check_deploy, signatures,
}
use cluster_deployer.Tasks.Monad.{World, Outcome, returned}
use cluster_deployer.Tasks.Rules.{Passes, starts}
use cluster_deployer.Tasks.Create.{
  min_nodes_of, enabled_templates, start_timer, create_tasks, create_error_tasks, start_services,
  start_chord, fleet_start_and_wait_task, template_of,
}

-- The signatures all start units of the deployment, and there are `n` of them.
abbrev pub StartsUnits : (name version : String) (nodes n : ℕ) → Sigs → Type 0
StartsUnits name version nodes zero nil = Unit
StartsUnits name version nodes (suc n) (cons (fleet_start sp a b m service template) ss) =
    (a ≡ name) × (b ≡ version) × (m ≡ nodes) × StartsUnits name version nodes n ss
StartsUnits _ _ _ _ _ = ⊥

signatures-StartsUnits :
    (search_params : Fields) (name version : String) (nodes : ℕ)
    (services : List (String × Template))
    → StartsUnits name version nodes
        (length services)
        (signatures (λ t. fleet_start search_params name version nodes t.0 t.1) services)
signatures-StartsUnits search_params name version nodes [] = tt
signatures-StartsUnits search_params name version nodes (t ∷ ts) =
    (refl, refl, refl, signatures-StartsUnits search_params name version nodes ts)

module _ (p : Platform) (e : Etcd) (now : ℕ → ℕ) where
  -- One chord is sent: starts of units, and then the check that waits for `min_nodes` times as many.
  abbrev pub SendsStarts : Deployment → Fields → (next_task : Next) → List Sig → List Sig → Type 0
  SendsStarts d search_params next_task sent sent' =
      (n : ℕ) × (starts : Sigs) × (sent'
        ≡ sent
          ++ chord starts
              (fleet_check_deploy d.name d.version n (min_nodes_of d) search_params next_task)
            ∷ [])
      × StartsUnits d.name d.version d.nodes n starts

  sends_starts :
      (d : Deployment) (search_params : Fields) (next_task : Next) (sent : List Sig)
      (services : List (String × Template))
      → SendsStarts d search_params next_task sent
          (sent ++ start_chord d search_params next_task services ∷ [])
  sends_starts d search_params next_task sent services = (
    length services,
    _,
    refl,
    signatures-StartsUnits search_params d.name d.version d.nodes services,
  )

  timer_gate :
      (d : Deployment) (search_params : Fields) (next_task : Next) (t : Option Template)
      (w : World p e)
      → Passes
          (λ _ w'. SendsStarts d search_params next_task w.sent w'.sent × (w'.store ≡ w.store))
          w
          (start_timer p e now d search_params next_task t w)
  timer_gate d search_params next_task none w = refl
  timer_gate d search_params next_task (some t) w =
      (sends_starts d search_params next_task w.sent (("timer", t) ∷ []), refl)

  start_services_gate :
      (d : Deployment) (search_params : Fields) (next_task : Next) (schedule : Option String)
      (w : World p e)
      → Passes
          (λ _ w'. SendsStarts d search_params next_task w.sent w'.sent × (w'.store ≡ w.store))
          w
          (start_services p e now d search_params next_task schedule w)
  start_services_gate d search_params next_task none w =
      (sends_starts d search_params next_task w.sent (enabled_templates d), refl)
  start_services_gate d search_params next_task (some s) w = elim (Bool-cases (str_eq s "")) [
    | inl q ↦ rw q (sends_starts d search_params next_task w.sent (enabled_templates d), refl)
    | inr q ↦ rw q (timer_gate d search_params next_task (template_of "timer" d.templates) w)
  ]

  -- `_fleet_start_and_wait` starts units of its deployment only, and the check that follows waits for as
  -- many services as are started. If it raises, for a schedule without a timer, it has sent nothing and
  -- changed nothing.
  fleet_start_and_wait_exact :
      (d : Deployment) (search_params : Fields) (next_task : Next) (w : World p e)
      → Passes
          (λ _ w'. SendsStarts d search_params next_task w.sent w'.sent × (w'.store ≡ w.store))
          w
          (fleet_start_and_wait_task p e now d search_params next_task w)
  unfolding fleet_start_and_wait_task
  fleet_start_and_wait_exact d search_params next_task w =
      start_services_gate d search_params next_task d.schedule w

  -- The deployment is stored, and the run with the lock is sent after the notification.
  abbrev pub IsCreated :
      (now_event : ℕ → ℕ)
      → Deployment
      → Fields
      → World p e
      → Outcome (Unit {0}) × World p e
      → Type 0
  IsCreated now_event d search_params w (r, w') =
      (s : MongoStore p.mongo) × (create_deployment p.mongo now d.document w.store ≡ ok s)
      × (r ≡ returned tt)
      × (w'.store ≡ add_event p.mongo now_event "NEW_DEPLOYMENT" d.document search_params s)
      × (w'.sent
          ≡ (w.sent ++ notify (message "Started provisioning") level_started d ∷ [])
            ++ using_lock search_params d.name (create_tasks d search_params)
                (create_error_tasks d search_params)
              ∷ [])
