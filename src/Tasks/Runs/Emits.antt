-- ===== src/Tasks/Runs/Emits.antt =====
-- The tasks that create, deploy and start send only safe signatures.
use cluster_deployer.Common.{
  ℕ, String, ◌≡◌, refl, Bool, true, false, ◌⊎◌, inl, inr, Option, none, some, List, [], ◌∷◌, length,
  str_eq, if◌then◌else◌,
}
use cluster_deployer.Common.Result.{Result-cases}
use cluster_deployer.Conf.{level_started}
use cluster_deployer.Value.{Fields}
use cluster_deployer.Services.Lock.EtcdClient.{Etcd}
use cluster_deployer.Services.Storage.Mongo.{create_deployment, add_event}
use cluster_deployer.Tasks.Canvas.{
  message, Deployment, Sig, Next, nothing, next, chain, using_lock, notify,
}
use cluster_deployer.Tasks.Create.{
  create_tasks, create_error_tasks, create_task, store_deployment, use_lock, deploy_all_task,
  deploy_enabled, template_of, deploy_chord, enabled_templates, template_of, start_timer,
  start_services, start_chord, fleet_start_and_wait_task, min_nodes_of,
}
use cluster_deployer.Tasks.Fleet.{send_next}
use cluster_deployer.Tasks.Monad.{send, pure, ◌>>◌}
use cluster_deployer.Tasks.Platform.{Platform, Template}
use cluster_deployer.Tasks.Promote.{
  Before, version_only, all_versions, no_undeploy, undeployed_before, undeploy_before,
  undeploy_chain, pre_create_undeploy_task,
}
use cluster_deployer.Tasks.Runs.Facts.{
  Fact, locked, running, UndeployedFor, ReadyToDeploy, running_of, services_for, Safe, SafeNext,
}
use cluster_deployer.Tasks.Runs.Orders.{
  create_tasks-Safe, create_error_tasks-Safe, undeploy_chain-Safe, deploys-Safe, starts-Safe,
}
use cluster_deployer.Tasks.Runs.Sends.{SendsOnly, bind-SendsOnly, send-SendsOnly}
use cluster_deployer.Tasks.Runs.Weaken.{SafeNext-mono}

module _ (p : Platform) (e : Etcd) (now : ℕ → ℕ) (R : e.State → Type 0) (P : Fact → Type 0) where
  pub send_next-Safe : (n : Next) → SafeNext P n → SendsOnly R (Safe P) (send_next p e now n)
  send_next-Safe nothing h w k = k
  send_next-Safe (next s) h w k = send-SendsOnly R (Safe P) s h w k

  store_deployment-Safe : (d : Deployment) → SendsOnly R (Safe P) (store_deployment p e now d)
  store_deployment-Safe d w h =
      elim (Result-cases (create_deployment p.mongo now d.document w.store)) [
        | inl (s, q) ↦ rw (q, store_deployment) h
        | inr (x, q) ↦ rw (q, store_deployment) h
      ]

  pub create-Safe :
      (now_event : ℕ → ℕ) (d : Deployment) (f : Fields)
      → SendsOnly R (Safe P) (create_task p e now now_event d f)
  unfolding create_task
  create-Safe now_event d f =
      let Q : Fact → Type 0 = λ x. P x ⊎ (x ≡ locked d.name) in
      let started : Sig = notify (message "Started provisioning") level_started d in
      let run : Sig = using_lock f d.name (create_tasks d f) (create_error_tasks d f) in
      bind-SendsOnly R (Safe P) (send started)
        (λ _. store_deployment p e now d >> use_lock p e now now_event d f)
        (send-SendsOnly R (Safe P) started tt)
        (λ _.
          bind-SendsOnly R (Safe P) (store_deployment p e now d)
            (λ _. use_lock p e now now_event d f) (store_deployment-Safe d)
            (λ _ w h.
              send-SendsOnly R (Safe P) run
                (create_tasks-Safe Q d f (inr refl), create_error_tasks-Safe Q d f (inr refl))
                (record w {
                  store = add_event p.mongo now_event "NEW_DEPLOYMENT" d.document f w.store;
                })
                h))

  undeploy_before-Safe :
      (b : Before) (d : Deployment) (f : Fields) (n : Next)
      → P (locked d.name)
      → SafeNext (λ x. P x ⊎ UndeployedFor b d x) n
      → SendsOnly R (Safe P) (undeploy_before p e now b d f n)
  undeploy_before-Safe version_only d f n l h =
      send-SendsOnly R (Safe P) (chain (undeploy_chain d.name (some d.version) f n))
        (undeploy_chain-Safe P d.name (some d.version) f n l h)
  undeploy_before-Safe all_versions d f n l h =
      send-SendsOnly R (Safe P) (chain (undeploy_chain d.name none f n))
        (undeploy_chain-Safe P d.name none f n l h)
  undeploy_before-Safe no_undeploy d f n l h = send_next-Safe n (SafeNext-mono _ P go n h)
    where
      go : (x : Fact) → P x ⊎ ⊥ → P x
      go x (inl a) = a
      go x (inr b) = absurd b

  pub pre_create_undeploy-Safe :
      (d : Deployment) (f : Fields) (n : Next)
      → P (locked d.name)
      → SafeNext (λ x. P x ⊎ UndeployedFor (undeployed_before d.mode) d x) n
      → SendsOnly R (Safe P) (pre_create_undeploy_task p e now d f n)
  unfolding pre_create_undeploy_task
  pre_create_undeploy-Safe d = undeploy_before-Safe (undeployed_before d.mode) d

  send_if-Safe :
      (b : Bool) (s : Sig)
      → Safe P s
      → SendsOnly {p = p} {e = e} R (Safe P) (if b then send s else pure tt)
  send_if-Safe true s h w k = send-SendsOnly R (Safe P) s h w k
  send_if-Safe false s h w k = k

  deploy_enabled-Safe :
      (d : Deployment) (f : Fields) (n : Next) (t : Option Template)
      → Safe P (deploy_chord d f n)
      → SendsOnly R (Safe P) (deploy_enabled p e now d f n t)
  deploy_enabled-Safe d f n none h w k = k
  deploy_enabled-Safe d f n (some t) h w k = send_if-Safe t.enabled (deploy_chord d f n) h w k

  pub deploy_all-Safe :
      (d : Deployment) (f : Fields) (n : Next)
      → ReadyToDeploy P d
      → SafeNext (λ x. P x ⊎ (x ≡ running_of d)) n
      → SendsOnly R (Safe P) (deploy_all_task p e now d f n)
  unfolding deploy_all_task
  deploy_all-Safe d f n h k =
      deploy_enabled-Safe d f n (template_of "app" d.templates)
        (deploys-Safe P f d (enabled_templates d) h.0, (h, k))

  start_chord-Safe :
      (d : Deployment) (f : Fields) (n : Next) (services : List (String × Template))
      → P (locked d.name)
      → SafeNext (λ x. P x ⊎ (x ≡ running d.name d.version (length services) (min_nodes_of d))) n
      → SendsOnly {p = p} {e = e} R (Safe P) (send (start_chord d f n services))
  start_chord-Safe d f n services l h =
      send-SendsOnly R (Safe P) (start_chord d f n services) (starts-Safe P f d services l, h)

  abbrev StartsSafe : Deployment → (n : Next) → ℕ → Type 0
  StartsSafe d n services =
      SafeNext (λ x. P x ⊎ (x ≡ running d.name d.version services (min_nodes_of d))) n

  start_timer-Safe :
      (d : Deployment) (f : Fields) (n : Next) (t : Option Template)
      → P (locked d.name)
      → StartsSafe d n 1
      → SendsOnly R (Safe P) (start_timer p e now d f n t)
  start_timer-Safe d f n none l h w k = k
  start_timer-Safe d f n (some t) l h w k = start_chord-Safe d f n (("timer", t) ∷ []) l h w k

  start_either-Safe :
      (d : Deployment) (f : Fields) (n : Next) (all : Bool)
      → P (locked d.name)
      → StartsSafe d n (if all then length (enabled_templates d) else 1)
      → SendsOnly R (Safe P) (
          if all
          then send (start_chord d f n (enabled_templates d))
          else start_timer p e now d f n (template_of "timer" d.templates))
  start_either-Safe d f n true l h = start_chord-Safe d f n (enabled_templates d) l h
  start_either-Safe d f n false l h = start_timer-Safe d f n (template_of "timer" d.templates) l h

  start_services-Safe :
      (d : Deployment) (f : Fields) (n : Next) (schedule : Option String)
      → P (locked d.name)
      → StartsSafe d n (services_for d schedule)
      → SendsOnly R (Safe P) (start_services p e now d f n schedule)
  start_services-Safe d f n none l h = start_chord-Safe d f n (enabled_templates d) l h
  start_services-Safe d f n (some s) l h = start_either-Safe d f n (str_eq s "") l h

  pub fleet_start_and_wait-Safe :
      (d : Deployment) (f : Fields) (n : Next)
      → P (locked d.name)
      → SafeNext (λ x. P x ⊎ (x ≡ running_of d)) n
      → SendsOnly R (Safe P) (fleet_start_and_wait_task p e now d f n)
  unfolding fleet_start_and_wait_task
  fleet_start_and_wait-Safe d f n l h = start_services-Safe d f n d.schedule l h
