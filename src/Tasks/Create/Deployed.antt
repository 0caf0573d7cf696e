-- ===== src/Tasks/Create/Deployed.antt =====
-- What `_deploy_all` sends.
use cluster_deployer.Common.{
  ℕ, String, ◌≡◌, refl, true, false, ◌⊎◌, inl, inr, none, some, List, [], ◌∷◌, ◌++◌, Bool-cases,
  Option-cases,
}
use cluster_deployer.Value.{Fields}
use cluster_deployer.Services.Lock.EtcdClient.{Etcd}
use cluster_deployer.Services.Storage.Collection.{keep}
use cluster_deployer.Tasks.Platform.{Platform, Template}
use cluster_deployer.Tasks.Canvas.{
  Deployment, Sigs, nil, cons, Next, chord, fleet_deploy, fleet_start_and_wait, signatures,
}
use cluster_deployer.Tasks.Exceptions.{key_error}
use cluster_deployer.Tasks.Monad.{World, returned, raised}
use cluster_deployer.Tasks.Create.{template_of, deploy_all_task}

-- The signatures are the deploys of the enabled templates, in their order, and no others.
abbrev pub DeploysEnabled : Deployment → Fields → List (String × Template) → Sigs → Type 0
DeploysEnabled d search_params [] ss = ss ≡ nil
DeploysEnabled d search_params (t ∷ ts) ss =
    ((t.1.enabled ≡ false) × DeploysEnabled d search_params ts ss)
    ⊎ ((t.1.enabled ≡ true)
        × ((rest : Sigs) × (ss
              ≡ cons
                  (fleet_deploy search_params d.name d.version d.nodes t.0 t.1 d.security_profile)
                  rest)
            × DeploysEnabled d search_params ts rest))

abbrev deploys : Deployment → Fields → List (String × Template) → Sigs
deploys d search_params ts =
    signatures (λ t. fleet_deploy search_params d.name d.version d.nodes t.0 t.1 d.security_profile)
      (keep (λ t. t.1.enabled) ts)

deploys-DeploysEnabled :
    (d : Deployment) (search_params : Fields) (ts : List (String × Template))
    → DeploysEnabled d search_params ts (deploys d search_params ts)
deploys-DeploysEnabled d search_params [] = refl
deploys-DeploysEnabled d search_params (t ∷ ts) = elim (Bool-cases t.1.enabled) [
  | inl q ↦
      inr (q, (deploys d search_params ts, rw q refl, deploys-DeploysEnabled d search_params ts))
  | inr q ↦ inl (q, rw q (deploys-DeploysEnabled d search_params ts))
]

module _ (p : Platform) (e : Etcd) (now : ℕ → ℕ) where
  -- One chord is sent: the deploys of the enabled templates, and then the start of their units.
  abbrev pub SendsDeploys :
      Deployment → Fields → (next_task : Next) → World p e → World p e → Type 0
  SendsDeploys d search_params next_task w w' =
      (ss : Sigs) × (w' ≡ record w {
        sent = w.sent ++ chord ss (fleet_start_and_wait d search_params next_task) ∷ [];
      })
      × DeploysEnabled d search_params d.templates ss

  -- The template of the application decides what `_deploy_all` does. With an enabled one it sends one
  -- chord, which deploys the enabled templates, each with its own service type and in their order, and
  -- none that is not enabled, and then starts their units and runs the next task. With one that is not
  -- enabled it returns, and without one it raises a `KeyError`; in both cases it sends nothing, so the next
  -- task is lost, and it changes nothing.
  pub deploy_all_exact :
      (d : Deployment) (search_params : Fields) (next_task : Next) (w : World p e)
      → let r = deploy_all_task p e now d search_params next_task w in
        ((template_of "app" d.templates ≡ none)
          × (r ≡ (raised (key_error (record { key = "app" })), w)))
        ⊎ ((t : Template) × (template_of "app" d.templates ≡ some t)
            × (((t.enabled ≡ false) × (r ≡ (returned tt, w)))
                ⊎ ((t.enabled ≡ true)
                    × (r.0 ≡ returned tt)
                    × SendsDeploys d search_params next_task w r.1)))
  unfolding deploy_all_task
  deploy_all_exact d search_params next_task w =
      elim (Option-cases (template_of "app" d.templates)) [
        | inl q ↦ inl (q, rw q refl)
        | inr (t, q) ↦ inr (
          t,
          q,
          elim (Bool-cases t.enabled) [
            | inl on ↦ inr (
              on,
              rw (q, on) refl,
              (
                deploys d search_params d.templates,
                rw (q, on) refl,
                deploys-DeploysEnabled d search_params d.templates,
              ),
            )
            | inr off ↦ inl (off, rw (q, off) refl)
          ],
        )
      ]
