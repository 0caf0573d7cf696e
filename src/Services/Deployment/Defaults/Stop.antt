-- ===== src/Services/Deployment/Defaults/Stop.antt =====
-- The time that a unit has to stop, which `apply_defaults` takes from the timeout of a stop.
use cluster_deployer.Common.{
  ℕ, String, ◌≡◌, refl, sym, ◌∙◌, true, inl, inr, List, [], ◌∷◌, Bool-cases,
}
use cluster_deployer.Common.Result.{ok, err, bind-ok, Result-cases}
use cluster_deployer.Conf.Defaults.{Environment}
use cluster_deployer.Services.Deployment.Application.{
  container_stop_sec, seconds_of, set_environment, set_sidekicks, apply_app,
}
use cluster_deployer.Services.Deployment.Defaults.Identity.{
  set_environment-KeepsAllBut, set_sidekicks-KeepsAllBut,
}
use cluster_deployer.Services.Deployment.Formatting.{Formatting}
use cluster_deployer.Services.Deployment.Ports.{Port}
use cluster_deployer.Util.Interval.{to_milliseconds}
use cluster_deployer.Util.Text.{codes}
use cluster_deployer.Value.{Value, str, truthy}
use cluster_deployer.Value.Access.{Access, AccessError, item_at}
use cluster_deployer.Value.Access.Laws.{item_at-kept}

-- a text that is not empty and that is an interval of so many milliseconds
abbrev pub IsInterval : Value → Type 0
IsInterval v =
    (s : String) × (ms : ℕ) × (v ≡ str s) × (truthy v ≡ true) × (to_milliseconds (codes s) ≡ ok ms)

no_value : {x : AccessError} {w : Value} → Path (Access Value) (err x) (ok w) → ⊥
no_value h = cc

module _ (f : Formatting) (e : Environment) where
  seconds_of-IsInterval :
      (v seconds : Value) → truthy v ≡ true → seconds_of f e v ≡ ok seconds → IsInterval v
  seconds_of-IsInterval (str s) seconds t h = elim (Result-cases (to_milliseconds (codes s))) [
    | inl (ms, q) ↦ (s, ms, refl, t, q)
    | inr (x, q) ↦ absurd (no_value (rw (q, seconds_of) at h))
  ]
  seconds_of-IsInterval _ seconds t h = cc

  container_stop_sec-IsInterval :
      (v seconds : Value) → container_stop_sec f e v ≡ ok seconds → IsInterval v
  unfolding container_stop_sec
  container_stop_sec-IsInterval v seconds h = elim (Bool-cases (truthy v)) [
    | inl t ↦ seconds_of-IsInterval v seconds t (rw t at h)
    | inr t ↦ absurd (no_value (rw t at h))
  ]

  -- The step of `apply_defaults` for the template of the application, which comes after the merge with the
  -- default settings, succeeds only if the stop has a timeout then that is a text, not empty, and an
  -- interval: the default of this step does not stand in for a timeout that is `None` or empty there.
  pub apply_app_needs_timeout :
      (ports : List Port) (v v' : Value)
      → apply_app f e ports v ≡ ok v'
      → (timeout : Value) × (item_at ("deployment" ∷ "stop" ∷ "timeout" ∷ []) v ≡ ok timeout)
        × IsInterval timeout
  unfolding apply_app
  apply_app_needs_timeout ports v v' h =
      let (u1, a, h1) = bind-ok (set_environment f e ports v) _ v' h in
      let (u2, b, h2) = bind-ok (set_sidekicks f e u1) _ v' h1 in
      let (timeout, c, h3) =
        bind-ok (item_at ("deployment" ∷ "stop" ∷ "timeout" ∷ []) u2) _ v' h2 in
      let (seconds, d, _) = bind-ok (container_stop_sec f e timeout) _ v' h3 in
      let kept =
        set_sidekicks-KeepsAllBut f e u1 u2 b "deployment" refl
        ∙ set_environment-KeepsAllBut f e ports v u1 a "deployment" refl in
      (
        timeout,
        sym (item_at-kept "deployment" ("stop" ∷ "timeout" ∷ []) v u2 kept) ∙ c,
        container_stop_sec-IsInterval timeout seconds d,
      )
