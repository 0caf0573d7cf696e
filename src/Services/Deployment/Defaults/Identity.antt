-- ===== src/Services/Deployment/Defaults/Identity.antt =====
-- What `apply_defaults` leaves in a deployment: its id, its state, its cluster.
use cluster_deployer.Common.{ℕ, String, ◌≡◌, false, List, [], ◌∷◌, str_eq}
use cluster_deployer.Common.Result.{ok, bind-ok}
use cluster_deployer.Conf.{state_new}
use cluster_deployer.Conf.Defaults.{Environment}
use cluster_deployer.Services.Deployment.Application.{
  get_app_environment, sidekicks, set_environment, set_sidekicks,
}
use cluster_deployer.Services.Deployment.Defaults.{generate_deployment_id}
use cluster_deployer.Services.Deployment.Formatting.{Formatting}
use cluster_deployer.Services.Deployment.Ports.{Port}
use cluster_deployer.Value.{Value, str, date}
use cluster_deployer.Value.Access.{item, item_at, items}
use cluster_deployer.Value.Access.Laws.{item-update_at_other}

-- Every entry but the one of key `k` is as it was.
abbrev KeepsAllBut : String → Value → Value → Type 0
KeepsAllBut k v v' = (j : String) → str_eq k j ≡ false → item j v' ≡ item j v

module _ (f : Formatting) (e : Environment) where
  pub set_environment-KeepsAllBut :
      (ports : List Port) (v v' : Value)
      → set_environment f e ports v ≡ ok v'
      → KeepsAllBut "templates" v v'
  set_environment-KeepsAllBut ports v v' h j o =
      let (_, _, a) = bind-ok (get_app_environment f e v ports) _ v' h in
      item-update_at_other "templates" ("app" ∷ "args" ∷ []) j _ v v' o a

  pub set_sidekicks-KeepsAllBut :
      (v v' : Value) → set_sidekicks f e v ≡ ok v' → KeepsAllBut "templates" v v'
  set_sidekicks-KeepsAllBut v v' h j o =
      let (templates, _, h1) = bind-ok (item "templates" v) _ v' h in
      let (entries, _, h2) = bind-ok (items templates) _ v' h1 in
      let (_, _, a) = bind-ok (sidekicks f e entries) _ v' h2 in
      item-update_at_other "templates" ("app" ∷ "args" ∷ []) j _ v v' o a

  -- The id is made of the name and the version that the deployment has.
  abbrev pub IsIdentified : Value → Type 0
  IsIdentified v =
      (name : Value) × (version : String) × (item_at ("deployment" ∷ "name" ∷ []) v ≡ ok name)
      × (item_at ("deployment" ∷ "version" ∷ []) v ≡ ok (str version))
      × (item "id" v ≡ ok (str (generate_deployment_id f e (f.text_of name) version)))

  -- a deployment that is new since `now`, with its id
  abbrev pub IsNew : (now : ℕ) → Value → Type 0
  IsNew now v =
      IsIdentified v × (item "state" v ≡ ok (str state_new)) × (item "started-at" v ≡ ok (date now))
