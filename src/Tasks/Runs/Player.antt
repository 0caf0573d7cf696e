-- ===== src/Tasks/Runs/Player.antt =====
-- A worker that can be executed: it takes the first task of the waiting signature that a schedule names.
use cluster_deployer.Common.{ℕ, zero, suc, ◌≡◌, refl, ap, Option, none, List, [], ◌∷◌, ◌++◌}
use cluster_deployer.Services.Lock.{LockService}
use cluster_deployer.Services.Lock.EtcdClient.{Etcd}
use cluster_deployer.Tasks.Canvas.{Sig, nil, cons, joined, chain, chord, linked}
use cluster_deployer.Tasks.Monad.{World}
use cluster_deployer.Tasks.Platform.{Platform}
use cluster_deployer.Tasks.Runs.{
  first, Focus, here, in_joined, in_chain, in_header, in_body, in_linked, System, fresh, after_run,
  runs, drifts, Reach, goes_on,
}
use cluster_deployer.Tasks.Runs.Dispatch.{Input, dispatch}
use cluster_deployer.Tasks.Start.{TaskSettings}

-- a task of the signature that may be run next
abbrev pub NextTask : Sig → Type 0
NextTask s = (t : Sig) × (rest : Option Sig) × (rescue : List Sig) × Focus s t rest rescue

abbrev pub first_task : (s : Sig) → NextTask s
first_task (joined a b) = let (t, rest, rescue, f) = first_task a in (t, _, rescue, in_joined f)
first_task (chain (cons a ts)) =
    let (t, rest, rescue, f) = first_task a in (t, _, rescue, in_chain f)
first_task (chord nil body) =
    let (t, rest, rescue, f) = first_task body in (t, rest, rescue, in_body f)
first_task (chord (cons a header) body) =
    let (t, rest, rescue, f) = first_task a in (t, _, _, in_header first f)
first_task (linked a link link_error) =
    let (t, rest, rescue, f) = first_task a in (t, _, _, in_linked f)
first_task s = (s, none, [], here)

-- the signature at a place of a list that is not empty; past the end, the last one
abbrev pub Place : List Sig → Type 0
Place l = (before : List Sig) × (s : Sig) × (behind : List Sig) × (l ≡ before ++ s ∷ behind)

abbrev pub place : ℕ → (s : Sig) (l : List Sig) → Place (s ∷ l)
place k s [] = ([], s, [], refl)
place zero s (t ∷ l) = ([], s, t ∷ l, refl)
place (suc k) s (t ∷ l) =
    let (before, u, behind, q) = place k t l in (s ∷ before, u, behind, ap (λ m. s ∷ m) q)

module _ (p : Platform) (e : Etcd) (now now_event : ℕ → ℕ) (settings : TaskSettings)
    (service : LockService) where
  -- a system with the run that reaches it
  abbrev pub Played : Type 0
  Played = (z : System p e) × Reach p e now now_event settings service z

  -- a turn of the schedule: the place of the signature, the input of its task and the world then
  pub record Turn : Type 0 where
    pub at : ℕ
    pub input : Input
    pub world : World p e

  abbrev pub run_at :
      Input
      → (y : System p e) → Reach p e now now_event settings service y
      → Place y.waiting
      → Played
  run_at i y r (before, s, behind, q) =
      let (t, rest, rescue, f) = first_task s in
      (
        after_run y before behind s t rest rescue
            (dispatch p e now now_event settings service i t (fresh y.world)),
        goes_on r (runs i before behind q f refl),
      )

  abbrev pub turn : Turn → Played → Played
  turn u (y, r) =
      let z = record y { world = u.world } in
      let drifted = goes_on r (drifts u.world refl) in
      elim y.waiting
          as (λ l. Reach p e now now_event settings service (record z { waiting = l }) → Played) [
            | [] ↦ λ r1. (record z { waiting = [] }, r1)
            | s ∷ l ↦ λ r1. run_at u.input (record z { waiting = s ∷ l }) r1 (place u.at s l)
          ]
        drifted

  -- The turns are played in their order; a turn with nothing that waits only changes the world.
  unfoldable pub play : List Turn → Played → Played
  play [] y = y
  play (u ∷ us) y = play us (turn u y)
