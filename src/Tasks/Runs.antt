-- ===== src/Tasks/Runs.antt =====
-- The tasks of any number of deployments, in every order in which Celery may run them: the signatures
-- that wait for a worker, the task of a signature that may run next and what is left of the signature
-- then, and the steps of the workers. `CELERY_ACKS_LATE` of conf/celeryconfig.py is set, so that a
-- signature may be run more than once. The steps allow more than Celery does: a signature may be lost,
-- and the cluster, the locks and the store may become any others between two tasks.
pub mod Dispatch
pub mod Facts
pub mod Weaken
pub mod Sends
pub mod Orders
pub mod Emits
pub mod Promotes
pub mod Past
pub mod Kept
pub mod Gated
pub mod Player
pub mod Callbacks
pub mod Held
pub mod Exclusive
pub mod Released
pub mod Unreleased
mod Tests
pub mod Silent
pub mod SilentWaits
pub mod Remains
use cluster_deployer.Common.{ℕ, String, ◌≡◌, Option, none, some, List, [], ◌∷◌, ◌++◌, refl}
use cluster_deployer.Value.{Value, Fields}
use cluster_deployer.Services.Lock.{LockService}
use cluster_deployer.Services.Lock.EtcdClient.{Etcd}
use cluster_deployer.Tasks.Canvas.{Sig, Sigs, nil, cons, create, joined, chain, chord, linked}
use cluster_deployer.Tasks.Create.{delete_task}
use cluster_deployer.Tasks.Monad.{World}
use cluster_deployer.Tasks.Platform.{Platform}
use cluster_deployer.Tasks.Runs.Dispatch.{Ended, done, again, failed, Input, dispatch}
use cluster_deployer.Tasks.Start.{TaskSettings}

-- what is left of `a | b`, of `chain([a, ...])`, of a chord and of a task with its callbacks, when `rest`
-- is left of the first task
abbrev pub joined_left : (rest : Option Sig) → Sig → Sig
joined_left none b = b
joined_left (some a) b = joined a b

abbrev pub chain_left : (rest : Option Sig) → Sigs → Option Sig
chain_left none nil = none
chain_left none (cons t ts) = some (chain (cons t ts))
chain_left (some a) ts = some (chain (cons a ts))

abbrev pub chord_left : (rest : Option Sig) → (header : Sigs) → (body : Sig) → Sig
chord_left none header body = chord header body
chord_left (some a) header body = chord (cons a header) body

abbrev pub linked_left : (rest : Option Sig) → (link link_error : Sigs) → Option Sig
linked_left none link link_error = chain_left none link
linked_left (some a) link link_error = some (linked a link link_error)

abbrev pub to_list : Sigs → List Sig
to_list nil = []
to_list (cons t ts) = t ∷ to_list ts

-- one of a group, and the others
pub data Picks (t : Sig) : Sigs → Sigs → Type 0 where
  first : {ts : Sigs} → Picks t (cons t ts) ts
  later : {u : Sig} {ts us : Sigs} → Picks t ts us → Picks t (cons u ts) (cons u us)

-- `Focus s t rest rescue`: `t` may be run now for `s`; when it returns, `rest` is left of `s`, and when it
-- fails, `rescue`. The body of a chord waits for the whole header. A failure in the header is no failure
-- of the others, which go on without the body.
pub data Focus : Sig → Sig → Option Sig → List Sig → Type 0 where
  here : {t : Sig} → Focus t t none []
  in_joined :
      {a b t : Sig} {rest : Option Sig} {rescue : List Sig}
      → Focus a t rest rescue
      → Focus (joined a b) t (some (joined_left rest b)) rescue
  in_chain :
      {a t : Sig} {ts : Sigs} {rest : Option Sig} {rescue : List Sig}
      → Focus a t rest rescue
      → Focus (chain (cons a ts)) t (chain_left rest ts) rescue
  in_header :
      {a t body : Sig} {header others : Sigs} {rest : Option Sig} {rescue : List Sig}
      → Picks a header others
      → Focus a t rest rescue
      → Focus (chord header body) t (some (chord_left rest others body)) (rescue ++ to_list others)
  in_body :
      {t body : Sig} {rest : Option Sig} {rescue : List Sig}
      → Focus body t rest rescue
      → Focus (chord nil body) t rest rescue
  in_linked :
      {a t : Sig} {link link_error : Sigs} {rest : Option Sig} {rescue : List Sig}
      → Focus a t rest rescue
      → Focus
          (linked a link link_error)
          t
          (linked_left rest link link_error)
          (chain link_error ∷ rescue)

abbrev pub option_list : Option Sig → List Sig
option_list none = []
option_list (some s) = s ∷ []

-- what takes the place of the signature
abbrev pub left : Ended → Sig → (rest : Option Sig) → (rescue : List Sig) → List Sig
left done s rest rescue = option_list rest
left again s rest rescue = s ∷ []
left failed s rest rescue = rescue

-- The signatures that wait, and the tasks that have returned, each with the world that it was run in.
pub record System (p : Platform) (e : Etcd) : Type 0 where
  pub world : World p e
  pub waiting : List Sig
  pub returned : List (Sig × World p e)

module _ {p : Platform} {e : Etcd} where
  -- the world of a task, which has sent nothing yet
  abbrev pub fresh : World p e → World p e
  fresh w = record w { sent = [] }

  abbrev pub logged : Ended → Sig → World p e → List (Sig × World p e) → List (Sig × World p e)
  logged done t w past = (t, w) ∷ past
  logged again t w past = past
  logged failed t w past = past

  -- the system after a run of the task, with what it has sent
  abbrev pub after_run :
      System p e
      → (before behind : List Sig) (s t : Sig) (rest : Option Sig) (rescue : List Sig)
      → Ended × World p e
      → System p e
  after_run y before behind s t rest rescue (end, w) = record {
    world = fresh w;
    waiting = before ++ (left end s rest rescue ++ (behind ++ w.sent));
    returned = logged end t (fresh y.world) y.returned;
  }

  -- A worker may take the task next.
  pub record MayRun (y : System p e) (t : Sig) : Type 0 where
    pub before : List Sig
    pub behind : List Sig
    pub signature : Sig
    pub rest : Option Sig
    pub rescue : List Sig
    pub waits : y.waiting ≡ before ++ signature ∷ behind
    pub focus : Focus signature t rest rescue

module _ (p : Platform) (e : Etcd) (now now_event : ℕ → ℕ) (settings : TaskSettings)
    (service : LockService) where
  -- how the task ends in the world of the system, and the system after it
  abbrev pub end_in : Input → Sig → System p e → Ended
  end_in i t y = (dispatch p e now now_event settings service i t (fresh y.world)).0

  abbrev pub after_task : Input → (t : Sig) (y : System p e) → MayRun y t → System p e
  after_task i t y m =
      after_run y m.before m.behind m.signature t m.rest m.rescue
        (dispatch p e now now_event settings service i t (fresh y.world))

  -- what `delete` sends
  abbrev pub deletion : String → Option String → Fields → World p e → List Sig
  deletion name version f w = (delete_task p e now name version f (fresh w)).1.sent

  pub data Step (y z : System p e) : Type 0 where
    runs :
        (i : Input) (before behind : List Sig) {s t : Sig} {rest : Option Sig} {rescue : List Sig}
        → y.waiting ≡ before ++ s ∷ behind
        → Focus s t rest rescue
        → z
          ≡ after_run y before behind s t rest rescue
              (dispatch p e now now_event settings service i t (fresh y.world))
        → Step y z
    -- the requests to create and to delete
    creates : (v : Value) → z ≡ record y { waiting = create v ∷ y.waiting } → Step y z
    deletes :
        (name : String) (version : Option String) (f : Fields)
        → z ≡ record y { waiting = deletion name version f y.world ++ y.waiting }
        → Step y z
    loses :
        (before behind : List Sig) (s : Sig)
        → y.waiting ≡ before ++ s ∷ behind
        → z ≡ record y { waiting = before ++ behind }
        → Step y z
    delivers_again :
        (before behind : List Sig) (s : Sig)
        → y.waiting ≡ before ++ s ∷ behind
        → z ≡ record y { waiting = s ∷ y.waiting }
        → Step y z
    drifts : (w : World p e) → z ≡ record y { world = w } → Step y z

  -- The systems that can be reached from a world in which nothing waits.
  pub data Reach : System p e → Type 0 where
    starts : (w : World p e) → Reach (record { world = w; waiting = []; returned = [] })
    goes_on : {y z : System p e} → Reach y → Step y z → Reach z
