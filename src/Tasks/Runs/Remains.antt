-- ===== src/Tasks/Runs/Remains.antt =====
-- The task of a safe signature that may run next is safe, and so is what is left of the signature.
use cluster_deployer.Common.{inl, inr, Option, some, none, List, All, All-append}
use cluster_deployer.Tasks.Canvas.{Sig, Sigs, nil, cons}
use cluster_deployer.Tasks.Runs.{
  Picks, first, later, Focus, here, in_joined, in_chain, in_header, in_body, in_linked, joined_left,
  chain_left, chord_left, linked_left, to_list, option_list,
}
use cluster_deployer.Tasks.Runs.Facts.{Fact, Shows, WithTask, Safe, SafeChain, SafeEach}
use cluster_deployer.Tasks.Runs.Weaken.{Weaker, Safe-mono, SafeChain-mono, SafeEach-mono}

Weaker-with : (P : Fact → Type 0) (t : Sig) → Weaker P (WithTask P t)
Weaker-with P t x a = inl a

-- A composed signature shows nothing, and any other is its own task.
Focus-Shows :
    {s t : Sig} {rest : Option Sig} {rescue : List Sig}
    → Focus s t rest rescue
    → (x : Fact) → Shows s x
    → Shows t x
Focus-Shows here x h = h
Focus-Shows (in_joined f) x h = absurd h
Focus-Shows (in_chain f) x h = absurd h
Focus-Shows (in_header k f) x h = absurd h
Focus-Shows (in_body f) x h = absurd h
Focus-Shows (in_linked f) x h = absurd h

-- What comes after `s` may wait for the task of `s` instead.
Weaker-task :
    {s t : Sig} {rest : Option Sig} {rescue : List Sig} (P : Fact → Type 0)
    → Focus s t rest rescue
    → Weaker (WithTask P s) (WithTask P t)
Weaker-task P f x (inl a) = inl a
Weaker-task P f x (inr b) = inr (Focus-Shows f x b)

Weaker-rest :
    {s t : Sig} {rest : Option Sig} {rescue : List Sig} (P : Fact → Type 0) (a : Sig)
    → Focus s t rest rescue
    → Weaker (WithTask P s) (WithTask (WithTask P t) a)
Weaker-rest P a f x h = inl (Weaker-task P f x h)

abbrev pub SafeRest : (Fact → Type 0) → Option Sig → Type 0
SafeRest P none = Unit
SafeRest P (some s) = Safe P s

joined_left-Safe :
    {a t : Sig} {rescue : List Sig} (P : Fact → Type 0) (rest : Option Sig) (b : Sig)
    → Focus a t rest rescue
    → SafeRest (WithTask P t) rest
    → Safe (WithTask P a) b
    → Safe (WithTask P t) (joined_left rest b)
joined_left-Safe P none b f h k = Safe-mono _ _ (Weaker-task P f) b k
joined_left-Safe P (some c) b f h k = (h, Safe-mono _ _ (Weaker-rest P c f) b k)

chain_left-Safe :
    {a t : Sig} {rescue : List Sig} (P : Fact → Type 0) (rest : Option Sig) (ts : Sigs)
    → Focus a t rest rescue
    → SafeRest (WithTask P t) rest
    → SafeChain (WithTask P a) ts
    → SafeRest (WithTask P t) (chain_left rest ts)
chain_left-Safe P none nil f h k = tt
chain_left-Safe P none (cons b ts) f h k = SafeChain-mono _ _ (Weaker-task P f) (cons b ts) k
chain_left-Safe P (some c) ts f h k = (h, SafeChain-mono _ _ (Weaker-rest P c f) ts k)

chord_left-Safe :
    (Q : Fact → Type 0) (rest : Option Sig) (header : Sigs) (body : Sig)
    → SafeRest Q rest
    → SafeEach Q header
    → Safe Q body
    → Safe Q (chord_left rest header body)
chord_left-Safe Q none header body h k b = (k, b)
chord_left-Safe Q (some c) header body h k b = ((h, k), b)

linked_left-Safe :
    (Q : Fact → Type 0) (rest : Option Sig) (ls es : Sigs)
    → SafeRest Q rest
    → SafeChain Q ls
    → SafeChain Q es
    → SafeRest Q (linked_left rest ls es)
linked_left-Safe Q none nil es h k b = tt
linked_left-Safe Q none (cons t ts) es h k b = k
linked_left-Safe Q (some c) ls es h k b = (h, k, b)

Picks-Safe :
    {t : Sig} {ts us : Sigs} (P : Fact → Type 0)
    → Picks t ts us
    → SafeEach P ts
    → Safe P t × SafeEach P us
Picks-Safe P first (a, b) = (a, b)
Picks-Safe P (later k) (a, b) = let (c, d) = Picks-Safe P k b in (c, (a, d))

to_list-Safe : (P : Fact → Type 0) (ts : Sigs) → SafeEach P ts → All (Safe P) (to_list ts)
to_list-Safe P nil h = tt
to_list-Safe P (cons t ts) (a, b) = (a, to_list-Safe P ts b)

pub option_list-Safe :
    (P : Fact → Type 0) (rest : Option Sig) → SafeRest P rest → All (Safe P) (option_list rest)
option_list-Safe P none h = tt
option_list-Safe P (some s) h = (h, tt)

-- The task is safe with the same facts, and what follows a failure too; what follows its return is safe
-- with what the task shows.
pub Focus-Safe :
    {s t : Sig} {rest : Option Sig} {rescue : List Sig} (P : Fact → Type 0)
    → Focus s t rest rescue
    → Safe P s
    → Safe P t × SafeRest (WithTask P t) rest × All (Safe P) rescue
Focus-Safe P here h = (h, tt, tt)
Focus-Safe P (in_joined {b} {rest} f) (h, k) =
    let (task, left, bad) = Focus-Safe P f h in (task, joined_left-Safe P rest b f left k, bad)
Focus-Safe P (in_chain {ts} {rest} f) (h, k) =
    let (task, left, bad) = Focus-Safe P f h in (task, chain_left-Safe P rest ts f left k, bad)
Focus-Safe P (in_header {t} {body} {others} {rest} {rescue} k f) (h, b) =
    let (one, more) = Picks-Safe P k h in
    let (task, left, bad) = Focus-Safe P f one in
    (
      task,
      chord_left-Safe _ rest others body left (SafeEach-mono _ _ (Weaker-with P t) others more)
          (Safe-mono _ _ (Weaker-with P t) body b),
      All-append (Safe P) rescue (to_list others) bad (to_list-Safe P others more),
    )
Focus-Safe P (in_body f) (h, b) = Focus-Safe P f b
Focus-Safe P (in_linked {t} {link} {link_error} {rest} f) (h, k, b) =
    let (task, left, bad) = Focus-Safe P f h in
    (
      task,
      linked_left-Safe _ rest link link_error left (SafeChain-mono _ _ (Weaker-with P t) link k)
          (SafeChain-mono _ _ (Weaker-with P t) link_error b),
      (b, bad),
    )
