-- ===== src/Tasks/Runs/Callbacks.antt =====
-- The callbacks that release a lock, as Celery runs them.
use cluster_deployer.Common.{◌≡◌, refl, ◌⊎◌, inl, inr, Option, none, some, List, [], ◌∷◌, ◌++◌}
use cluster_deployer.Services.Lock.{Lock}
use cluster_deployer.Tasks.Canvas.{Sig, Sigs, nil, cons, next, chain, linked, release_lock}
use cluster_deployer.Tasks.Locking.Released.{last}
use cluster_deployer.Tasks.Runs.{
  Focus, here, in_joined, in_chain, in_header, in_body, in_linked, option_list, chain_left,
  linked_left,
}

-- one of the elements has the property
abbrev pub Any : {A : Type 0} → (A → Type 0) → List A → Type 0
Any P [] = ⊥
Any P (x ∷ xs) = P x ⊎ Any P xs

module _ {A : Type 0} (P : A → Type 0) where
  pub Any-front : (xs ys : List A) → Any P xs → Any P (xs ++ ys)
  Any-front [] ys h = absurd h
  Any-front (x ∷ xs) ys (inl h) = inl h
  Any-front (x ∷ xs) ys (inr h) = inr (Any-front xs ys h)

  pub Any-back : (xs ys : List A) → Any P ys → Any P (xs ++ ys)
  Any-back [] ys h = h
  Any-back (x ∷ xs) ys h = inr (Any-back xs ys h)

  pub Any-middle :
      (xs : List A) (x : A) (ys : List A) → Any P (xs ++ x ∷ ys) → P x ⊎ Any P (xs ++ ys)
  Any-middle [] x ys h = h
  Any-middle (z ∷ xs) x ys (inl h) = inr (inl h)
  Any-middle (z ∷ xs) x ys (inr h) = elim (Any-middle xs x ys h) [
    | inl k ↦ inl k
    | inr k ↦ inr (inr k)
  ]

  pub Any-others :
      (before behind new sent : List A)
      → Any P (before ++ behind)
      → Any P (before ++ (new ++ (behind ++ sent)))
  Any-others [] behind new sent h = Any-back new (behind ++ sent) (Any-front behind sent h)
  Any-others (x ∷ xs) behind new sent (inl h) = inl h
  Any-others (x ∷ xs) behind new sent (inr h) = inr (Any-others xs behind new sent h)

-- a list of callbacks that ends with the release of the lock
abbrev pub EndsWith : Lock → Sigs → Type 0
EndsWith l ts = last ts ≡ next (release_lock l)

-- the callbacks of the signature end with the release of the lock, or it is a list of such callbacks
abbrev pub Releases : Lock → Sig → Type 0
Releases l (linked t link link_error) = EndsWith l link × EndsWith l link_error
Releases l (chain ts) = EndsWith l ts
Releases l _ = ⊥

-- the signature is a list of callbacks that ends with the release
abbrev pub IsCallback : Lock → Sig → Type 0
IsCallback l (chain ts) = EndsWith l ts
IsCallback l _ = ⊥

-- A release is its own task, and nothing is left of it.
release-Focus :
    {s t : Sig} {rest : Option Sig} {rescue : List Sig} (l : Lock)
    → Focus s t rest rescue
    → s ≡ release_lock l
    → (t ≡ release_lock l) × (rest ≡ none)
release-Focus l here q = (q, refl)
release-Focus l (in_joined f) q = cc q
release-Focus l (in_chain f) q = cc q
release-Focus l (in_header k f) q = cc q
release-Focus l (in_body f) q = cc q
release-Focus l (in_linked f) q = cc q

-- what is left releases the lock
abbrev pub ReleasesRest : Lock → Option Sig → Type 0
ReleasesRest l none = ⊥
ReleasesRest l (some s) = Releases l s

chain_left-Releases :
    {a t : Sig} {rescue : List Sig} (l : Lock) (rest : Option Sig) (ts : Sigs)
    → Focus a t rest rescue
    → EndsWith l (cons a ts)
    → ReleasesRest l (chain_left rest ts) ⊎ (t ≡ release_lock l)
chain_left-Releases l none nil f h = inr (release-Focus l f (cc h)).0
chain_left-Releases l (some a) nil f h = cc (release-Focus l f (cc h)).1
chain_left-Releases l none (cons b ts) f h = inl h
chain_left-Releases l (some a) (cons b ts) f h = inl h

linked_left-Releases :
    (l : Lock) (rest : Option Sig) (link link_error : Sigs)
    → EndsWith l link
    → EndsWith l link_error
    → ReleasesRest l (linked_left rest link link_error)
linked_left-Releases l none nil link_error h k = cc h
linked_left-Releases l none (cons t ts) link_error h k = h
linked_left-Releases l (some a) link link_error h k = (h, k)

-- After a return the rest releases the lock, or it was the release that has returned.
pub done-Releases :
    {s t : Sig} {rest : Option Sig} {rescue : List Sig} (l : Lock)
    → Focus s t rest rescue
    → ¬ Releases l t
    → Releases l s
    → ReleasesRest l rest ⊎ (t ≡ release_lock l)
done-Releases l here n h = absurd (n h)
done-Releases l (in_joined f) n h = absurd h
done-Releases l (in_chain {ts} {rest} f) n h = chain_left-Releases l rest ts f h
done-Releases l (in_header k f) n h = absurd h
done-Releases l (in_body f) n h = absurd h
done-Releases l (in_linked {link} {link_error} {rest} f) n (h, k) =
    inl (linked_left-Releases l rest link link_error h k)

-- After a failure that is not one of a callback, the callbacks for errors release the lock.
pub failed-Releases :
    {s t : Sig} {rest : Option Sig} {rescue : List Sig} (l : Lock)
    → Focus s t rest rescue
    → ¬ Releases l t
    → ¬ IsCallback l s
    → Releases l s
    → Any (Releases l) rescue
failed-Releases l here n c h = absurd (n h)
failed-Releases l (in_joined f) n c h = absurd h
failed-Releases l (in_chain f) n c h = absurd (c h)
failed-Releases l (in_header k f) n c h = absurd h
failed-Releases l (in_body f) n c h = absurd h
failed-Releases l (in_linked f) n c (h, k) = inl k

pub rest-Any :
    (l : Lock) (rest : Option Sig) → ReleasesRest l rest → Any (Releases l) (option_list rest)
rest-Any l none h = absurd h
rest-Any l (some s) h = inl h
