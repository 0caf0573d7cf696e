-- ===== src/Services/Storage/Factory/Cached.antt =====
-- A store that the factory has given is the one that it gives from then on.
use cluster_deployer.Common.{
  String, ◌≡◌, refl, sym, subst, ◌∙◌, inl, inr, Option, none, some, List, [], ◌∷◌, eq_refl,
  Option-cases, str-cases, arith,
}
use cluster_deployer.Common.Result.{Result, ok, err, Result-cases}
use cluster_deployer.Services.Storage.Factory.{
  FactoryError, Modules, Stores, cached, module_of, register, get_registered, create_store, get,
  get_each,
}

module _ {W Store : Type 0} (m : Modules W Store) where
  -- the first cache is part of the second
  abbrev Keeps : List (String × Store) → List (String × Store) → Type 0
  Keeps c c' = (n : String) (a : Store) → cached n c ≡ some a → cached n c' ≡ some a

  -- the call keeps the cache, and a store that it gives is in the cache then
  abbrev Caches : String → Stores W Store → Result FactoryError Store × Stores W Store → Type 0
  Caches name s (r, s') =
      Keeps s.cache s'.cache × ((a : Store) → r ≡ ok a → cached name s'.cache ≡ some a)

  fails-Caches :
      (name : String) (s : Stores W Store) (w : W) (x : FactoryError)
      → Caches name s (err x, record s { outside = w })
  fails-Caches name s w x = ((λ n a h. h), (λ a q. cc))

  adds-Caches :
      (name : String) (store : Store) (s : Stores W Store) (w : W)
      → cached name s.cache ≡ none
      → Caches name s (ok store, record { cache = (name, store) ∷ s.cache; outside = w })
  adds-Caches name store s w free = (
    (λ n a h. elim (str-cases name n) [
      | inl (b, q) ↦ cc (sym free ∙ subst (λ k. cached k s.cache ≡ some a) (sym q) h)
      | inr (b, q) ↦ rw b h
    ]),
    (λ a q. rw (eq_refl name) (ground (arith, q))),
  )

  get_registered-Caches :
      (name : String) (store : Store) (s : Stores W Store) (w : W)
      → cached name s.cache ≡ none
      → Caches name s (get_registered m store (register m name store (record s { outside = w })))
  unfolding register
  get_registered-Caches name store s w free = elim (Result-cases (m.set_up store w)) [
    | inl (w1, q) ↦ rw (q, register) (adds-Caches name store s w1 free)
    | inr (text, q) ↦ rw (q, register) (fails-Caches name s w _)
  ]

  create_store-Caches :
      (name : String) (o : Option String) (s : Stores W Store)
      → cached name s.cache ≡ none
      → Caches name s (create_store m name o s)
  create_store-Caches name none s free = fails-Caches name s s.outside _
  create_store-Caches name (some module_name) s free =
      elim (Result-cases (m.create module_name s.outside)) [
        | inl ((store, w), q) ↦ rw (q, create_store) (get_registered-Caches name store s w free)
        | inr (text, q) ↦ rw (q, create_store) (fails-Caches name s s.outside _)
      ]

  get-Caches : (name : String) (s : Stores W Store) → Caches name s (get m name s)
  unfolding get
  get-Caches name s = elim (Option-cases (cached name s.cache)) [
    | inl free ↦ rw (free, get) (create_store-Caches name (module_of m name) s free)
    | inr (store, q) ↦ rw (q, get) ((λ n a h. h), (λ a e. q ∙ ground (arith, e)))
  ]

  get_each-Keeps :
      (names : List String) (s : Stores W Store) → Keeps s.cache (get_each m names s).cache
  get_each-Keeps [] s n a h = h
  get_each-Keeps (name ∷ names) s n a h =
      get_each-Keeps names (get m name s).1 n a ((get-Caches name s).0 n a h)

  -- A store that the factory has given for a name is given again for it, after any gets of any names that
  -- work or fail in between, and nothing is imported or set up for it again.
  pub get_again :
      (name : String) (store : Store) (names : List String) (s : Stores W Store)
      → (get m name s).0 ≡ ok store
      → let later = get_each m names (get m name s).1 in get m name later ≡ (ok store, later)
  unfolding get
  get_again name store names s h =
      let q : cached name (get_each m names (get m name s).1).cache ≡ some store =
        get_each-Keeps names (get m name s).1 name store ((get-Caches name s).1 store h) in
      rw (q, get) refl
