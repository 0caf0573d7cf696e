-- ===== src/Services/Deployment/Upstreams/ReadBack.antt =====
-- The keys of the upstreams that are added for the exposed ports, as `get_exposed_ports` reads them.
use cluster_deployer.Common.{
  ℕ, String, ◌≡◌, refl, sym, ◌∙◌, ap, subst, ◌⊎◌, inl, inr, ◌↔◌, Option, none, some, List, [], ◌∷◌,
  ◌++◌, map, foldl, str-cases, Option-cases,
}
use cluster_deployer.Common.Result.{ok, err, Result-cases}
use mathlib.Core.List.{append_assoc}
use cluster_deployer.Conf.Defaults.{empty}
use cluster_deployer.Services.Deployment.Formatting.{decimal}
use cluster_deployer.Services.Deployment.Ports.{Port, number, collect, upstream_port}
use cluster_deployer.Services.Deployment.Ports.Decimal.{int_of-decimal}
use cluster_deployer.Services.Deployment.Ports.Sorted.{Among}
use cluster_deployer.Services.Deployment.Upstreams.{set_default}
use cluster_deployer.Value.{Value, Fields, end, field, get_field, set_field}
use cluster_deployer.Value.Access.{keys, Access, AccessError}

-- `int(port) for port in upstreams`
abbrev pub read_ports : Fields → Access (List Port)
read_ports d = collect upstream_port (keys d)

upstream_port-decimal : (n : ℕ) → upstream_port (decimal n) ≡ ok (number n ∷ [])
upstream_port-decimal n = rw (int_of-decimal, upstream_port) refl

ok_injective : {A : Type 0} {a b : A} → Path (Access A) (ok a) (ok b) → a ≡ b
ok_injective h = cc

no_result : {A : Type 0} {x : AccessError} {a : A} → Path (Access A) (err x) (ok a) → ⊥
no_result h = cc

no_value : {v : Value} → Path (Option Value) (some v) none → ⊥
no_value h = cc

Among-append_right : (x : Port) (ys zs : List Port) → Among x zs → Among x (ys ++ zs)
Among-append_right x [] zs h = h
Among-append_right x (y ∷ ys) zs h = inr (Among-append_right x ys zs h)

Among-snoc : (x p : Port) (qs : List Port) → Among x (qs ++ p ∷ []) ↔ ((x ≡ p) ⊎ Among x qs)
Among-snoc x p [] = (λ h. h, λ h. h)
Among-snoc x p (q ∷ qs) =
    let (to, from) = Among-snoc x p qs in
    (
      λ h. elim h [
        | inl g ↦ inr (inl g)
        | inr m ↦ elim (to m) [ inl g ↦ inl g | inr k ↦ inr (inr k) ]
      ],
      λ h. elim h [
        | inl g ↦ inr (from (inl g))
        | inr m ↦ elim m [ inl g ↦ inl g | inr k ↦ inr (from (inr k)) ]
      ],
    )

-- What is read of the keys is what is read of the first, and then what is read of the rest.
read_ports-field :
    (j : String) (v : Value) (d : Fields) (qs : List Port)
    → read_ports (field j v d) ≡ ok qs
    → (ys : List Port) × (zs : List Port) × (upstream_port j ≡ ok ys)
      × (read_ports d ≡ ok zs)
      × (qs ≡ ys ++ zs)
unfolding collect
read_ports-field j v d qs h = elim (Result-cases (upstream_port j)) [
  | inr (x, a) ↦ absurd (no_result (rw a at h))
  | inl (ys, a) ↦ elim (Result-cases (read_ports d)) [
    | inr (x, b) ↦ absurd (no_result (rw (a, b) at h))
    | inl (zs, b) ↦ (ys, zs, a, b, ok_injective (sym (rw (a, b) at h)))
  ]
]

read_ports-cons :
    (j : String) (v : Value) (d : Fields) (ys zs : List Port)
    → upstream_port j ≡ ok ys
    → read_ports d ≡ ok zs
    → read_ports (field j v d) ≡ ok (ys ++ zs)
unfolding collect
read_ports-cons j v d ys zs a b = rw (a, b) refl

-- A missing key is put at the end, and read there.
read_ports-set_field :
    (n : ℕ) (d : Fields) (qs : List Port)
    → get_field (decimal n) d ≡ none
    → read_ports d ≡ ok qs
    → read_ports (set_field (decimal n) empty d) ≡ ok (qs ++ number n ∷ [])
unfolding collect get_field set_field
read_ports-set_field n end qs h k =
    read_ports-cons (decimal n) empty end (number n ∷ []) [] (upstream_port-decimal n) refl
    ∙ ap (λ l. ok (l ++ number n ∷ [])) (ok_injective k)
read_ports-set_field n (field j v d) qs h k = elim (str-cases j (decimal n)) [
  | inl (t, same) ↦ absurd (no_value (rw t at h))
  | inr (t, other) ↦
      let (ys, zs, a, b, q) = read_ports-field j v d qs k in
      rw t (
        read_ports-cons j v (set_field (decimal n) empty d) ys (zs ++ number n ∷ []) a
          (read_ports-set_field n d zs (rw t at h) b)
        ∙ ap ok (sym (append_assoc ys zs (number n ∷ [])) ∙ ap (λ l. l ++ number n ∷ []) (sym q)))
]

-- A key that is there is read already.
read_ports-there :
    (n : ℕ) (v : Value) (d : Fields) (qs : List Port)
    → get_field (decimal n) d ≡ some v
    → read_ports d ≡ ok qs
    → Among (number n) qs
unfolding collect get_field
read_ports-there n v end qs h k = cc
read_ports-there n v (field j w d) qs h k = elim (str-cases j (decimal n)) [
  | inl (t, same) ↦
      let (ys, zs, a, b, q) = read_ports-field j w d qs k in
      let first : ys ≡ number n ∷ [] =
        ok_injective (sym a ∙ (ap upstream_port same ∙ upstream_port-decimal n)) in
      rw (q, first) (inl refl)
  | inr (t, other) ↦
      let (ys, zs, a, b, q) = read_ports-field j w d qs k in
      rw q (Among-append_right (number n) ys zs (read_ports-there n v d zs (rw t at h) b))
]

-- One port: the ports that are read are those that were read before, and the new one.
set_default-ports :
    (n : ℕ) (d : Fields) (qs : List Port)
    → read_ports d ≡ ok qs
    → (rs : List Port) × (read_ports (set_default d (number n)) ≡ ok rs)
      × ((x : Port) → Among x rs ↔ ((x ≡ number n) ⊎ Among x qs))
set_default-ports n d qs h = elim (Option-cases (get_field (decimal n) d)) [
  | inl q ↦
      rw (q, set_default)
        (qs ++ number n ∷ [], read_ports-set_field n d qs q h, λ x. Among-snoc x (number n) qs)
  | inr (v, q) ↦
      rw (q, set_default)
        (
          qs,
          h,
          λ x. (
            λ m. inr m,
            λ m. elim m [
              | inl g ↦ subst (λ y. Among y qs) (sym g) (read_ports-there n v d qs q h)
              | inr k ↦ k
            ],
          ),
        )
]

-- The upstreams whose keys are all numbers stay so when a deployment's numbered ports are added, and the
-- ports that are then read from the keys are exactly those that were read before and those that were
-- added: `int` reads back what `str` has written.
pub added_ports_read_back :
    (ns : List ℕ) (d : Fields) (qs : List Port)
    → read_ports d ≡ ok qs
    → (rs : List Port) × (read_ports (foldl set_default d (map number ns)) ≡ ok rs)
      × ((x : Port) → Among x rs ↔ (Among x qs ⊎ Among x (map number ns)))
added_ports_read_back [] d qs h =
    (qs, h, λ x. (λ m. inl m, λ m. elim m [ inl k ↦ k | inr none_such ↦ absurd none_such ]))
added_ports_read_back (n ∷ ns) d qs h =
    let (ps, a, b) = set_default-ports n d qs h in
    let (rs, c, e) = added_ports_read_back ns (set_default d (number n)) ps a in
    (
      rs,
      c,
      λ x. (
        λ m. elim ((e x).0 m) [
          | inl k ↦ elim ((b x).0 k) [ inl g ↦ inr (inl g) | inr l ↦ inl l ]
          | inr k ↦ inr (inr k)
        ],
        λ m. (e x).1 (elim m [
          | inl k ↦ inl ((b x).1 (inr k))
          | inr k ↦ elim k [ inl g ↦ inl ((b x).1 (inl g)) | inr l ↦ inr l ]
        ]),
      ),
    )
