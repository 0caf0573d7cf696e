-- ===== src/Services/Deployment/Ports/Decimal.antt =====
-- `str` and `int` on the numbers of the ports.
use cluster_deployer.Common.{
  ℕ, zero, suc, ◌+◌, ◌*◌, ◌-◌, ◌/◌, ◌<◌, ◌≡◌, refl, ◌∙◌, ap, true, some, List, [], ◌∷◌, ◌++◌, All,
  ltb, arith, Bool-cases, ltb→lt, ◌≤◌, inl, inr,
}
use cluster_deployer.Services.Deployment.Formatting.{digit_text, print_digits, decimal}
use cluster_deployer.Services.Deployment.Ports.{digits_to_end, first_digit, int_of}
use cluster_deployer.Util.Interval.{skip_spaces, is_digit}
use cluster_deployer.Util.Text.{codes}
use cluster_deployer.Util.Text.Laws.{codes-append}
use mathlib.Core.Option.{some-injective}
use Prim.Native.Nat.{◌%◌}

digit_text_lem : (d : ℕ) → d < 10 → codes (digit_text d) ≡ (48 + d) ∷ []
digit_text_lem zero h = refl
digit_text_lem (suc zero) h = refl
digit_text_lem (suc (suc zero)) h = refl
digit_text_lem (suc (suc (suc zero))) h = refl
digit_text_lem (suc (suc (suc (suc zero)))) h = refl
digit_text_lem (suc (suc (suc (suc (suc zero))))) h = refl
digit_text_lem (suc (suc (suc (suc (suc (suc zero)))))) h = refl
digit_text_lem (suc (suc (suc (suc (suc (suc (suc zero))))))) h = refl
digit_text_lem (suc (suc (suc (suc (suc (suc (suc (suc zero)))))))) h = refl
digit_text_lem (suc (suc (suc (suc (suc (suc (suc (suc (suc zero))))))))) h = refl
digit_text_lem (suc (suc (suc (suc (suc (suc (suc (suc (suc (suc d)))))))))) h =
    (let none_such : ⊥ = omega arith in absurd none_such)

digit_is_digit : (d : ℕ) → d < 10 → is_digit (48 + d) ≡ true
digit_is_digit d h = ground arith

abbrev AllDigits : List ℕ → Type 0
AllDigits cs = All (λ c. is_digit c ≡ true) cs

AllDigits-append : (xs ys : List ℕ) → AllDigits xs → AllDigits ys → AllDigits (xs ++ ys)
AllDigits-append [] ys h k = k
AllDigits-append (x ∷ xs) ys (h, hs) k = (h, AllDigits-append xs ys hs k)

digits_to_end-append :
    (n r d : ℕ) (cs : List ℕ)
    → d < 10
    → AllDigits cs
    → digits_to_end n cs ≡ some r
    → digits_to_end n (cs ++ (48 + d) ∷ []) ≡ some (r * 10 + d)
unfolding digits_to_end
digits_to_end-append n r d [] h k q =
    rw (digit_is_digit d h) (ap some (omega (arith, some-injective n r q)))
digits_to_end-append n r d (c ∷ cs) h (k, ks) q =
    rw k (digits_to_end-append (n * 10 + (c - 48)) r d cs h ks (rw k at q))

first_digit-append :
    (r d : ℕ) (cs : List ℕ)
    → d < 10
    → AllDigits cs
    → first_digit cs ≡ some r
    → first_digit (cs ++ (48 + d) ∷ []) ≡ some (r * 10 + d)
first_digit-append r d [] h k q = cc
first_digit-append r d (c ∷ cs) h (k, ks) q =
    rw k (digits_to_end-append (c - 48) r d cs h ks (rw k at q))

-- what `int` reads of the digits that `str` prints
print_digits_lem :
    (fuel n : ℕ)
    → n < fuel
    → AllDigits (codes (print_digits fuel n)) × (first_digit (codes (print_digits fuel n)) ≡ some n)
unfolding print_digits digits_to_end
print_digits_lem zero n h = (let none_such : ⊥ = omega arith in absurd none_such)
print_digits_lem (suc fuel) n h = elim (Bool-cases (ltb n 10)) [
  | inl small ↦
      let below : n < 10 = ltb→lt n 10 small in
      let digit : is_digit (48 + n) ≡ true = digit_is_digit n below in
      rw (small, digit_text_lem n below) ((digit, tt), rw digit (ap some (omega arith)))
  | inr large ↦
      let over : 10 ≤ n = ground arith in
      let (ds, reads) = print_digits_lem fuel (n / 10) (omega arith) in
      let d : ℕ = n % 10 in
      let below : d < 10 = omega arith in
      rw (large, codes-append (print_digits fuel (n / 10)) (digit_text d), digit_text_lem d below)
        (
          AllDigits-append (codes (print_digits fuel (n / 10))) ((48 + d) ∷ []) ds
              (digit_is_digit d below, tt),
          first_digit-append (n / 10) d (codes (print_digits fuel (n / 10))) below ds reads
              ∙ ap some (omega arith),
        )
]

skip_spaces-AllDigits : (cs : List ℕ) → AllDigits cs → skip_spaces cs ≡ cs
unfolding skip_spaces
skip_spaces-AllDigits [] h = refl
skip_spaces-AllDigits (c ∷ cs) (h, hs) = ground arith

-- A port that is printed as a key of the upstreams is read back as the same number, whatever the number.
pub int_of-decimal : (n : ℕ) → int_of (decimal n) ≡ some n
unfolding int_of decimal
int_of-decimal n =
    let (ds, reads) = print_digits_lem (suc n) n (omega arith) in
    rw (skip_spaces-AllDigits (codes (print_digits (suc n) n)) ds) reads
