-- ===== src/Util/Interval/Meaning.antt =====
-- The texts that `to_milliseconds` accepts, and what it makes of them.
use cluster_deployer.Common.{
  ℕ, ◌*◌, ◌+◌, ◌-◌, ◌≡◌, refl, ◌∙◌, ap, sym, true, false, ◌↔◌, List, [], ◌∷◌, ◌++◌, none, some, All,
  arith, foldl, inl, inr, Bool-cases, Option-cases,
}
use cluster_deployer.Common.Result.{ok}
use cluster_deployer.Util.Interval.{
  Suffix, ms, h, m, s, d, w, is_space, is_digit, skip_spaces, read_digits, read_number, read_suffix,
  convert, finish, after_number, to_milliseconds,
}

abbrev Spaces : List ℕ → Type 0
Spaces = All (λ c. is_space c ≡ true)

abbrev Digits : List ℕ → Type 0
Digits = All (λ c. is_digit c ≡ true)

-- decimal notation, after a number that is read already
abbrev decimal : ℕ → List ℕ → ℕ
decimal = foldl (λ n c. n * 10 + (c - b'0'))

abbrev letters : Suffix → List ℕ
letters ms = b'm' ∷ b's' ∷ []
letters h = b'h' ∷ []
letters m = b'm' ∷ []
letters s = b's' ∷ []
letters d = b'd' ∷ []
letters w = b'w' ∷ []

-- the length of one unit in milliseconds
abbrev factor : Suffix → ℕ
factor ms = 1
factor s = 1000
factor m = 60000
factor h = 3600000
factor d = 86400000
factor w = 604800000

-- The text is a decimal number and a unit, with white space round them and none between.
pub record IsInterval (text : List ℕ) (n : ℕ) : Type 0 where
  pub before : List ℕ
  pub digit : ℕ
  pub digits : List ℕ
  pub unit : Suffix
  pub after : List ℕ
  pub spaces_before : Spaces before
  pub are_digits : Digits (digit ∷ digits)
  pub spaces_after : Spaces after
  pub text_eq : text ≡ before ++ (digit ∷ digits ++ (letters unit ++ after))
  pub value_eq : n ≡ decimal 0 (digit ∷ digits) * factor unit

convert-eq : (u : Suffix) (n : ℕ) → convert u n ≡ n * factor u
unfolding convert
convert-eq u n = ground arith

skip_spaces-append : (xs ys : List ℕ) → Spaces xs → skip_spaces (xs ++ ys) ≡ skip_spaces ys
unfolding skip_spaces
skip_spaces-append [] ys p = refl
skip_spaces-append (x ∷ xs) ys (e, p) = rw e (skip_spaces-append xs ys p)

skip_spaces_digit : (c : ℕ) (cs : List ℕ) → is_digit c ≡ true → skip_spaces (c ∷ cs) ≡ c ∷ cs
unfolding skip_spaces
skip_spaces_digit c cs p = ground arith

skip_spaces_all : (xs : List ℕ) → Spaces xs → skip_spaces xs ≡ []
unfolding skip_spaces
skip_spaces_all [] p = refl
skip_spaces_all (x ∷ xs) (e, p) = rw e (skip_spaces_all xs p)

read_digits-append :
    (n : ℕ) (ds : List ℕ) (u : Suffix) (rest : List ℕ)
    → Digits ds
    → read_digits n (ds ++ (letters u ++ rest)) ≡ (decimal n ds, letters u ++ rest)
unfolding read_digits
read_digits-append n [] ms rest p = refl
read_digits-append n [] u rest k = ground arith
read_digits-append n (c ∷ ds) u rest (e, p) =
    rw e (read_digits-append (n * 10 + (c - b'0')) ds u rest p)

read_suffix-append :
    (u : Suffix) (rest : List ℕ) → Spaces rest → read_suffix (letters u ++ rest) ≡ some (u, rest)
unfolding read_suffix
read_suffix-append ms rest k = refl
read_suffix-append u [] k = ground arith
read_suffix-append u (c ∷ rest) k = ground arith

read_number-append :
    (c : ℕ) (ds : List ℕ) (u : Suffix) (rest : List ℕ)
    → Digits (c ∷ ds)
    → read_number (c ∷ ds ++ (letters u ++ rest)) ≡ some (decimal 0 (c ∷ ds), letters u ++ rest)
unfolding read_number
read_number-append c ds u rest (e, p) =
    let z : c - b'0' ≡ 0 * 10 + (c - b'0') = omega arith in
    rw e (
      ap some
        (read_digits-append (c - b'0') ds u rest p ∙ ap (λ k. (decimal k ds, letters u ++ rest)) z))

finish-Spaces :
    (text : List ℕ) (n : ℕ) (u : Suffix) (rest : List ℕ)
    → Spaces rest
    → finish text n (some (u, rest)) ≡ ok (n * factor u)
unfolding finish
finish-Spaces text n u rest p = rw (skip_spaces_all rest p, finish, convert-eq u n)

module _ (text : List ℕ) where
  after_skip :
      {xs : List ℕ}
      → skip_spaces text ≡ xs
      → to_milliseconds text ≡ after_number text (read_number xs)
  unfolding to_milliseconds
  after_skip e = ap (λ ys. after_number text (read_number ys)) e

  after_read :
      (n : ℕ) (xs : List ℕ) → after_number text (some (n, xs)) ≡ finish text n (read_suffix xs)
  unfolding after_number
  after_read n xs = refl

-- A text of that form is read as its number times its unit.
accepts : (text : List ℕ) (n : ℕ) → IsInterval text n → to_milliseconds text ≡ ok n
accepts text n i =
    let tail = letters i.unit ++ i.after in
    let number = decimal 0 (i.digit ∷ i.digits) in
    let start : skip_spaces text ≡ i.digit ∷ i.digits ++ tail = rw (i.text_eq) (
      skip_spaces-append i.before (i.digit ∷ i.digits ++ tail) i.spaces_before
      ∙ skip_spaces_digit i.digit (i.digits ++ tail) i.are_digits.0) in
    after_skip text start
    ∙ ap (after_number text) (read_number-append i.digit i.digits i.unit i.after i.are_digits)
    ∙ after_read text number tail
    ∙ ap (finish text number) (read_suffix-append i.unit i.after i.spaces_after)
    ∙ finish-Spaces text number i.unit i.after i.spaces_after
    ∙ ap ok (sym i.value_eq)

skip_spaces_split : (xs : List ℕ) → (pre : List ℕ) × Spaces pre × (xs ≡ pre ++ skip_spaces xs)
unfolding skip_spaces
skip_spaces_split [] = ([], tt, refl)
skip_spaces_split (c ∷ cs) = elim (Bool-cases (is_space c)) [
  | inl e ↦
      let (pre, sp, q) = skip_spaces_split cs in
      (c ∷ pre, (e, sp), rw (e, skip_spaces) (ap (λ t. c ∷ t) q))
  | inr e ↦ ([], tt, rw (e, skip_spaces))
]

Spaces-of_skip : (xs : List ℕ) → skip_spaces xs ≡ [] → Spaces xs
unfolding skip_spaces
Spaces-of_skip [] e = tt
Spaces-of_skip (c ∷ cs) e = elim (Bool-cases (is_space c)) [
  | inl t ↦ (t, Spaces-of_skip cs (ground arith))
  | inr t ↦ ground arith
]

read_digits_split :
    (n : ℕ) (cs : List ℕ)
    → (ds : List ℕ) × Digits ds
      × (read_digits n cs ≡ (decimal n ds, (read_digits n cs).1))
      × (cs ≡ ds ++ (read_digits n cs).1)
unfolding read_digits
read_digits_split n [] = ([], tt, refl, refl)
read_digits_split n (c ∷ cs) = elim (Bool-cases (is_digit c)) [
  | inl e ↦
      let (ds, dd, v, q) = read_digits_split (n * 10 + (c - b'0')) cs in
      (c ∷ ds, (e, dd), rw (e, read_digits) v, rw (e, read_digits) (ap (λ t. c ∷ t) q))
  | inr e ↦ ([], tt, rw (e, read_digits), rw (e, read_digits))
]

read_suffix_split :
    (xs : List ℕ) (u : Suffix) (rest : List ℕ)
    → read_suffix xs ≡ some (u, rest)
    → xs ≡ letters u ++ rest
unfolding read_suffix
read_suffix_split [] u rest e = cc
read_suffix_split (c ∷ []) u rest e = ground arith
read_suffix_split (c ∷ x ∷ cs) u rest e = ground arith

finish_ok :
    (text : List ℕ) (k : ℕ) (u : Suffix) (rest : List ℕ) (n : ℕ)
    → finish text k (some (u, rest)) ≡ ok n
    → (skip_spaces rest ≡ []) × (n ≡ convert u k)
unfolding finish
finish_ok text k u rest n e = ground arith

finish-none : (text : List ℕ) (k n : ℕ) → ¬ (finish text k none ≡ ok n)
unfolding finish
finish-none text k n e = cc

-- What the successful end of a match says of the text that was left for it.
finish_split :
    (text : List ℕ) (k : ℕ) (xs : List ℕ) (n : ℕ)
    → finish text k (read_suffix xs) ≡ ok n
    → (u : Suffix) × (rest : List ℕ) × Spaces rest × (xs ≡ letters u ++ rest) × (n ≡ k * factor u)
finish_split text k xs n e = elim (Option-cases (read_suffix xs)) [
  | inl q ↦ absurd (finish-none text k n (rw q at e))
  | inr ((u, rest), q) ↦
      let (r, v) = finish_ok text k u rest n (rw q at e) in
      (u, rest, Spaces-of_skip rest r, read_suffix_split xs u rest q, v ∙ convert-eq u k)
]

after_number-none : (text : List ℕ) (n : ℕ) → ¬ (after_number text none ≡ ok n)
unfolding after_number
after_number-none text n e = cc

read_number_digit :
    (c : ℕ) (cs : List ℕ)
    → is_digit c ≡ true
    → read_number (c ∷ cs) ≡ some (read_digits (c - b'0') cs)
unfolding read_number
read_number_digit c cs t = rw t

read_number_other : (c : ℕ) (cs : List ℕ) → is_digit c ≡ false → read_number (c ∷ cs) ≡ none
unfolding read_number
read_number_other c cs t = rw t

number_split :
    (text xs : List ℕ) (n : ℕ)
    → after_number text (read_number xs) ≡ ok n
    → (c : ℕ) × (ds : List ℕ) × (rest : List ℕ) × Digits (c ∷ ds)
      × (xs ≡ c ∷ ds ++ rest)
      × (finish text (decimal 0 (c ∷ ds)) (read_suffix rest) ≡ ok n)
number_split text [] n e = absurd (after_number-none text n (unfold read_number in e))
number_split text (c ∷ cs) n e = elim (Bool-cases (is_digit c)) [
  | inl t ↦
      let (ds, dd, v, q) = read_digits_split (c - b'0') cs in
      let rest = (read_digits (c - b'0') cs).1 in
      let z : c - b'0' ≡ 0 * 10 + (c - b'0') = omega arith in
      let found : read_number (c ∷ cs) ≡ some (decimal 0 (c ∷ ds), rest) =
        read_number_digit c cs t ∙ ap some (v ∙ ap (λ k. (decimal k ds, rest)) z) in
      (
        c,
        ds,
        rest,
        (t, dd),
        ap (λ l. c ∷ l) q,
        sym (after_read text (decimal 0 (c ∷ ds)) rest) ∙ ap (after_number text) (sym found) ∙ e,
      )
  | inr t ↦ absurd (after_number-none text n (rw (read_number_other c cs t) at e))
]

-- What is read is of that form, with that value.
sound : (text : List ℕ) (n : ℕ) → to_milliseconds text ≡ ok n → IsInterval text n
sound text n e =
    let (pre, sp, q) = skip_spaces_split text in
    let (c, ds, tail, dd, qn, en) =
      number_split text (skip_spaces text) n (sym (after_skip text refl) ∙ e) in
    let (u, rest, sr, qs, qv) = finish_split text (decimal 0 (c ∷ ds)) tail n en in
    record {
      before = pre;
      digit = c;
      digits = ds;
      unit = u;
      after = rest;
      spaces_before = sp;
      are_digits = dd;
      spaces_after = sr;
      text_eq = q ∙ ap (λ t. pre ++ t) (qn ∙ ap (λ t. c ∷ ds ++ t) qs);
      value_eq = qv;
    }

-- `to_milliseconds` returns n exactly for the texts that are a decimal number and a unit, with white
-- space round them alone, and n is the number times the length of the unit in milliseconds.
pub to_milliseconds_iff :
    (text : List ℕ) (n : ℕ) → (to_milliseconds text ≡ ok n) ↔ IsInterval text n
to_milliseconds_iff text n = (sound text n, accepts text n)
