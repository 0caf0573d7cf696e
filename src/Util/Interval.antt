-- ===== src/Util/Interval.antt =====
-- `to_milliseconds` of deployer/util.py. A text is the list of its code points; `\s` and `\d` are
-- those of a pattern without the UNICODE flag.
pub mod Meaning
use cluster_deployer.Common.{
  ℕ, ◌*◌, ◌+◌, ◌-◌, Bool, ◌&&◌, ◌||◌, List, [], ◌∷◌, Option, none, some, leb, ◌==◌, if◌then◌else◌,
}
use cluster_deployer.Common.Result.{Result, ok, err}

pub record InvalidInterval : Type 0 where
  pub interval : List ℕ

pub data Suffix : Type 0 where
  ms h m s d w : Suffix

abbrev pub is_space : ℕ → Bool
is_space c = (leb 9 c && leb c 13) || c == 32

abbrev pub is_digit : ℕ → Bool
is_digit c = leb b'0' c && leb c b'9'

-- `\s*`
unfoldable pub skip_spaces : List ℕ → List ℕ
skip_spaces [] = []
skip_spaces (c ∷ cs) = if is_space c then skip_spaces cs else c ∷ cs

-- the greedy rest of `\d+`, read as by `int`
read_digits : ℕ → List ℕ → ℕ × List ℕ
read_digits n [] = (n, [])
read_digits n (c ∷ cs) = if is_digit c then read_digits (n * 10 + (c - b'0')) cs else (n, c ∷ cs)

read_number : List ℕ → Option (ℕ × List ℕ)
read_number [] = none
read_number (c ∷ cs) = if is_digit c then some (read_digits (c - b'0') cs) else none

read_letter : ℕ → List ℕ → Option (Suffix × List ℕ)
read_letter c cs =
    if c == b'h'
    then some (h, cs)
    else if c == b'm'
    then some (m, cs)
    else if c == b's'
    then some (s, cs)
    else if c == b'd'
    then some (d, cs)
    else if c == b'w'
    then some (w, cs)
    else none

-- `(ms|h|m|s|d|w)`: `ms` is tried first. To try `m` after `ms` has matched would leave an `s`, which
-- is no space, so the match that is found first is the only one.
read_suffix : List ℕ → Option (Suffix × List ℕ)
unfolding read_letter
read_suffix [] = none
read_suffix (c ∷ []) = read_letter c []
read_suffix (c ∷ e ∷ cs) = if c == b'm' && e == b's' then some (ms, cs) else read_letter c (e ∷ cs)

-- the lambdas of `converter`, and the default for `ms`
convert : Suffix → ℕ → ℕ
convert s n = n * 1000
convert m n = n * 60 * 1000
convert h n = n * 60 * 60 * 1000
convert d n = n * 24 * 60 * 60 * 1000
convert w n = n * 7 * 24 * 60 * 60 * 1000
convert ms n = n

-- `\s*$`, after which the match is converted
finish : List ℕ → ℕ → Option (Suffix × List ℕ) → Result InvalidInterval ℕ
finish interval n none = err (record { interval = interval })
finish interval n (some (u, rest)) = elim (skip_spaces rest) [
  | [] ↦ ok (convert u n)
  | _ ∷ _ ↦ err (record { interval = interval })
]

after_number : List ℕ → Option (ℕ × List ℕ) → Result InvalidInterval ℕ
unfolding finish
after_number interval none = err (record { interval = interval })
after_number interval (some (n, rest)) = finish interval n (read_suffix rest)

unfoldable pub to_milliseconds : List ℕ → Result InvalidInterval ℕ
unfolding skip_spaces read_digits read_number read_suffix convert after_number
to_milliseconds interval = after_number interval (read_number (skip_spaces interval))
