-- ===== src/Services/Deployment/Formatting.antt =====
-- What the service uses of Python's text functions and does not define: `str` on a value, `json.dumps`,
-- and `str.format` with named arguments. `str` leaves a text as it is and prints a number in decimal.
use cluster_deployer.Common.{ℕ, zero, suc, ◌/◌, String, text_append, ◌≡◌, ltb, if◌then◌else◌}
use cluster_deployer.Value.{Value, num, str, Fields}
use cluster_deployer.Value.Access.{Access}
use Prim.Native.Nat.{◌%◌}

abbrev pub digit_text : ℕ → String
digit_text n =
    if ltb n 1
    then "0"
    else if ltb n 2
    then "1"
    else if ltb n 3
    then "2"
    else if ltb n 4
    then "3"
    else if ltb n 5
    then "4"
    else if ltb n 6
    then "5"
    else if ltb n 7
    then "6"
    else if ltb n 8
    then "7"
    else if ltb n 9
    then "8"
    else "9"

-- the decimal digits of a number; `fuel` is the most that there may be
unfoldable pub print_digits : (fuel n : ℕ) → String
print_digits zero n = ""
print_digits (suc fuel) n =
    let front = print_digits fuel (n / 10) in
    if ltb n 10 then digit_text n else text_append front (digit_text (n % 10))

-- a number n has at most n + 1 digits
unfoldable pub decimal : ℕ → String
unfolding print_digits
decimal n = print_digits (suc n) n

pub record Formatting : Type 0 where
  pub text_of : Value → String
  pub dumps : Value → String
  pub format : String → Fields → Access String
  pub text_of-str : (s : String) → text_of (str s) ≡ s
  pub text_of-num : (n : ℕ) → text_of (num n) ≡ decimal n
