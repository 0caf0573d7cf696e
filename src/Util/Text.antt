-- ===== src/Util/Text.antt =====
-- The characters of a text, and their comparison without regard to case.
pub mod Laws
use cluster_deployer.Common.{
  ℕ, String, ◌≡◌, refl, Bool, true, false, Option, none, some, List, [], ◌∷◌, ◌&&◌, ◌+◌, leb, ◌==◌,
  if◌then◌else◌,
}
use Prim.Native.Char.{Char, char, code, nul, IsScalar}
use Prim.Native.Nat.{Ordering, compare}

abbrev pub codes : String → List ℕ
codes String.[] = []
codes (String.◌∷◌ c s) = code c ∷ codes s

is_lt? : (o : Ordering) → Option (o ≡ Ordering.lt)
is_lt? Ordering.lt = some refl
is_lt? _ = none

low-IsScalar : (n : ℕ) → compare n 0xD800 ≡ Ordering.lt → IsScalar n
low-IsScalar n h = rw h tt

-- The character with the number; the code points of this library's texts are below the surrogates.
char_of : ℕ → Char
unfolding is_lt?
char_of n = elim (is_lt? (compare n 0xD800)) [ none ↦ nul | some h ↦ char n (low-IsScalar n h) ]

-- the text of the code points
unfoldable pub text_of_codes : List ℕ → String
unfolding char_of low-IsScalar
text_of_codes [] = ""
text_of_codes (c ∷ cs) = String.◌∷◌ (char_of c) (text_of_codes cs)

-- `str.lower` on one character
abbrev pub lower : ℕ → ℕ
lower c = if leb b'A' c && leb c b'Z' then c + 32 else c

abbrev pub same_codes : List ℕ → List ℕ → Bool
same_codes [] [] = true
same_codes (x ∷ xs) (y ∷ ys) = x == y && same_codes xs ys
same_codes _ _ = false
