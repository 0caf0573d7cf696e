-- ===== src/Views/Paging.antt =====
-- `use_paging` of deployer/views/util.py.
use cluster_deployer.Common.{
  ℕ, String, ◌≤◌, min, Option, none, some, List, [], ◌∷◌, ◌==◌, arith, if◌then◌else◌,
}
use cluster_deployer.Conf.{api_default_page_size}
use cluster_deployer.Services.Deployment.Ports.{first_digit}
use cluster_deployer.Util.Interval.{skip_spaces}
use cluster_deployer.Util.Text.{codes}

-- an integer, as far as paging goes: one below zero is as good as any other
pub data Integer : Type 0 where
  negative : Integer
  natural : ℕ → Integer

abbrev pub negated : Option ℕ → Option Integer
negated none = none
negated (some n) = some (if n == 0 then natural 0 else negative)

abbrev pub unsigned : Option ℕ → Option Integer
unsigned none = none
unsigned (some n) = some (natural n)

abbrev pub read_signed : List ℕ → Option Integer
read_signed [] = none
read_signed (c ∷ cs) =
    if c == b'-'
    then negated (first_digit cs)
    else if c == b'+'
    then unsigned (first_digit cs)
    else unsigned (first_digit (c ∷ cs))

-- `int` on an argument of a request: digits with a sign and white space round it
unfoldable pub read_integer : String → Option Integer
unfolding skip_spaces
read_integer s = read_signed (skip_spaces (codes s))

-- `max(0, min(API_DEFAULT_PAGE_SIZE, size))`
abbrev pub clamp_size : Option Integer → ℕ
clamp_size none = api_default_page_size
clamp_size (some negative) = 0
clamp_size (some (natural n)) = min api_default_page_size n

-- `max(0, page)`
abbrev pub clamp_page : Option Integer → ℕ
clamp_page none = 0
clamp_page (some negative) = 0
clamp_page (some (natural n)) = n

-- the page and the size that `use_paging` gives to the handler
unfoldable pub use_paging : (page size : Option String) → ℕ × ℕ
unfolding read_integer
use_paging page size = (
  elim page [ none ↦ 0 | some s ↦ clamp_page (read_integer s) ],
  elim size [ none ↦ api_default_page_size | some s ↦ clamp_size (read_integer s) ],
)

clamp_size-le : (i : Option Integer) → clamp_size i ≤ api_default_page_size
clamp_size-le none = omega arith
clamp_size-le (some negative) = omega arith
clamp_size-le (some (natural n)) = omega arith

-- No request gets more than the default number of entries of a page.
use_paging-le : (page size : Option String) → (use_paging page size).1 ≤ api_default_page_size
unfolding use_paging
use_paging-le page none = omega arith
use_paging-le page (some s) = clamp_size-le (read_integer s)
