-- ===== src/Services/Deployment/Ports.antt =====
-- `get_exposed_ports` of deployer/services/deployment.py. A port is a number, a text, or `None` where a
-- location has none; Python 2 sorts `None` before numbers and numbers before texts. A port of any other
-- kind, which the schema of a deployment does not allow, is an error here.
pub mod Sorted
pub mod Decimal
pub mod Tests
use cluster_deployer.Common.{
  ℕ, zero, suc, ◌+◌, ◌*◌, ◌-◌, ◌/◌, String, text_append, Bool, true, false, ◌&&◌, Option, none,
  some, List, [], ◌∷◌, ◌++◌, ltb, leb, ◌==◌, if◌then◌else◌, length,
}
use cluster_deployer.Common.Result.{Result, ok, err, ◌>>=◌}
use cluster_deployer.Conf.Defaults.{empty}
use cluster_deployer.Util.Text.{codes, same_codes}
use cluster_deployer.Util.Interval.{skip_spaces, is_digit}
use cluster_deployer.Value.{Value, null, num, str, obj, Fields, end, field}
use cluster_deployer.Value.Access.{
  AccessError, wrong_type, bad_value, Access, get, items, values, keys,
}

pub data Port : Type 0 where
  no_port : Port
  number : ℕ → Port
  text : String → Port

abbrev pub port_of : Value → Access Port
port_of null = ok no_port
port_of (num n) = ok (number n)
port_of (str s) = ok (text s)
port_of _ = err wrong_type

-- The order of Python 2 is that of these keys from left to right.
abbrev pub key : Port → List ℕ
key no_port = 0 ∷ []
key (number n) = 1 ∷ n ∷ []
key (text s) = 2 ∷ codes s

abbrev pub before : List ℕ → List ℕ → Bool
before [] [] = false
before [] (y ∷ ys) = true
before (x ∷ xs) [] = false
before (x ∷ xs) (y ∷ ys) = if ltb x y then true else x == y && before xs ys

-- A set as its list in order: the element is put in its place, unless it is there.
unfoldable pub insert_port : Port → List Port → List Port
insert_port p [] = p ∷ []
insert_port p (q ∷ qs) =
    let rest = insert_port p qs in
    if before (key p) (key q)
    then p ∷ q ∷ qs
    else if before (key q) (key p)
    then q ∷ rest
    else q ∷ qs

-- `sorted` of a set
unfoldable pub sorted_set : List Port → List Port
unfolding insert_port
sorted_set [] = []
sorted_set (p ∷ ps) = insert_port p (sorted_set ps)

-- The lists that a comprehension makes for the elements, one after the other.
unfoldable pub collect : {A B : Type 0} → (A → Access (List B)) → List A → Access (List B)
collect f [] = ok []
collect f (x ∷ xs) = do ys ← f x; zs ← collect f xs; ok (ys ++ zs)

abbrev pub one_port : String → Value → Access (List Port)
one_port k v = do w ← get k null v; p ← port_of w; ok (p ∷ [])

-- the ports of the locations of a host
abbrev pub host_ports : Value → Access (List Port)
host_ports host = do
  locations ← get "locations" empty host
  entries ← items locations
  collect (one_port "port") (values entries)

-- digits to the end, but for white space
unfoldable pub digits_to_end : ℕ → List ℕ → Option ℕ
unfolding skip_spaces
digits_to_end n [] = some n
digits_to_end n (c ∷ cs) =
    let rest = digits_to_end (n * 10 + (c - b'0')) cs in
    if is_digit c then rest else elim (skip_spaces (c ∷ cs)) [ [] ↦ some n | _ ↦ none ]

abbrev pub first_digit : List ℕ → Option ℕ
first_digit [] = none
first_digit (c ∷ cs) = if is_digit c then digits_to_end (c - b'0') cs else none

-- `int` on a text: a decimal number with white space round it. A sign or a suffix `L`, which no port
-- has, is an error here.
unfoldable pub int_of : String → Option ℕ
unfolding skip_spaces digits_to_end
int_of s = first_digit (skip_spaces (codes s))

-- `int(port) for port in upstreams`
abbrev pub upstream_port : String → Access (List Port)
upstream_port s = elim (int_of s) [ none ↦ err (bad_value s) | some n ↦ ok (number n ∷ []) ]

-- the three sets of `get_exposed_ports`, each as the list of what is put in
unfoldable pub ports_of_hosts : (proxy : Value) → Access (List Port)
unfolding get items collect
ports_of_hosts proxy = do
  hosts ← get "hosts" empty proxy
  entries ← items hosts
  collect host_ports (values entries)

unfoldable pub ports_of_listeners : (proxy : Value) → Access (List Port)
unfolding get items collect
ports_of_listeners proxy = do
  listeners ← get "listeners" empty proxy
  entries ← items listeners
  collect (one_port "upstream-port") (values entries)

unfoldable pub ports_of_upstreams : (proxy : Value) → Access (List Port)
unfolding get items collect int_of
ports_of_upstreams proxy = do
  upstreams ← get "upstreams" empty proxy
  entries ← items upstreams
  collect upstream_port (keys entries)

-- `get_exposed_ports`
unfoldable pub get_exposed_ports : Value → Access (List Port)
unfolding get ports_of_hosts ports_of_listeners ports_of_upstreams sorted_set
get_exposed_ports deployment = do
  proxy ← get "proxy" empty deployment
  of_hosts ← ports_of_hosts proxy
  of_listeners ← ports_of_listeners proxy
  of_upstreams ← ports_of_upstreams proxy
  ok (sorted_set (of_hosts ++ (of_listeners ++ of_upstreams)))
