-- ===== src/Services/Storage/Collection.antt =====
-- What deployer/services/storage/mongo.py relies on in MongoDB: collections of documents, filters,
-- `$set` updates. A document is the entries of a dict, and `at` reads it at a dotted name.
use Prim.Native.String.{◌++◌ as text_append}
use text.Mathlib.Text.{starts_with}
use cluster_deployer.Common.{
  String, ◌≡◌, Bool, true, false, not, ◌&&◌, ◌||◌, Option, none, some, List, [], ◌∷◌, ◌++◌, map,
  str_eq, if◌then◌else◌, length,
}
use cluster_deployer.Value.{Value, str, arr, Fields}

pub data Condition : Type 0 where
  is : Value → Condition
  is_in : List String → Condition
  not_in : List String → Condition

abbrev pub Filter : Type 0
Filter = List (String × Condition)

-- the fields of a `$set`
abbrev pub Update : Type 0
Update = List (String × Value)

-- Two dotted names of which neither leads to the other.
abbrev pub apart : String → String → Bool
apart j k =
    not (str_eq j k)
    && (not (starts_with j (text_append k ".")) && not (starts_with k (text_append j ".")))

abbrev pub all_apart : String → Update → Bool
all_apart k [] = true
all_apart k ((j, v) ∷ u) = apart j k && all_apart k u

abbrev pub mem : String → List String → Bool
mem s [] = false
mem s (t ∷ ts) = str_eq s t || mem s ts

-- the text at a field, tested
abbrev pub text_is : (String → Bool) → Option Value → Bool
text_is test (some (str s)) = test s
text_is test _ = false

-- A condition on a text compares an array by its elements; on any other field it is a plain test.
abbrev pub IsPlain : Option Value → Type 0
IsPlain (some (arr xs)) = ⊥
IsPlain _ = Unit

module _ {A : Type 0} (p : A → Bool) where
  abbrev pub keep : List A → List A
  keep [] = []
  keep (x ∷ xs) = let rest = keep xs in if p x then x ∷ rest else rest

  -- the first that fits is changed
  abbrev pub change_first : (A → A) → List A → List A
  change_first f [] = []
  change_first f (x ∷ xs) = let rest = change_first f xs in if p x then f x ∷ xs else x ∷ rest

  abbrev pub has : List A → Bool
  has [] = false
  has (x ∷ xs) = p x || has xs

  abbrev pub first : List A → Option A
  first [] = none
  first (x ∷ xs) = let rest = first xs in if p x then some x else rest

pub record MongoDb : Type 1 where
  pub Coll : Type 0
  pub docs : Coll → List Fields
  pub at : String → Fields → Option Value
  pub matches : Filter → Fields → Bool
  pub set : Update → Fields → Fields
  pub project : List String → Fields → Fields
  pub exclude : List String → Fields → Fields
  pub sort : String → List Fields → List Fields
  pub update_one : Filter → Update → Coll → Coll
  pub update_many : Filter → Update → Coll → Coll
  pub replace_one : Filter → Fields → (upsert : Bool) → Coll → Coll
  pub insert_one : Fields → Coll → Coll
  -- all the documents that match
  pub find : Filter → Coll → List Fields
  pub matches-nil : (d : Fields) → matches [] d ≡ true
  pub matches-is :
      (k s : String) (f : Filter) (d : Fields)
      → IsPlain (at k d)
      → matches ((k, is (str s)) ∷ f) d ≡ (text_is (λ t. str_eq t s) (at k d) && matches f d)
  pub matches-in :
      (k : String) (ss : List String) (f : Filter) (d : Fields)
      → IsPlain (at k d)
      → matches ((k, is_in ss) ∷ f) d ≡ (text_is (λ t. mem t ss) (at k d) && matches f d)
  pub matches-not_in :
      (k : String) (ss : List String) (f : Filter) (d : Fields)
      → IsPlain (at k d)
      → matches ((k, not_in ss) ∷ f) d ≡ (not (text_is (λ t. mem t ss) (at k d)) && matches f d)
  pub at-set_self :
      (k : String) (v : Value) (u : Update) (d : Fields)
      → all_apart k u ≡ true
      → at k (set ((k, v) ∷ u) d) ≡ some v
  pub at-set_apart :
      (k j : String) (v : Value) (u : Update) (d : Fields)
      → apart j k ≡ true
      → at k (set ((j, v) ∷ u) d) ≡ at k (set u d)
  pub set-nil : (d : Fields) → set [] d ≡ d
  pub docs-update_one :
      (f : Filter) (u : Update) (c : Coll)
      → docs (update_one f u c) ≡ change_first (matches f) (set u) (docs c)
  pub docs-update_many :
      (f : Filter) (u : Update) (c : Coll)
      → docs (update_many f u c) ≡ map (λ d. if matches f d then set u d else d) (docs c)
  pub docs-replace_one :
      (f : Filter) (new : Fields) (upsert : Bool) (c : Coll)
      → docs (replace_one f new upsert c) ≡ (
          if has (matches f) (docs c)
          then change_first (matches f) (λ _. new) (docs c)
          else if upsert
          then docs c ++ new ∷ []
          else docs c)
  pub docs-insert_one : (d : Fields) (c : Coll) → docs (insert_one d c) ≡ docs c ++ d ∷ []
  pub find_lem : (f : Filter) (c : Coll) → find f c ≡ keep (matches f) (docs c)
  -- a sort keeps every document as often as it was there
  pub length-keep-sort :
      (k : String) (q : Fields → Bool) (ds : List Fields)
      → length (keep q (sort k ds)) ≡ length (keep q ds)
