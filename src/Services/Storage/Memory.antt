-- ===== src/Services/Storage/Memory.antt =====
-- A MongoDB of lists, whose documents are flat: a dotted name is a key. It has what MongoDB documents
-- of its filters and updates.
pub mod Tests
use cluster_deployer.Common.{
  ℕ, String, ◌≡◌, refl, Bool, true, false, not, ◌&&◌, Option, none, some, List, [], ◌∷◌, ◌++◌, map,
  str_eq, if◌then◌else◌, arith, eq_iff,
}
use cluster_deployer.Value.{Value, str, num, obj, Fields, end, field, get_field, set_field}
use cluster_deployer.Value.Laws.{get_field-set_field, get_field-set_field_self}
use cluster_deployer.Services.Storage.Collection.{
  MongoDb, Condition, is, is_in, not_in, Filter, Update, apart, all_apart, keep, change_first, has,
  mem, text_is, IsPlain,
}

abbrev test : Condition → Option Value → Bool
test (is (str s)) v = text_is (λ t. str_eq t s) v
test (is _) v = false
test (is_in ss) v = text_is (λ t. mem t ss) v
test (not_in ss) v = not (text_is (λ t. mem t ss) v)

abbrev passes : Filter → Fields → Bool
passes [] d = true
passes ((k, c) ∷ f) d = test c (get_field k d) && passes f d

abbrev apply_set : Update → Fields → Fields
apply_set [] d = d
apply_set ((k, v) ∷ u) d = set_field k v (apply_set u d)

abbrev without : List String → Fields → Fields
without ks end = end
without ks (field k v d) = if mem k ks then without ks d else field k v (without ks d)

abbrev only : List String → Fields → Fields
only ks end = end
only ks (field k v d) = if mem k ks then field k v (only ks d) else only ks d

pub apply_set-apart :
    (k j : String) (v : Value) (u : Update) (d : Fields)
    → apart j k ≡ true
    → get_field k (apply_set ((j, v) ∷ u) d) ≡ get_field k (apply_set u d)
apply_set-apart k j v u d h = rw get_field-set_field (ground arith)

abbrev pub list_db : MongoDb
list_db = record {
  Coll = List Fields;
  docs = λ c. c;
  at = get_field;
  matches = passes;
  set = apply_set;
  project = only;
  exclude = without;
  sort = λ k ds. ds;
  update_one = λ f u c. change_first (passes f) (apply_set u) c;
  update_many = λ f u c. map (λ d. if passes f d then apply_set u d else d) c;
  replace_one = λ f new upsert c.
      if has (passes f) c
      then change_first (passes f) (λ _. new) c
      else if upsert
      then c ++ new ∷ []
      else c;
  insert_one = λ d c. c ++ d ∷ [];
  find = λ f c. keep (passes f) c;
  matches-nil = λ d. refl;
  matches-is = λ k s f d h. refl;
  matches-in = λ k ss f d h. refl;
  matches-not_in = λ k ss f d h. refl;
  at-set_self = λ k v u d h. get_field-set_field_self k v (apply_set u d);
  at-set_apart = λ k j v u d h. apply_set-apart k j v u d h;
  set-nil = λ d. refl;
  docs-update_one = λ f u c. refl;
  docs-update_many = λ f u c. refl;
  docs-replace_one = λ f new upsert c. refl;
  docs-insert_one = λ d c. refl;
  find_lem = λ f c. refl;
  length-keep-sort = λ k q ds. refl;
}

abbrev pub document : (id name version state : String) → Fields
document id name version state = field "id" (str id) (
    field "cluster" (str "local") (
      field "deployment.name" (str name) (
        field "deployment.version" (str version)
          (field "state" (str state) (field "_expiry" (num 0) end)))))

abbrev pub old_and_new : List Fields
old_and_new = document "d1" "web" "v1" "PROMOTED" ∷ document "d2" "web" "v2" "STARTED" ∷ []
