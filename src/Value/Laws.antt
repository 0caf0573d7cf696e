-- ===== src/Value/Laws.antt =====
-- Reading an entry after writing one, and the uniqueness of keys.
use cluster_deployer.Common.{
  String, ◌≡◌, refl, ◌≢◌, some, arith, str_eq, eq_iff, eq_refl, if◌then◌else◌, str-cases, inl, inr,
  sym, subst,
}
use cluster_deployer.Value.{Value, Fields, end, field, get_field, set_field, IsDict, IsFields}

pub get_field-set_field :
    (k j : String) (v : Value) (fs : Fields)
    → get_field j (set_field k v fs) ≡ (if str_eq k j then some v else get_field j fs)
unfolding get_field set_field
get_field-set_field k j v end = refl
get_field-set_field k j v (field i w fs) =
    ground (arith, eq_iff k j, eq_iff i k, eq_iff i j, get_field-set_field k j v fs)

pub get_field-set_field_self :
    (k : String) (v : Value) (fs : Fields) → get_field k (set_field k v fs) ≡ some v
get_field-set_field_self k v fs = simp (get_field-set_field, eq_refl)

pub get_field-set_field_ne :
    (k j : String) (v : Value) (fs : Fields)
    → k ≢ j
    → get_field j (set_field k v fs) ≡ get_field j fs
get_field-set_field_ne k j v fs h = rw get_field-set_field (ground (arith, eq_iff k j))

pub set_field-IsFields :
    (k : String) (v : Value) (fs : Fields) → IsDict v → IsFields fs → IsFields (set_field k v fs)
unfolding set_field get_field
set_field-IsFields k v end hv h = (refl, hv, tt)
set_field-IsFields k v (field i w fs) hv (new, hw, h) = elim (str-cases i k) [
  | inl (e, p) ↦ rw e (new, hv, h)
  | inr (e, p) ↦ rw e (
    rw (get_field-set_field_ne k i v fs (λ q. p (sym q))) new,
    hw,
    set_field-IsFields k v fs hv h,
  )
]

-- Writing what is there already changes nothing.
pub set_field_same :
    (k : String) (v : Value) (fs : Fields) → get_field k fs ≡ some v → set_field k v fs ≡ fs
unfolding set_field get_field
set_field_same k v end h = cc
set_field_same k v (field i w fs) h = ground (arith, set_field_same k v fs)

-- A value that a dict holds is a dict, or holds none that is not.
pub get_field-IsDict :
    (k : String) {v : Value} (fs : Fields) → IsFields fs → get_field k fs ≡ some v → IsDict v
unfolding get_field
get_field-IsDict k end h e = cc
get_field-IsDict k {v} (field i w fs) (new, hw, h) e = elim (str-cases i k) [
  | inl (t, p) ↦ subst IsDict (ground arith) hw
  | inr (t, p) ↦ get_field-IsDict k fs h (ground arith)
]
