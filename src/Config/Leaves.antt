-- ===== src/Config/Leaves.antt =====
-- `validateMessageDataLeaves`.
use hyperfleet_sentinel.Base.{
  String, ◌≡◌, ◌≢◌, ◌↔◌, refl, List, [], ◌∷◌, Result, ok, err, arith, ◌==◌, eq_iff, if◌then◌else◌,
  ◌+++◌, Value, nil, str, object, Fields, end, field, ◌>>◌, >>-eq-ok_iff,
}

nil_leaf : String → String
nil_leaf full_key =
    full_key +++ ": nil value is not allowed; every leaf must be a non-empty CEL expression string "
    +++ "(was the field left blank in the config?)"

empty_leaf : String → String
empty_leaf full_key =
    full_key
    +++ ": empty CEL expression is not allowed; every leaf must be a non-empty CEL expression string"

unfoldable mutual
  unfolding nil_leaf empty_leaf

  pub validate_leaf : Value → String → Result String (Unit {0})
  validate_leaf nil full_key = err (nil_leaf full_key)
  validate_leaf (str val) full_key = if val == "" then err (empty_leaf full_key) else ok tt
  validate_leaf (object val) full_key = validate_message_data_leaves val full_key
  validate_leaf _ full_key = ok tt

  pub validate_message_data_leaves : Fields → String → Result String (Unit {0})
  validate_message_data_leaves end path = ok tt
  validate_message_data_leaves (field k v fs) path =
      validate_leaf v (path +++ "." +++ k) >> validate_message_data_leaves fs path

-- The values that the maps of a tree hold, each at its path of keys: leaves and inner maps.
pub data At : Fields → List String → Value → Type 0 where
  here : {k : String} {v : Value} {fs : Fields} → At (field k v fs) (k ∷ []) v
  inside :
      {k : String} {inner fs : Fields} {path : List String} {v : Value}
      → At inner path v
      → At (field k (object inner) fs) (k ∷ path) v
  later :
      {k : String} {w : Value} {fs : Fields} {path : List String} {v : Value}
      → At fs path v
      → At (field k w fs) path v

abbrev pub IsGiven : Value → Type 0
IsGiven nil = ⊥
IsGiven (str s) = s ≢ ""
IsGiven _ = Unit

leaf_ok : (v : Value) (key : String) → validate_leaf v key ≡ ok tt → IsGiven v
unfolding validate_leaf
leaf_ok nil key h = cc
leaf_ok (str s) key h = λ e. cc ((eq_iff s "").1 e)
leaf_ok _ key h = tt

leaves-IsGiven :
    {fs : Fields} {path : List String} {v : Value} (key : String)
    → At fs path v
    → validate_message_data_leaves fs key ≡ ok tt
    → IsGiven v
unfolding validate_message_data_leaves
leaves-IsGiven key (here {v}) h = leaf_ok v _ ((>>-eq-ok_iff _ _).0 h).0
leaves-IsGiven key (inside {k} a) h =
    leaves-IsGiven (key +++ "." +++ k) a ((>>-eq-ok_iff _ _).0 h).0
leaves-IsGiven key (later a) h = leaves-IsGiven key a ((>>-eq-ok_iff _ _).0 h).1

abbrev pub AllGiven : Fields → Type 0
AllGiven fs = (path : List String) (v : Value) → At fs path v → IsGiven v

mutual
  unfolding validate_leaf

  leaf_accepted :
      (v : Value) (key : String)
      → IsGiven v
      → ((inner : Fields) → v ≡ object inner → AllGiven inner)
      → validate_leaf v key ≡ ok tt
  leaf_accepted nil key h below = absurd h
  leaf_accepted (str s) key h below = ground (arith, eq_iff s "")
  leaf_accepted (object inner) key h below = leaves_accepted inner key (below inner refl)
  leaf_accepted _ key h below = refl

  leaves_accepted :
      (fs : Fields) (key : String) → AllGiven fs → validate_message_data_leaves fs key ≡ ok tt
  leaves_accepted end key all = refl
  leaves_accepted (field k v fs) key all = rw (
    leaf_accepted v (key +++ "." +++ k) (all (k ∷ []) v here)
        (λ inner e path w a. all (k ∷ path) w (rw e (inside a))),
    leaves_accepted fs key (λ path w a. all path w (later a)),
  )

-- The data is accepted exactly when no value in it, at any depth of nested maps, is nil or the
-- empty string. Numbers, booleans and lists are accepted.
pub validate_message_data_leaves-eq-ok_iff :
    (fs : Fields) (key : String) → (validate_message_data_leaves fs key ≡ ok tt) ↔ AllGiven fs
validate_message_data_leaves-eq-ok_iff fs key =
    (λ h path v a. leaves-IsGiven key a h, leaves_accepted fs key)
