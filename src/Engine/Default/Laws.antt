-- ===== src/Engine/Default/Laws.antt =====
-- The engine of the default message decision publishes for what is due.
use hyperfleet_sentinel.Base.{
  ℕ, ◌+◌, ◌*◌, ◌<◌, ◌≡◌, ◌≢◌, refl, Bool, true, false, ◌||◌, Option, none, some, List, [], ◌∷◌,
  Dict, merge, insert, lookup, ◌==◌, eq_iff, if◌then◌else◌, ltb, Host, Value, str, object, Fields,
  ℤ, pos, negsuc, Time, second, Bool-cases, inl, inr, arith,
}
use hyperfleet_sentinel.Cel.Expr.{either}
use hyperfleet_sentinel.Cel.Meaning.{
  Outcome, value, error, unspecified, CelValue, truth, Conversions, denote, eq_int, less_int, fits,
  difference, operate,
}
use hyperfleet_sentinel.Client.{Resource, Condition}
use hyperfleet_sentinel.Engine.{base_activation}
use hyperfleet_sentinel.Engine.Maps.{zero_condition, condition_to_map, resource_to_map}
use hyperfleet_sentinel.Engine.Lookup.{last_condition}
use hyperfleet_sentinel.Engine.Default.{default_params, default_result}
use hyperfleet_sentinel.Engine.Default.Due.{last_reconciled, due}
use hyperfleet_sentinel.Engine.Default.Run.{run_params}

abbrev pub year_10000 : Time
year_10000 = 315_537_897_600 * second

-- The texts of times and the delays are converted as documented: a time's text is not empty, and of a
-- time before the year 10000 it is converted back to it.
pub record IsConversions (host : Host) (conversions : Conversions) : Type 0 where
  pub format_given : (t : Time) → host.format_time t ≢ ""
  pub timestamp : (t : Time) → t < year_10000 → conversions.timestamp (host.format_time t) ≡ some t
  pub minutes : conversions.duration "30m" ≡ some (pos (1800 * second))
  pub seconds : conversions.duration "10s" ≡ some (pos (10 * second))

-- The outcome of the whole decision, by the meaning of its trees.
abbrev pub with_values : Outcome (Dict Value) → (Dict Value → Outcome CelValue) → Outcome CelValue
with_values (value values) k = k values
with_values error k = error
with_values unspecified k = unspecified

module _ (conversions : Conversions) (bindings : Dict (Value → Value))
    (activation : Dict Value) where
  abbrev pub decided : Outcome CelValue
  decided =
      with_values (run_params conversions bindings activation [] default_params)
        (λ values. denote conversions bindings (merge activation values) default_result)

-- The result's disjunction, of a resource that is reconciled, and of one that is not.
either_stale :
    (mismatched stale : Bool)
    → operate either
        (operate either (operate either (truth false) (truth mismatched)) (truth stale))
        (truth false)
      ≡ truth (mismatched || stale)
either_stale true stale = refl
either_stale false true = refl
either_stale false false = refl

either_debounced :
    (new mismatched debounced : Bool)
    → operate either
        (operate either (operate either (truth new) (truth mismatched)) (truth false))
        (truth debounced)
      ≡ truth (mismatched || (new || debounced))
either_debounced true true debounced = refl
either_debounced true false debounced = refl
either_debounced false true debounced = refl
either_debounced false false true = refl
either_debounced false false false = refl

less_int-difference : (d now t : ℕ) → less_int (pos d) (difference now t) ≡ ltb (t + d) now
unfolding less_int difference
less_int-difference d now t = ground arith

less_int-one : (g : ℤ) → eq_int g (pos 1) ≡ true → less_int (pos 0) g ≡ true
unfolding eq_int less_int
less_int-one (pos n) h = ground (arith, h)
less_int-one (negsuc n) h = absurd (cc h)

module _ (host : Host) where
  abbrev pub fields_of : Option Condition → Fields
  fields_of none = zero_condition
  fields_of (some c) = condition_to_map host c

  pub last_condition-last_reconciled :
      (conditions : List Condition) (before : Option Condition)
      → last_condition host "Reconciled" conditions (fields_of before)
        ≡ fields_of (last_reconciled conditions before)
  last_condition-last_reconciled [] before = refl
  last_condition-last_reconciled (c ∷ conditions) before =
      elim (Bool-cases (c.type == "Reconciled")) [
        | inl same ↦ rw same (last_condition-last_reconciled conditions (some c))
        | inr other ↦ rw other (last_condition-last_reconciled conditions before)
      ]

  pub decided-none :
      (conversions : Conversions) (f : Value → Value) (r : Resource) (now : Time)
      → f (str "Reconciled") ≡ object zero_condition
      → decided conversions (("condition", f) ∷ []) (base_activation host r now)
        ≡ truth (due r.generation now none)
  unfolding run_params denote lookup merge insert resource_to_map
  decided-none conversions f r now e = elim (Bool-cases (eq_int r.generation (pos 1))) [
    | inl new ↦ rw (e, new, less_int-one r.generation new) refl
    | inr old ↦ elim (Bool-cases (less_int (pos 0) r.generation)) [
      | inl some_generation ↦ rw (e, old, some_generation) refl
      | inr no_generation ↦ rw (e, old, no_generation) refl
    ]
  ]

  pub decided-some :
      (conversions : Conversions) (f : Value → Value) (r : Resource) (now : Time) (c : Condition)
      → IsConversions host conversions
      → c.last_updated_time < year_10000
      → f (str "Reconciled") ≡ object (condition_to_map host c)
      → decided conversions (("condition", f) ∷ []) (base_activation host r now)
        ≡ (if fits now c.last_updated_time then truth (due r.generation now (some c)) else error)
  unfolding run_params denote lookup merge insert resource_to_map condition_to_map
  decided-some conversions f r now c laws early e =
      let given : (host.format_time c.last_updated_time == "") ≡ false = ground (
        arith,
        eq_iff (host.format_time c.last_updated_time) "",
        laws.format_given c.last_updated_time,
      ) in
      let parsed = laws.timestamp c.last_updated_time early in
      let older30 = less_int-difference (1800 * second) now c.last_updated_time in
      let older10 = less_int-difference (10 * second) now c.last_updated_time in
      elim (Bool-cases (fits now c.last_updated_time)) [
        | inr far ↦ elim (Bool-cases (c.status == "True")) [
          | inl reconciled ↦ rw (e, reconciled, given, parsed, laws.minutes, far) refl
          | inr other ↦ rw (e, other, given, parsed, laws.seconds, far) refl
        ]
        | inl near ↦ elim (Bool-cases (c.status == "True")) [
          | inl reconciled ↦
              rw (e, reconciled, given, parsed, laws.minutes, near, older30) (either_stale _ _)
          | inr other ↦
              rw (e, other, given, parsed, laws.seconds, near, older10) (either_debounced _ _ _)
        ]
      ]
