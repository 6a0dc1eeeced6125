-- ===== src/Cel/Meaning.antt =====
-- What the language documents of its expressions: the values of their operators, and how a program
-- of the library relates to them.
use hyperfleet_sentinel.Base.{
  ◌-◌, ◌^◌, String, ◌≡◌, Bool, true, false, not, Option, none, some, List, Dict, lookup, Result, ok,
  err, ltb, leb, eqb, ◌==◌, if◌then◌else◌, Value, str, int64, bool, time, object, to_dict, ℤ, pos,
  negsuc, Time, Duration, In,
}
use hyperfleet_sentinel.Cel.{Cel, Env}
use hyperfleet_sentinel.Cel.Expr.{
  Op, either, both, equals, differs, greater, minus, Expr, text_literal, int_literal, name, select,
  call, negated, apply, show,
}

-- A value, an error, or a case that the decision does not reach and nothing is said of.
pub data Outcome (A : Type 0) : Type 0 where
  value : A → Outcome A
  error : Outcome A
  unspecified : Outcome A

-- A value of the language, durations included, which no variable holds.
pub data CelValue : Type 0 where
  plain : Value → CelValue
  span : Duration → CelValue

abbrev pub truth : Bool → Outcome CelValue
truth b = value (plain (bool b))

unfoldable pub eq_int : ℤ → ℤ → Bool
eq_int (pos a) (pos b) = eqb a b
eq_int (negsuc a) (negsuc b) = eqb a b
eq_int _ _ = false

unfoldable pub less_int : ℤ → ℤ → Bool
less_int (pos a) (pos b) = ltb a b
less_int (pos a) (negsuc b) = false
less_int (negsuc a) (pos b) = true
less_int (negsuc a) (negsuc b) = ltb b a

-- The difference of two times, an error where it does not fit an int64 of nanoseconds.
unfoldable pub fits : Time → Time → Bool
fits a b = if leb b a then ltb (a - b) (2 ^ 63) else leb (b - a) (2 ^ 63)

unfoldable pub difference : Time → Time → Duration
difference a b = if leb b a then pos (a - b) else negsuc (b - a - 1)

-- Logical operators absorb the error of one side if the other side decides.
abbrev conjunction : Outcome CelValue → Outcome CelValue → Outcome CelValue
conjunction (value (plain (bool true))) (value (plain (bool b))) = truth b
conjunction (value (plain (bool true))) error = error
conjunction (value (plain (bool false))) o = truth false
conjunction error (value (plain (bool b))) = if b then error else truth false
conjunction error error = error
conjunction _ _ = unspecified

abbrev disjunction : Outcome CelValue → Outcome CelValue → Outcome CelValue
disjunction (value (plain (bool true))) o = truth true
disjunction (value (plain (bool false))) (value (plain (bool b))) = truth b
disjunction (value (plain (bool false))) error = error
disjunction error (value (plain (bool b))) = if b then truth true else error
disjunction error error = error
disjunction _ _ = unspecified

abbrev same : CelValue → CelValue → Outcome Bool
same (plain (str a)) (plain (str b)) = value (a == b)
same (plain (int64 a)) (plain (int64 b)) = value (eq_int a b)
same _ _ = unspecified

abbrev above : CelValue → CelValue → Outcome CelValue
above (plain (int64 a)) (plain (int64 b)) = truth (less_int b a)
above (span a) (span b) = truth (less_int b a)
above _ _ = unspecified

abbrev difference_of : CelValue → CelValue → Outcome CelValue
difference_of (plain (time a)) (plain (time b)) =
    if fits a b then value (span (difference a b)) else error
difference_of _ _ = unspecified

abbrev verdict : (Bool → Bool) → Outcome Bool → Outcome CelValue
verdict f (value b) = truth (f b)
verdict f error = error
verdict f unspecified = unspecified

-- An operator that needs the values of both operands.
abbrev strict :
    (CelValue → CelValue → Outcome CelValue)
    → Outcome CelValue
    → Outcome CelValue
    → Outcome CelValue
strict f (value a) (value b) = f a b
strict f error (value b) = error
strict f (value a) error = error
strict f error error = error
strict f _ _ = unspecified

abbrev pub operate : Op → Outcome CelValue → Outcome CelValue → Outcome CelValue
operate both = conjunction
operate either = disjunction
operate equals = strict (λ a b. verdict (λ x. x) (same a b))
operate differs = strict (λ a b. verdict not (same a b))
operate greater = strict above
operate minus = strict difference_of

abbrev negation : Outcome CelValue → Outcome CelValue
negation (value (plain (bool b))) = truth (not b)
negation error = error
negation _ = unspecified

-- A key that is not there is an error.
abbrev found_value : Option Value → Outcome CelValue
found_value none = error
found_value (some v) = value (plain v)

abbrev member : String → Outcome CelValue → Outcome CelValue
member key (value (plain (object fs))) = found_value (lookup key (to_dict fs))
member key error = error
member key _ = unspecified

-- The conversions that the language documents from a text; none is an error.
pub record Conversions : Type 0 where
  pub timestamp : String → Option Time
  pub duration : String → Option Duration

abbrev time_value : Option Time → Outcome CelValue
time_value none = error
time_value (some t) = value (plain (time t))

abbrev span_value : Option Duration → Outcome CelValue
span_value none = error
span_value (some d) = value (span d)

abbrev bound : Option (Value → Value) → Value → Outcome CelValue
bound none v = unspecified
bound (some f) v = value (plain (f v))

module _ (conversions : Conversions) (bindings : Dict (Value → Value))
    (activation : Dict Value) where
  -- A function is a standard conversion or one that is bound to its name.
  abbrev invoke : String → Outcome CelValue → Outcome CelValue
  invoke f (value (plain (str s))) =
      if f == "timestamp"
      then time_value (conversions.timestamp s)
      else if f == "duration"
      then span_value (conversions.duration s)
      else bound (lookup f bindings) (str s)
  invoke f error = error
  invoke f _ = unspecified

  unfoldable pub denote : Expr → Outcome CelValue
  unfolding lookup
  denote (text_literal s) = value (plain (str s))
  denote (int_literal n) = value (plain (int64 (pos n)))
  denote (name x) = found_value (lookup x activation)
  denote (select a key) = member key (denote a)
  denote (call f a) = invoke f (denote a)
  denote (negated a) = negation (denote a)
  denote (apply op a b) = operate op (denote a) (denote b)

-- The outcome of an evaluation is as the meaning says, where it says anything.
abbrev pub Means : Outcome CelValue → Result String Value → Type 0
Means (value (plain v)) r = r ≡ ok v
Means error r = (e : String) × (r ≡ err e)
Means _ r = Unit

-- A program that is compiled from the text of one of the expressions evaluates as they mean.
pub record IsCel (cel : Cel) (conversions : Conversions) (expressions : List Expr) : Type 0 where
  pub means :
      (x : Expr) {env : Env} {ast : cel.Ast} {prg : cel.Program}
      → In x expressions
      → cel.compile env (show x) ≡ ok ast
      → cel.program env ast ≡ ok prg
      → (bindings : Dict (Value → Value)) → (activation : Dict Value)
      → Means (denote conversions bindings activation x) (cel.eval prg bindings activation)
