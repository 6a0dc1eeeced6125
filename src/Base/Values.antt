-- ===== src/Base/Values.antt =====
-- Go's `interface{}` values as the program passes them: YAML values, CEL variables and payloads.
-- A time is its nanoseconds since the zero `time.Time`, so 0 is the zero time. An `int32` or an
-- `int64` is the integer that it stands for, an `int` is an `int64`, as on the platforms that the
-- program is built for; a float is its bit pattern.
use Prim.Native.Nat.{ℕ, zero, suc}
use Prim.Native.String.{String}
use mathlib.Core.Bool.{Bool, true, false}
use mathlib.Core.List.{List, [], ◌∷◌}

-- `negsuc n` is -(n + 1).
pub data ℤ : Type 0 where
  pos : ℕ → ℤ
  negsuc : ℕ → ℤ

-- Nanoseconds, as `time.Duration`, which may be negative.
abbrev pub Duration : Type 0
Duration = ℤ

abbrev pub second : ℕ
second = 1_000_000_000

abbrev pub is_positive : ℤ → Bool
is_positive (pos zero) = false
is_positive (pos (suc n)) = true
is_positive (negsuc n) = false

-- The process's environment: a variable that is not set is the empty text, as `os.Getenv` has it.
abbrev pub Environment : Type 0
Environment = String → String

abbrev pub Time : Type 0
Time = ℕ

mutual
  pub data Value : Type 0 where
    nil : Value
    str : String → Value
    int32 : ℤ → Value
    int64 : ℤ → Value
    float64 : ℕ → Value
    bool : Bool → Value
    time : Time → Value
    items : Items → Value
    object : Fields → Value

  pub data Items : Type 0 where
    done : Items
    item : Value → Items → Items

  pub data Fields : Type 0 where
    end : Fields
    field : String → Value → Fields → Fields

abbrev pub to_dict : Fields → List (String × Value)
to_dict end = []
to_dict (field k v fs) = (k, v) ∷ to_dict fs

abbrev pub of_dict : List (String × Value) → Fields
of_dict [] = end
of_dict ((k, v) ∷ m) = field k v (of_dict m)

-- What the standard library supplies and no theorem computes with: `Time.Format(RFC3339Nano)`,
-- `Duration.String`, `strings.ToLower` (its Unicode tables), the quotes of `%q` and the type names
-- of `%T`.
pub record Host : Type 0 where
  pub format_time : Time → String
  pub format_duration : ℤ → String
  pub to_lower : String → String
  pub quote : String → String
  pub type_name : Value → String
