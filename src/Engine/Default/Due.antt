-- ===== src/Engine/Default/Due.antt =====
-- When a resource is due, by the default message decision: its last condition of the type Reconciled,
-- its generation and the time.
use hyperfleet_sentinel.Base.{
  ◌+◌, ◌*◌, Bool, true, ◌||◌, ◌&&◌, Option, none, some, List, [], ◌∷◌, ◌==◌, if◌then◌else◌, ltb, ℤ,
  pos, Time, second, ℕ,
}
use hyperfleet_sentinel.Cel.Meaning.{eq_int, less_int, fits}
use hyperfleet_sentinel.Client.{Resource, Condition}

abbrev pub last_reconciled : List Condition → Option Condition → Option Condition
last_reconciled [] before = before
last_reconciled (c ∷ conditions) before =
    last_reconciled conditions (if c.type == "Reconciled" then some c else before)

-- The condition was updated more than so long ago.
abbrev pub waited_for : ℕ → Condition → Time → Bool
waited_for delay c now = ltb (c.last_updated_time + delay) now

-- A difference of times that does not fit is an error, with which no event is published.
abbrev pub due : ℤ → Time → Option Condition → Bool
due generation now none = less_int (pos 0) generation
due generation now (some c) =
    fits now c.last_updated_time
    && (less_int c.observed_generation generation
        || (if c.status == "True"
            then waited_for (1800 * second) c now
            else eq_int generation (pos 1) || waited_for (10 * second) c now))

unfoldable pub is_due : Resource → Time → Bool
is_due r now = due r.generation now (last_reconciled r.status.conditions none)

-- The time since the last update fits an int64 of nanoseconds.
abbrev pub in_range : Time → Option Condition → Bool
in_range now none = true
in_range now (some c) = fits now c.last_updated_time
