-- ===== src/Engine/Default/Stays.antt =====
-- A resource that is due by the default message decision stays due.
use hyperfleet_sentinel.Base.{
  ℕ, ◌*◌, ◌≤◌, ◌<◌, ◌≡◌, ◌≢◌, refl, sym, ◌∙◌, Bool, true, false, ◌&&◌, ◌||◌, Option, none, some, ok,
  arith, Host, ℤ, pos, Time, second, All, if◌then◌else◌, ◌==◌,
}
use hyperfleet_sentinel.Cel.{Cel}
use hyperfleet_sentinel.Cel.Meaning.{Conversions, IsCel, eq_int, less_int, fits}
use hyperfleet_sentinel.Client.{Resource, Condition}
use hyperfleet_sentinel.Config.{default_message_decision}
use hyperfleet_sentinel.Engine.{DecisionEngine, evaluate, new_decision_engine}
use hyperfleet_sentinel.Engine.Maps.{Conditions}
use hyperfleet_sentinel.Engine.Default.{default_expressions}
use hyperfleet_sentinel.Engine.Default.Due.{last_reconciled, waited_for, due, is_due, in_range}
use hyperfleet_sentinel.Engine.Default.Laws.{year_10000, IsConversions}
use hyperfleet_sentinel.Engine.Default.Publishes.{evaluate-is_due}

waited_for_later :
    (delay : ℕ) (c : Condition) (now later : Time)
    → now ≤ later
    → waited_for delay c now ≡ true
    → waited_for delay c later ≡ true
waited_for_later delay c now later order h = ground (arith, h, order)

-- Tests that go on holding, in the shape of the decision.
either_later :
    (reconciled mismatched new stale stale' debounced debounced' : Bool)
    → (stale ≡ true → stale' ≡ true)
    → (debounced ≡ true → debounced' ≡ true)
    → (mismatched || (if reconciled then stale else new || debounced)) ≡ true
    → (mismatched || (if reconciled then stale' else new || debounced')) ≡ true
either_later reconciled true new stale stale' debounced debounced' f g h = refl
either_later true false new stale stale' debounced debounced' f g h = f h
either_later false false true stale stale' debounced debounced' f g h = refl
either_later false false false stale stale' debounced debounced' f g h = g h

right_holds : (a b : Bool) → (a && b) ≡ true → b ≡ true
right_holds true b h = h
right_holds false b h = cc

due_later :
    (generation : ℤ) (now later : Time) (c : Option Condition)
    → now ≤ later
    → in_range later c ≡ true
    → due generation now c ≡ true
    → due generation later c ≡ true
due_later generation now later none order near h = h
due_later generation now later (some c) order near h = rw near (
    either_later (c.status == "True") (less_int c.observed_generation generation)
      (eq_int generation (pos 1)) (waited_for (1800 * second) c now)
      (waited_for (1800 * second) c later) (waited_for (10 * second) c now)
      (waited_for (10 * second) c later) (waited_for_later (1800 * second) c now later order)
      (waited_for_later (10 * second) c now later order)
      (right_holds (fits now c.last_updated_time) _ h))

module _ (host : Host) (cel : Cel) (conversions : Conversions) where
  -- What the default message decision publishes at one time it publishes at every later time, as long
  -- as the resource stays as it is and the time since the update of its last condition of the type
  -- Reconciled fits an int64 of nanoseconds: an event that was not taken is made again. It is
  -- supposed that the engine is the one that is created from the default message decision, the
  -- library evaluates and converts as documented, the first time is not zero, and the conditions are
  -- of times before the year 10000.
  pub evaluate_later :
      IsCel cel conversions default_expressions
      → IsConversions host conversions
      → (e : DecisionEngine cel)
      → new_decision_engine host cel (some default_message_decision) ≡ ok e
      → (lookup lookup' : Conditions) → (r : Resource) → (now later : Time) → now ≢ 0
      → now ≤ later
      → All (λ c. c.last_updated_time < year_10000) r.status.conditions
      → in_range later (last_reconciled r.status.conditions none) ≡ true
      → (evaluate host cel (record e { conditions_lookup = lookup }) (some r) now).0.should_publish
        ≡ true
      → (evaluate host cel
          (record e { conditions_lookup = lookup' })
          (some r)
          later).0.should_publish
        ≡ true
  unfolding is_due
  evaluate_later laws converted e made lookup lookup' r now later started order early near h =
      let first =
        evaluate-is_due host cel conversions laws converted e made lookup r now started early in
      let again =
        evaluate-is_due host cel conversions laws converted e made lookup' r later
          (λ zero. started (omega (arith, zero, order))) early in
      again
      ∙ due_later r.generation now later (last_reconciled r.status.conditions none) order near
          (sym first ∙ h)
