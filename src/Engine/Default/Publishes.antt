-- ===== src/Engine/Default/Publishes.antt =====
-- An event by the default message decision, of the engine that `NewDecisionEngine` creates from it.
use hyperfleet_sentinel.Base.{
  ◌<◌, String, ◌≡◌, ◌≢◌, refl, sym, ap, ◌∙◌, ◌⊎◌, Bool, true, false, ◌&&◌, Option, none, some, List,
  [], ◌∷◌, Dict, merge, Result, ok, ◌==◌, if◌then◌else◌, Host, Value, str, bool, object, Time,
  Bool-cases, map, subst, inl, inr, arith, All, some_inj, eqb, In,
}
use hyperfleet_sentinel.Cel.{Cel}
use hyperfleet_sentinel.Cel.Expr.{Expr}
use hyperfleet_sentinel.Cel.Meaning.{
  Outcome, value, error, unspecified, CelValue, plain, truth, Conversions, denote, IsCel, Means,
  fits,
}
use hyperfleet_sentinel.Client.{Resource, Condition}
use hyperfleet_sentinel.Config.{default_message_decision}
use hyperfleet_sentinel.Engine.{
  matched_reason, Decision, DecisionEngine, condition_bindings, base_activation, with_params,
  decide_result, decide, run_engine, evaluate, new_decision_engine,
}
use hyperfleet_sentinel.Engine.Creation.{IsCreated, new_decision_engine-eq-ok_iff}
use hyperfleet_sentinel.Engine.Maps.{Conditions, build_conditions_lookup, condition_binding}
use hyperfleet_sentinel.Engine.Lookup.{condition_binding-build_conditions_lookup}
use hyperfleet_sentinel.Engine.Default.{
  default_params, default_result, default_expressions, default_params-AreTrees, show-default_result,
}
use hyperfleet_sentinel.Engine.Default.Due.{last_reconciled, due, is_due, in_range}
use hyperfleet_sentinel.Engine.Default.Run.{run_params, MeansValues, eval_params-Means}
use hyperfleet_sentinel.Engine.Default.Laws.{
  year_10000, IsConversions, with_values, decided, fields_of, last_condition-last_reconciled,
  decided-none, decided-some,
}

trees_In :
    (trees : List (String × Expr)) (expressions : List Expr)
    → ((x : Expr) → In x (map (λ t. t.1) trees) → In x expressions)
    → All (λ t. In t.1 expressions) trees
trees_In [] expressions f = tt
trees_In (t ∷ trees) expressions f =
    (f t.1 (inl refl), trees_In trees expressions (λ x h. f x (inr h)))

-- The decision for a resource that is due, or is not, when the result is evaluated.
abbrev pub verdict_of : Bool → Decision
verdict_of true = record { reason = matched_reason; should_publish = true }
verdict_of false = record { reason = "message decision result is false"; should_publish = false }

verdict_of-should_publish : (b : Bool) → (verdict_of b).should_publish ≡ b
verdict_of-should_publish true = refl
verdict_of-should_publish false = refl

-- What an outcome says of the decision.
abbrev Publishes : Outcome CelValue → Decision → Type 0
Publishes (value (plain (bool b))) d = d ≡ verdict_of b
Publishes error d = d.should_publish ≡ false
Publishes _ d = Unit

abbrev pub IsEarly : Option Condition → Type 0
IsEarly none = Unit
IsEarly (some c) = c.last_updated_time < year_10000

last_reconciled-IsEarly :
    (conditions : List Condition) (before : Option Condition)
    → All (λ c. c.last_updated_time < year_10000) conditions
    → IsEarly before
    → IsEarly (last_reconciled conditions before)
last_reconciled-IsEarly [] before h b = b
last_reconciled-IsEarly (c ∷ conditions) before (early, h) b =
    elim (Bool-cases (c.type == "Reconciled")) [
      | inl same ↦ rw same (last_reconciled-IsEarly conditions (some c) h early)
      | inr other ↦ rw other (last_reconciled-IsEarly conditions before h b)
    ]

module _ (host : Host) where
  decide_result-Publishes :
      (o : Outcome CelValue) (r : Result String Value)
      → Means o r
      → Publishes o (decide_result host r)
  unfolding decide
  decide_result-Publishes (value (plain (bool true))) r m = rw m refl
  decide_result-Publishes (value (plain (bool false))) r m = rw m refl
  decide_result-Publishes error r (e, m) = rw m refl
  decide_result-Publishes _ r m = tt

module _ (host : Host) (cel : Cel) (prog : cel.Program) (bindings : Dict (Value → Value))
    (activation : Dict Value) where
  with_params-Publishes :
      (o : Outcome (Dict Value)) (k : Dict Value → Outcome CelValue)
      (r : Result String (Dict Value))
      → MeansValues o r
      → ((values : Dict Value)
          → Means (k values) (cel.eval prog bindings (merge activation values)))
      → Publishes (with_values o k) (with_params host cel prog bindings activation r)
  with_params-Publishes (value values) k r m means =
      rw m (decide_result-Publishes host (k values) _ (means values))
  with_params-Publishes error k r (e, m) means = rw m refl
  with_params-Publishes unspecified k r m means = tt

-- A decision that is settled by the condition, or by an error.
Publishes-if :
    (near verdict : Bool) (o : Outcome CelValue) (d : Decision)
    → o ≡ (if near then truth (near && verdict) else error)
    → Publishes o d
    → (d.should_publish ≡ (near && verdict)) × ((near ≡ false) ⊎ (d ≡ verdict_of (near && verdict)))
Publishes-if true verdict o d same p =
    let settled : d ≡ verdict_of verdict = subst (λ x. Publishes x d) same p in
    (
      ap (λ (x : Decision). x.should_publish) settled ∙ verdict_of-should_publish verdict,
      inr settled,
    )
Publishes-if false verdict o d same p = (subst (λ x. Publishes x d) same p, inl refl)

module _ (host : Host) (conversions : Conversions) where
  binding_is :
      (r : Resource) (c : Option Condition)
      → last_reconciled r.status.conditions none ≡ c
      → condition_binding (build_conditions_lookup host r.status.conditions) (str "Reconciled")
        ≡ object (fields_of host c)
  binding_is r c h =
      condition_binding-build_conditions_lookup host "Reconciled" r.status.conditions
      ∙ ap object
          (last_condition-last_reconciled host r.status.conditions none ∙ ap (fields_of host) h)

  Publishes-due :
      (r : Resource) (now : Time) (d : Decision) (c : Option Condition)
      → IsConversions host conversions
      → last_reconciled r.status.conditions none ≡ c
      → IsEarly c
      → Publishes
          (decided conversions
            (condition_bindings (build_conditions_lookup host r.status.conditions))
            (base_activation host r now))
          d
      → (d.should_publish ≡ due r.generation now c)
        × ((in_range now c ≡ false) ⊎ (d ≡ verdict_of (due r.generation now c)))
  Publishes-due r now d none laws same early h =
      Publishes-if true _ _ d (decided-none host conversions _ r now (binding_is r none same)) h
  Publishes-due r now d (some c) laws same early h =
      Publishes-if (fits now c.last_updated_time) _ _ d
        (decided-some host conversions _ r now c laws early (binding_is r (some c) same)) h

module _ (host : Host) (cel : Cel) (conversions : Conversions) where
  run_engine-Publishes :
      IsCel cel conversions default_expressions
      → (e : DecisionEngine cel) → (lookup : Conditions) → (r : Resource) → (now : Time)
      → IsCreated cel default_message_decision e
      → Publishes
          (decided conversions
            (condition_bindings (build_conditions_lookup host r.status.conditions))
            (base_activation host r now))
          (run_engine host cel (record e { conditions_lookup = lookup }) r now).0
  unfolding run_engine
  run_engine-Publishes laws e lookup r now made =
      let bindings = condition_bindings (build_conditions_lookup host r.status.conditions) in
      let activation = base_activation host r now in
      let (ast, compiled, planned) = made.result in
      with_params-Publishes host cel e.result_prog bindings activation
        (run_params conversions bindings activation [] default_params)
        (λ values. denote conversions bindings (merge activation values) default_result) _
        (eval_params-Means host laws bindings activation [] _ default_params
          default_message_decision.params e.params default_params-AreTrees
          (trees_In default_params default_expressions (λ x. inr)) made.entries)
        (λ values.
          laws.means default_result (inl refl) (rw (sym show-default_result) compiled) planned
            bindings (merge activation values))

  evaluate-settled :
      IsCel cel conversions default_expressions
      → IsConversions host conversions
      → (e : DecisionEngine cel)
      → new_decision_engine host cel (some default_message_decision) ≡ ok e
      → (lookup : Conditions) → (r : Resource) → (now : Time) → now ≢ 0
      → All (λ c. c.last_updated_time < year_10000) r.status.conditions
      → let d = (evaluate host cel (record e { conditions_lookup = lookup }) (some r) now).0 in
        (d.should_publish ≡ is_due r now)
        × ((in_range now (last_reconciled r.status.conditions none) ≡ false)
            ⊎ (d ≡ verdict_of (is_due r now)))
  unfolding evaluate is_due
  evaluate-settled laws converted e made lookup r now started early =
      let (cfg, same, created) =
        (new_decision_engine-eq-ok_iff host cel (some default_message_decision) e).0 made in
      let started' : eqb now 0 ≡ false = ground (arith, started) in
      rw started' (
        Publishes-due host conversions r now _ (last_reconciled r.status.conditions none) converted
          refl (last_reconciled-IsEarly r.status.conditions none early tt)
          (run_engine-Publishes laws e lookup r now (rw (some_inj same) created)))

  -- The engine that is created from the default message decision publishes, at a time that is not
  -- zero and after any earlier evaluations, exactly the resources that are due: without a condition
  -- of the type Reconciled, those of a generation above 0; with one, by the last, and if the time
  -- since its update fits an int64 of nanoseconds, those of a generation above the condition's
  -- observed generation, those that are reconciled and were updated more than 30 minutes ago, and
  -- those that are not reconciled and are of generation 1 or were updated more than 10 seconds ago.
  -- It is supposed that the library evaluates the decision's expressions as they mean, that it
  -- converts times and durations as documented, and that the conditions are of times before the
  -- year 10000.
  pub evaluate-is_due :
      IsCel cel conversions default_expressions
      → IsConversions host conversions
      → (e : DecisionEngine cel)
      → new_decision_engine host cel (some default_message_decision) ≡ ok e
      → (lookup : Conditions) → (r : Resource) → (now : Time) → now ≢ 0
      → All (λ c. c.last_updated_time < year_10000) r.status.conditions
      → (evaluate host cel (record e { conditions_lookup = lookup }) (some r) now).0.should_publish
        ≡ is_due r now
  evaluate-is_due laws converted e made lookup r now started early =
      (evaluate-settled laws converted e made lookup r now started early).0

  -- The result of the default message decision is a Boolean: the decision on a resource, at a time
  -- that is not zero, is "message decision matched" if it is due and "message decision result is
  -- false" if not, unless the time since the update of its last condition of the type Reconciled
  -- does not fit an int64 of nanoseconds. It is supposed that the library evaluates the decision's
  -- expressions as they mean, that it converts times and durations as documented, and that the
  -- conditions are of times before the year 10000.
  pub evaluate-verdict_of :
      IsCel cel conversions default_expressions
      → IsConversions host conversions
      → (e : DecisionEngine cel)
      → new_decision_engine host cel (some default_message_decision) ≡ ok e
      → (lookup : Conditions) → (r : Resource) → (now : Time) → now ≢ 0
      → All (λ c. c.last_updated_time < year_10000) r.status.conditions
      → in_range now (last_reconciled r.status.conditions none) ≡ true
      → (evaluate host cel (record e { conditions_lookup = lookup }) (some r) now).0
        ≡ verdict_of (is_due r now)
  evaluate-verdict_of laws converted e made lookup r now started early near =
      elim (evaluate-settled laws converted e made lookup r now started early).1 [
        | inl far ↦ absurd (cc (sym near ∙ far))
        | inr verdict ↦ verdict
      ]
