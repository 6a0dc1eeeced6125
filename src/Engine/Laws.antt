-- ===== src/Engine/Laws.antt =====
-- When `Evaluate` decides to publish.
use hyperfleet_sentinel.Base.{
  String, ◌≡◌, ◌≢◌, ◌↔◌, refl, ap, true, false, Option, none, some, List, [], ◌∷◌, Dict, insert,
  merge, Result, ok, err, map_err-eq-ok_iff, >>=-eq-ok, arith, Host, Value, bool, Time, eqb, ok_inj,
  some_inj, Bool-cases, inl, inr,
}
use hyperfleet_sentinel.Cel.{Cel}
use hyperfleet_sentinel.Client.{Resource}
use hyperfleet_sentinel.Engine.Maps.{Conditions, build_conditions_lookup}
use hyperfleet_sentinel.Engine.{
  ParamEntry, DecisionEngine, eval_params, decide, with_params, decide_result, condition_bindings,
  base_activation, run_engine, evaluate,
}

module _ (cel : Cel) (bindings : Dict (Value → Value)) (activation : Dict Value) where
  open cel use {eval}

  -- The params evaluate, in order, from some values to others: each sees the activation and the
  -- values before it, and adds its own under its name.
  pub data Evaluates : Dict Value → List (ParamEntry cel) → Dict Value → Type 0 where
    done : {values : Dict Value} → Evaluates values [] values
    next :
        {values final : Dict Value} {p : ParamEntry cel} {params : List (ParamEntry cel)}
        (out : Value)
        → eval p.prog bindings (merge activation values) ≡ ok out
        → Evaluates (insert p.name out values) params final
        → Evaluates values (p ∷ params) final

module _ (host : Host) (cel : Cel) where
  open cel use {eval}

  eval_params_sound :
      (bindings : Dict (Value → Value)) (activation values final : Dict Value)
      (params : List (ParamEntry cel))
      → eval_params host cel bindings activation values params ≡ ok final
      → Evaluates cel bindings activation values params final
  unfolding eval_params
  eval_params_sound bindings activation values final [] h = rw (ok_inj h) (Evaluates.done)
  eval_params_sound bindings activation values final (p ∷ params) h =
      let (out, evaluated, rest) = >>=-eq-ok _ _ h in
      Evaluates.next out ((map_err-eq-ok_iff _ _ out).0 evaluated)
        (eval_params_sound bindings activation (insert p.name out values) final params rest)

  eval_params_complete :
      (bindings : Dict (Value → Value)) (activation : Dict Value) {values final : Dict Value}
      {params : List (ParamEntry cel)}
      → Evaluates cel bindings activation values params final
      → eval_params host cel bindings activation values params ≡ ok final
  unfolding eval_params
  eval_params_complete bindings activation Evaluates.done = refl
  eval_params_complete bindings activation (Evaluates.next out evaluated rest) =
      rw evaluated (eval_params_complete bindings activation rest)

  decide-matched : (out : Value) → (decide host out).should_publish ≡ true → out ≡ bool true
  unfolding decide
  decide-matched (bool true) h = refl
  decide-matched (bool false) h = cc
  decide-matched _ h = cc

  -- The result program evaluates to true on the values of the params.
  pub record Matches (e : DecisionEngine cel) (r : Resource) (now : Time) : Type 0 where
    pub values : Dict Value
    pub evaluates :
        Evaluates cel
          (condition_bindings (build_conditions_lookup host r.status.conditions))
          (base_activation host r now)
          []
          e.params
          values
    pub result :
        eval e.result_prog
          (condition_bindings (build_conditions_lookup host r.status.conditions))
          (merge (base_activation host r now) values)
        ≡ ok (bool true)

  decide_result-matched :
      (r : Result String Value) → (decide_result host r).should_publish ≡ true → r ≡ ok (bool true)
  decide_result-matched (ok out) h = ap ok (decide-matched out h)
  decide_result-matched (err e) h = cc

  with_params-matched :
      (prog : cel.Program) (bindings : Dict (Value → Value)) (activation : Dict Value)
      (r : Result String (Dict Value))
      → (with_params host cel prog bindings activation r).should_publish ≡ true
      → (values : Dict Value) × (r ≡ ok values)
        × (eval prog bindings (merge activation values) ≡ ok (bool true))
  with_params-matched prog bindings activation (ok values) h =
      (values, refl, decide_result-matched _ h)
  with_params-matched prog bindings activation (err e) h = cc

  run_engine_iff :
      (e : DecisionEngine cel) (r : Resource) (now : Time)
      → ((run_engine host cel e r now).0.should_publish ≡ true) ↔ Matches e r now
  unfolding run_engine
  run_engine_iff e r now =
      let bindings = condition_bindings (build_conditions_lookup host r.status.conditions) in
      let activation = base_activation host r now in
      (
        λ h.
            let (values, evaluated, result) =
              with_params-matched e.result_prog bindings activation _ h in
            record {
              values = values;
              evaluates = eval_params_sound bindings activation [] values e.params evaluated;
              result = result;
            },
        λ m.
            rw (eval_params_complete bindings activation m.evaluates, m.result)
              (unfold decide in refl),
      )

  -- `Evaluate` publishes exactly when there is a resource, the time is not zero, every param
  -- evaluates in authored order on the resource, the time and the params before it, and the
  -- result evaluates to true on all of them; `condition()` then reads this resource's conditions.
  pub evaluate-publishes_iff :
      (e : DecisionEngine cel) (o : Option Resource) (now : Time)
      → ((evaluate host cel e o now).0.should_publish ≡ true)
        ↔ ((r : Resource) × (o ≡ some r) × (now ≢ 0) × Matches e r now)
  unfolding evaluate
  evaluate-publishes_iff e none now = (λ h. cc, λ h. cc (h.1))
  evaluate-publishes_iff e (some r) now = elim (Bool-cases (eqb now 0)) [
    | inl zero_time ↦ rw zero_time (λ h. cc, λ h. absurd (h.2 (ground arith)))
    | inr given ↦ rw given (
      λ h. (r, refl, ground arith, (run_engine_iff e r now).0 h),
      λ h. (run_engine_iff e r now).1 (rw (some_inj h.1) h.3),
    )
  ]

  -- Whatever conditions an earlier evaluation left behind, the decision is the same.
  pub evaluate-forgets :
      (e : DecisionEngine cel) (stale : Conditions) (o : Option Resource) (now : Time)
      → (evaluate host cel (record e { conditions_lookup = stale }) o now).0
        ≡ (evaluate host cel e o now).0
  unfolding evaluate
  evaluate-forgets e stale none now = refl
  evaluate-forgets e stale (some r) now = ground arith

  -- An evaluation changes nothing in the engine but the conditions.
  pub engine-evaluate :
      (e : DecisionEngine cel) (o : Option Resource) (now : Time)
      → (x : Conditions) × ((evaluate host cel e o now).1 ≡ record e { conditions_lookup = x })
  unfolding evaluate
  engine-evaluate e none now = (e.conditions_lookup, refl)
  engine-evaluate e (some r) now = elim (Bool-cases (eqb now 0)) [
    | inl zero_time ↦ (e.conditions_lookup, rw zero_time)
    | inr given ↦ (build_conditions_lookup host r.status.conditions, rw given)
  ]
