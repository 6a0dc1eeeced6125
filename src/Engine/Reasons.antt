-- ===== src/Engine/Reasons.antt =====
-- The reason of a decision to publish.
use hyperfleet_sentinel.Base.{
  String, ◌≡◌, refl, true, false, Option, none, some, Dict, Result, ok, err, Host, Value, bool,
  Time, eqb, Bool-cases, inl, inr,
}
use hyperfleet_sentinel.Cel.{Cel}
use hyperfleet_sentinel.Client.{Resource}
use hyperfleet_sentinel.Engine.{
  matched_reason, DecisionEngine, decide, decide_result, with_params, run_engine, evaluate,
}

module _ (host : Host) (cel : Cel) where
  reason-decide :
      (out : Value)
      → (decide host out).should_publish ≡ true
      → (decide host out).reason ≡ matched_reason
  unfolding decide
  reason-decide (bool true) h = refl
  reason-decide (bool false) h = cc
  reason-decide _ h = cc

  reason-decide_result :
      (r : Result String Value)
      → (decide_result host r).should_publish ≡ true
      → (decide_result host r).reason ≡ matched_reason
  reason-decide_result (ok out) h = reason-decide out h
  reason-decide_result (err e) h = cc

  reason-with_params :
      (prog : cel.Program) (bindings : Dict (Value → Value)) (activation : Dict Value)
      (r : Result String (Dict Value))
      → (with_params host cel prog bindings activation r).should_publish ≡ true
      → (with_params host cel prog bindings activation r).reason ≡ matched_reason
  reason-with_params prog bindings activation (ok values) h = reason-decide_result _ h
  reason-with_params prog bindings activation (err e) h = cc

  reason-run_engine :
      (e : DecisionEngine cel) (r : Resource) (now : Time)
      → (run_engine host cel e r now).0.should_publish ≡ true
      → (run_engine host cel e r now).0.reason ≡ matched_reason
  unfolding run_engine
  reason-run_engine e r now h = reason-with_params e.result_prog _ _ _ h

  -- A decision to publish has the one reason of a match.
  pub reason-evaluate :
      (e : DecisionEngine cel) (o : Option Resource) (now : Time)
      → (evaluate host cel e o now).0.should_publish ≡ true
      → (evaluate host cel e o now).0.reason ≡ matched_reason
  unfolding evaluate
  reason-evaluate e none now h = cc
  reason-evaluate e (some r) now h = elim (Bool-cases (eqb now 0)) [
    | inl zero_time ↦ cc (rw zero_time at h)
    | inr given ↦ rw given (reason-run_engine e r now (rw given at h))
  ]
