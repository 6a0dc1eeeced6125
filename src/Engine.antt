-- ===== src/Engine.antt =====
-- internal/engine/decision.go: the decision whether an event is published for a resource.
pub mod Maps
pub mod Reasons
pub mod Lookup
pub mod Creation
pub mod Laws
pub mod Default
use hyperfleet_sentinel.Base.{of_dict}
use hyperfleet_sentinel.Base.{
  String, ◌≡◌, Bool, true, false, Option, none, some, List, [], ◌∷◌, ◌++◌, map, Dict, lookup,
  insert, merge, Result, ok, err, map_err, ◌>>=◌, ◌>>◌, if◌then◌else◌, ◌+++◌, Host, Value, str,
  bool, time, object, Time, eqb,
}
use hyperfleet_sentinel.Cel.{Cel, Env}
use hyperfleet_sentinel.Client.{Resource}
use hyperfleet_sentinel.Config.{Param, MessageDecisionConfig}
use hyperfleet_sentinel.Config.Decision.{validate_decision}
use hyperfleet_sentinel.Engine.Maps.{
  Conditions, build_conditions_lookup, resource_to_map, condition_binding,
}

pub record Decision : Type 0 where
  pub reason : String
  pub should_publish : Bool

abbrev skip : String → Decision
skip reason = record { reason = reason; should_publish = false }

-- "message decision matched", the one reason that comes with an event.
abbrev pub matched_reason : String
matched_reason = "message decision matched"

abbrev pub condition_bindings : Conditions → Dict (Value → Value)
condition_bindings conditions = ("condition", condition_binding conditions) ∷ []

module _ (host : Host) where
  abbrev pub base_activation : Resource → Time → Dict Value
  base_activation resource now =
      ("resource", object (of_dict (resource_to_map host resource))) ∷ ("now", time now) ∷ []

  -- `out.Value().(bool)`
  decide : Value → Decision
  decide (bool true) = record { reason = matched_reason; should_publish = true }
  decide (bool false) = skip "message decision result is false"
  decide out = skip ("result expression did not return bool, got " +++ host.type_name out)

  abbrev decide_result : Result String Value → Decision
  decide_result (err e) = skip ("result evaluation failed: " +++ e)
  decide_result (ok out) = decide out

module _ (cel : Cel) where
  open cel use {Program}

  pub record ParamEntry : Type 0 where
    pub prog : Program
    pub name : String

  pub record DecisionEngine : Type 0 where
    pub result_prog : Program
    pub conditions_lookup : Conditions
    pub params : List ParamEntry

-- The variables and the function that the environment declares.
abbrev pub engine_env : List Param → Env
engine_env params = record {
  variables = "resource" ∷ "now" ∷ map (λ p. p.name) params;
  functions = "condition" ∷ [];
}

module _ (host : Host) (cel : Cel) where
  open cel use {Program, new_env, compile, program, eval}

  compile_param : Env → Param → Result String (ParamEntry cel)
  compile_param env p = do
    ast ←
        map_err
          (λ e.
            "failed to compile param "
            +++ host.quote p.name
            +++ " expression "
            +++ host.quote p.expr
            +++ ": "
            +++ e)
          (compile env p.expr)
    prg ←
        map_err (λ e. "failed to create program for param " +++ host.quote p.name +++ ": " +++ e)
          (program env ast)
    ok (record { prog = prg; name = p.name })

  compile_params : Env → List Param → Result String (List (ParamEntry cel))
  unfolding compile_param
  compile_params env [] = ok []
  compile_params env (p ∷ params) = do
    entry ← compile_param env p
    entries ← compile_params env params
    ok (entry ∷ entries)

  compile_result : Env → String → Result String Program
  compile_result env expr = do
    ast ←
        map_err (λ e. "failed to compile result expression " +++ host.quote expr +++ ": " +++ e)
          (compile env expr)
    map_err (λ e. "failed to create result program: " +++ e) (program env ast)

  create_engine : MessageDecisionConfig → Result String (DecisionEngine cel)
  unfolding compile_params compile_result
  create_engine cfg = do
    map_err (λ e. "invalid message_decision config: " +++ e) (validate_decision host cfg)
    let env = engine_env cfg.params
    map_err (λ e. "failed to create CEL environment: " +++ e) (new_env env)
    params ← compile_params env cfg.params
    result_prg ← compile_result env cfg.result
    ok (record { result_prog = result_prg; conditions_lookup = []; params = params })

  unfoldable pub new_decision_engine :
      Option MessageDecisionConfig → Result String (DecisionEngine cel)
  unfolding create_engine
  new_decision_engine none = err "message_decision config is required"
  new_decision_engine (some cfg) = create_engine cfg

  -- The params, in authored order, each on the activation with the values of those before it.
  pub eval_params :
      Dict (Value → Value)
      → Dict Value
      → Dict Value
      → List (ParamEntry cel)
      → Result String (Dict Value)
  eval_params bindings activation param_values [] = ok param_values
  eval_params bindings activation param_values (p ∷ params) = do
    out ←
        map_err (λ e. "param " +++ host.quote p.name +++ " evaluation failed: " +++ e)
          (eval p.prog bindings (merge activation param_values))
    eval_params bindings activation (insert p.name out param_values) params

  abbrev with_params :
      Program → Dict (Value → Value) → Dict Value → Result String (Dict Value) → Decision
  with_params result_prog bindings activation (err reason) = skip reason
  with_params result_prog bindings activation (ok param_values) =
      decide_result host (eval result_prog bindings (merge activation param_values))

  -- Evaluate on a resource and a time that is not zero: the lookup is updated first, and the
  -- binding of condition() reads it.
  run_engine : (DecisionEngine cel) → Resource → Time → Decision × (DecisionEngine cel)
  unfolding eval_params decide
  run_engine e resource now =
      let e' : (DecisionEngine cel) = record e {
        conditions_lookup = build_conditions_lookup host resource.status.conditions;
      } in
      let bindings = condition_bindings e'.conditions_lookup in
      let activation = base_activation host resource now in
      (
        with_params e'.result_prog bindings activation
            (eval_params bindings activation [] e'.params),
        e',
      )

  unfoldable pub evaluate :
      (DecisionEngine cel) → Option Resource → Time → Decision × (DecisionEngine cel)
  unfolding run_engine
  evaluate e none now = (skip "resource is nil", e)
  evaluate e (some resource) now =
      if eqb now 0 then (skip "now time is zero", e) else run_engine e resource now
