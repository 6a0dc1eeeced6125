-- ===== src/Engine/Creation.antt =====
-- Which configurations give an engine, and which engine: `NewDecisionEngine`.
use hyperfleet_sentinel.Base.{
  String, ◌≡◌, ◌↔◌, refl, sym, ap, ◌∙◌, Option, none, some, List, [], ◌∷◌, ok, map_err-eq-ok_iff,
  >>=-eq-ok, err≢ok, ok_inj, some_inj, Host,
}
use hyperfleet_sentinel.Cel.{Cel, Env}
use hyperfleet_sentinel.Config.{Param, MessageDecisionConfig}
use hyperfleet_sentinel.Config.Decision.{IsWellFormed, validate_decision-eq-ok_iff}
use hyperfleet_sentinel.Engine.{
  ParamEntry, DecisionEngine, engine_env, compile_param, compile_params, compile_result,
  create_engine, new_decision_engine,
}

module _ (cel : Cel) where
  open cel use {Program, new_env, compile, program}

  -- The program of an expression.
  abbrev pub IsProgramOf : Env → String → Program → Type 0
  IsProgramOf env expr prg =
      (ast : cel.Ast) × (compile env expr ≡ ok ast) × (program env ast ≡ ok prg)

  -- The entries are the params, in authored order, each with its name and its program.
  abbrev pub AreEntries : Env → List Param → List (ParamEntry cel) → Type 0
  AreEntries env [] [] = Unit
  AreEntries env (p ∷ params) (e ∷ entries) =
      (e.name ≡ p.name) × IsProgramOf env p.expr e.prog × AreEntries env params entries
  AreEntries env _ _ = ⊥

  pub record IsCreated (cfg : MessageDecisionConfig) (e : DecisionEngine cel) : Type 0 where
    pub well_formed : IsWellFormed cfg
    pub env : new_env (engine_env cfg.params) ≡ ok tt
    pub entries : AreEntries (engine_env cfg.params) cfg.params e.params
    pub result : IsProgramOf (engine_env cfg.params) cfg.result e.result_prog
    pub no_conditions : e.conditions_lookup ≡ []

module _ (host : Host) (cel : Cel) where
  open cel use {Program, new_env, compile, program}

  compile_param-eq-ok :
      (env : Env) (p : Param) (e : ParamEntry cel)
      → compile_param host cel env p ≡ ok e
      → (e.name ≡ p.name) × IsProgramOf cel env p.expr e.prog
  unfolding compile_param
  compile_param-eq-ok env p e h =
      let (ast, compiled, rest) = >>=-eq-ok _ _ h in
      let (prg, planned, same) = >>=-eq-ok _ _ rest in
      (
        ap (λ (x : ParamEntry cel). x.name) (sym (ok_inj same)),
        (
          ast,
          (map_err-eq-ok_iff _ _ ast).0 compiled,
          (map_err-eq-ok_iff _ _ _).0 planned
              ∙ ap (λ (x : ParamEntry cel). ok x.prog) (ok_inj same),
        ),
      )

  compile_params-eq-ok :
      (env : Env) (params : List Param) (entries : List (ParamEntry cel))
      → compile_params host cel env params ≡ ok entries
      → AreEntries cel env params entries
  unfolding compile_params
  compile_params-eq-ok env [] [] h = tt
  compile_params-eq-ok env [] (e ∷ entries) h = cc
  compile_params-eq-ok env (p ∷ params) entries h =
      let (e, first, rest) = >>=-eq-ok _ _ h in
      let (es, later, same) = >>=-eq-ok _ _ rest in
      let a = compile_param-eq-ok env p e first in
      let built : entries ≡ e ∷ es = sym (ok_inj same) in
      rw built (a.0, a.1, compile_params-eq-ok env params es later)

  compile_params_ok :
      (env : Env) (params : List Param) (entries : List (ParamEntry cel))
      → AreEntries cel env params entries
      → compile_params host cel env params ≡ ok entries
  unfolding compile_params compile_param
  compile_params_ok env [] [] h = refl
  compile_params_ok env [] (e ∷ entries) h = absurd h
  compile_params_ok env (p ∷ params) [] h = absurd h
  compile_params_ok env (p ∷ params) (e ∷ entries) (named, (ast, compiled, planned), later) =
      rw (compiled, planned, compile_params_ok env params entries later, sym named) refl

  compile_result_iff :
      (env : Env) (expr : String) (prg : Program)
      → (compile_result host cel env expr ≡ ok prg) ↔ IsProgramOf cel env expr prg
  unfolding compile_result
  compile_result_iff env expr prg = (
    λ h.
        let (ast, compiled, planned) = >>=-eq-ok _ _ h in
        (ast, (map_err-eq-ok_iff _ _ ast).0 compiled, (map_err-eq-ok_iff _ _ prg).0 planned),
    λ h. rw (h.1, h.2) refl,
  )

  create_engine_iff :
      (cfg : MessageDecisionConfig) (e : DecisionEngine cel)
      → (create_engine host cel cfg ≡ ok e) ↔ IsCreated cel cfg e
  unfolding create_engine
  create_engine_iff cfg e = (
    λ h.
        let (_, valid, h1) = >>=-eq-ok _ _ h in
        let (_, env, h2) = >>=-eq-ok _ _ h1 in
        let (params, compiled, h3) = >>=-eq-ok _ _ h2 in
        let (prg, planned, same) = >>=-eq-ok _ _ h3 in
        let built : e ≡ record { result_prog = prg; conditions_lookup = []; params = params } =
          sym (ok_inj same) in
        rw built (record {
          well_formed =
              (validate_decision-eq-ok_iff host cfg).0 ((map_err-eq-ok_iff _ _ tt).0 valid);
          env = (map_err-eq-ok_iff _ _ tt).0 env;
          entries = compile_params-eq-ok (engine_env cfg.params) cfg.params params compiled;
          result = (compile_result_iff (engine_env cfg.params) cfg.result prg).0 planned;
          no_conditions = refl;
        }),
    λ c.
        rw
          (
            (validate_decision-eq-ok_iff host cfg).1 c.well_formed,
            c.env,
            compile_params_ok (engine_env cfg.params) cfg.params e.params c.entries,
            c.result.1,
            c.result.2,
          )
          (ap (λ x. ok (record e { conditions_lookup = x })) (sym c.no_conditions)),
  )

  -- An engine is created exactly from a decision configuration that is well-formed, when the CEL
  -- environment of its params' names is created and every param's expression and the result's
  -- compile in it; the engine then has the params in authored order, each with its own program,
  -- the result's program, and no conditions.
  pub new_decision_engine-eq-ok_iff :
      (o : Option MessageDecisionConfig) (e : DecisionEngine cel)
      → (new_decision_engine host cel o ≡ ok e)
        ↔ ((cfg : MessageDecisionConfig) × (o ≡ some cfg) × IsCreated cel cfg e)
  unfolding new_decision_engine
  new_decision_engine-eq-ok_iff none e = (λ h. absurd (err≢ok h), λ h. cc (h.1))
  new_decision_engine-eq-ok_iff (some cfg) e = (
    λ h. (cfg, refl, (create_engine_iff cfg e).0 h),
    λ h. (create_engine_iff cfg e).1 (rw (some_inj h.1) h.2),
  )
