-- ===== src/Engine/Default/Run.antt =====
-- The params of a decision evaluated by the meaning of their trees, and the engine's own evaluation.
use hyperfleet_sentinel.Base.{
  String, ◌≡◌, refl, sym, ◌∙◌, List, [], ◌∷◌, Dict, insert, merge, Result, ok, err, Host, Value,
  All, In,
}
use hyperfleet_sentinel.Cel.{Cel, Env}
use hyperfleet_sentinel.Cel.Expr.{Expr}
use hyperfleet_sentinel.Cel.Meaning.{
  Outcome, value, error, unspecified, CelValue, plain, span, Conversions, denote, Means, IsCel,
}
use hyperfleet_sentinel.Config.{Param}
use hyperfleet_sentinel.Engine.{ParamEntry, eval_params}
use hyperfleet_sentinel.Engine.Creation.{AreEntries}
use hyperfleet_sentinel.Engine.Default.{AreTrees}

-- To go on with the value of a param, which no duration is.
abbrev pub with_value {ℓ} : {A : Type ℓ} → A → A → (Value → A) → Outcome CelValue → A
with_value failed unknown go (value (plain v)) = go v
with_value failed unknown go (value (span d)) = unknown
with_value failed unknown go error = failed
with_value failed unknown go unspecified = unknown

module _ (conversions : Conversions) (bindings : Dict (Value → Value))
    (activation : Dict Value) where
  unfoldable pub run_params : Dict Value → List (String × Expr) → Outcome (Dict Value)
  run_params values [] = value values
  run_params values ((name, x) ∷ trees) =
      with_value error unspecified (λ v. run_params (insert name v values) trees)
        (denote conversions bindings (merge activation values) x)

-- What the engine does is what the trees mean, where they mean anything.
abbrev pub MeansValues : Outcome (Dict Value) → Result String (Dict Value) → Type 0
MeansValues (value values) r = r ≡ ok values
MeansValues error r = (e : String) × (r ≡ err e)
MeansValues unspecified r = Unit

module _ (host : Host) {cel : Cel} {conversions : Conversions} {expressions : List Expr}
    (laws : IsCel cel conversions expressions) where
  step-Means :
      (bindings : Dict (Value → Value)) (activation values : Dict Value) (p : ParamEntry cel)
      (entries : List (ParamEntry cel)) (trees : List (String × Expr)) (o : Outcome CelValue)
      → Means o (cel.eval p.prog bindings (merge activation values))
      → ((v : Value)
          → MeansValues
              (run_params conversions bindings activation (insert p.name v values) trees)
              (eval_params host cel bindings activation (insert p.name v values) entries))
      → MeansValues
          (with_value error unspecified
            (λ v. run_params conversions bindings activation (insert p.name v values) trees)
            o)
          (eval_params host cel bindings activation values (p ∷ entries))
  unfolding eval_params
  step-Means bindings activation values p entries trees (value (plain v)) m rest = rw m (rest v)
  step-Means bindings activation values p entries trees (value (span d)) m rest = tt
  step-Means bindings activation values p entries trees error (e, m) rest = rw m (_, refl)
  step-Means bindings activation values p entries trees unspecified m rest = tt

  pub eval_params-Means :
      (bindings : Dict (Value → Value)) (activation values : Dict Value) (env : Env)
      (trees : List (String × Expr)) (params : List Param) (entries : List (ParamEntry cel))
      → AreTrees trees params
      → All (λ t. In t.1 expressions) trees
      → AreEntries cel env params entries
      → MeansValues
          (run_params conversions bindings activation values trees)
          (eval_params host cel bindings activation values entries)
  unfolding run_params
  eval_params-Means bindings activation values env [] [] [] t k h = unfold eval_params in refl
  eval_params-Means bindings activation values env ((n, x) ∷ trees) (p ∷ params) (e ∷ entries)
        (named, shown, t) (known, k) (same, (ast, compiled, planned), h) =
      let name_is : e.name ≡ n = same ∙ named in
      let step =
        step-Means bindings activation values e entries trees
          (denote conversions bindings (merge activation values) x)
          (laws.means x known (rw (sym shown) compiled) planned bindings (merge activation values))
          (λ v.
            eval_params-Means bindings activation (insert e.name v values) env trees params entries
              t k h) in
      rw (sym name_is) step
  eval_params-Means bindings activation values env [] [] (e ∷ entries) t k h = absurd h
  eval_params-Means bindings activation values env [] (p ∷ params) entries t k h = absurd t
  eval_params-Means bindings activation values env (tree ∷ trees) [] entries t k h = absurd t
  eval_params-Means bindings activation values env (tree ∷ trees) (p ∷ params) [] t k h = absurd h
