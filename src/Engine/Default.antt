-- ===== src/Engine/Default.antt =====
-- `DefaultMessageDecision` of internal/config/config.go, read as expressions of the CEL language: when
-- the engine that is created from it publishes.
pub mod Due
pub mod Run
pub mod Laws
pub mod Publishes
pub mod Stays
use hyperfleet_sentinel.Base.{
  ℕ, ◌+◌, ◌*◌, ◌==◌, String, ◌≡◌, refl, Bool, true, false, not, ◌&&◌, ◌||◌, Option, none, some,
  List, [], ◌∷◌, map, Time, ltb, if◌then◌else◌, second, pos, ℤ, decimal, arith,
}
use hyperfleet_sentinel.Cel.Expr.{
  Op, either, both, equals, differs, greater, minus, Expr, text_literal, int_literal, name, select,
  call, negated, apply, show,
}
use hyperfleet_sentinel.Cel.Meaning.{eq_int, less_int, fits}
use hyperfleet_sentinel.Client.{Resource, Condition}
use hyperfleet_sentinel.Config.{Param, default_message_decision}

abbrev reconciled_condition : Expr
reconciled_condition = call "condition" (text_literal "Reconciled")

-- `guard && has_ref_time && now - timestamp(ref_time) > duration(delay)`
abbrev waited : Expr → String → Expr
waited guard delay = apply both (apply both guard (name "has_ref_time")) (
    apply greater (apply minus (name "now") (call "timestamp" (name "ref_time")))
      (call "duration" (text_literal delay)))

-- The params' names and trees, in authored order, and the tree of the result.
abbrev pub default_params : List (String × Expr)
default_params =
    ("ref_time", select reconciled_condition "last_updated_time")
    ∷ ("is_reconciled", apply equals (select reconciled_condition "status") (text_literal "True"))
    ∷ ("has_ref_time", apply differs (name "ref_time") (text_literal ""))
    ∷ (
      "is_new_resource",
      apply both (negated (name "is_reconciled"))
          (apply equals (select (name "resource") "generation") (int_literal 1)),
    )
    ∷ (
      "generation_mismatch",
      apply greater (select (name "resource") "generation")
          (select reconciled_condition "observed_generation"),
    )
    ∷ ("reconciled_and_stale", waited (name "is_reconciled") "30m")
    ∷ ("not_reconciled_and_debounced", waited (negated (name "is_reconciled")) "10s")
    ∷ []

abbrev pub default_result : Expr
default_result =
    apply either
      (apply either (apply either (name "is_new_resource") (name "generation_mismatch"))
        (name "reconciled_and_stale"))
      (name "not_reconciled_and_debounced")

abbrev pub default_expressions : List Expr
default_expressions = default_result ∷ map (λ p. p.1) default_params

-- Trees of params: the names and the texts are those of the params.
abbrev pub AreTrees : List (String × Expr) → List Param → Type 0
AreTrees [] [] = Unit
AreTrees ((n, x) ∷ trees) (p ∷ params) = (p.name ≡ n) × (p.expr ≡ show x) × AreTrees trees params
AreTrees _ _ = ⊥

pub default_params-AreTrees : AreTrees default_params default_message_decision.params
unfolding show decimal
default_params-AreTrees = ground arith

pub show-default_result : default_message_decision.result ≡ show default_result
unfolding show decimal
show-default_result = refl
