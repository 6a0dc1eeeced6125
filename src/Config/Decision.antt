-- ===== src/Config/Decision.antt =====
-- `MessageDecisionConfig.Validate`: the param names are collected in `seenNames`.
use hyperfleet_sentinel.Base.{
  String, ◌≡◌, ◌≢◌, ◌↔◌, refl, false, List, [], ◌∷◌, Result, ok, err, arith, ◌==◌, eq_iff,
  if◌then◌else◌, ◌+++◌, Host, All, Bool-cases, inl, inr, err≢ok,
}
use hyperfleet_sentinel.Config.{Param, MessageDecisionConfig, contains}

module _ (host : Host) where
  validate_params : List String → List Param → Result String (Unit {0})
  validate_params seen_names [] = ok tt
  validate_params seen_names (p ∷ params) =
      let rest = validate_params (p.name ∷ seen_names) params in
      if p.name == ""
      then err "param has empty name"
      else if p.expr == ""
      then err ("param " +++ host.quote p.name +++ " has empty expression")
      else if contains seen_names p.name
      then err ("param " +++ host.quote p.name +++ " is defined more than once")
      else rest

  unfoldable pub validate_decision : MessageDecisionConfig → Result String (Unit {0})
  unfolding validate_params contains
  validate_decision md =
      if md.result == "" then err "result expression is required" else validate_params [] md.params

abbrev pub IsFilled : Param → Type 0
IsFilled p = (p.name ≢ "") × (p.expr ≢ "")

-- No two params have one name.
abbrev pub Distinct : List Param → Type 0
Distinct [] = Unit
Distinct (p ∷ params) = All (λ q. p.name ≢ q.name) params × Distinct params

abbrev pub IsWellFormed : MessageDecisionConfig → Type 0
IsWellFormed md = (md.result ≢ "") × All IsFilled md.params × Distinct md.params

abbrev Unseen : List String → List Param → Type 0
Unseen seen params = All (λ p. contains seen p.name ≡ false) params

Unseen-nil : (params : List Param) → Unseen [] params
Unseen-nil [] = tt
Unseen-nil (p ∷ params) = (unfold contains in refl, Unseen-nil params)

contains-cons_iff :
    (v : String) (seen : List String) (k : String)
    → (contains (v ∷ seen) k ≡ false) ↔ ((v ≢ k) × (contains seen k ≡ false))
unfolding contains
contains-cons_iff v seen k = (λ h. ground (arith, eq_iff v k), λ h. ground (arith, eq_iff v k))

Unseen-cons_iff :
    (v : String) (seen : List String) (params : List Param)
    → Unseen (v ∷ seen) params ↔ (All (λ q. v ≢ q.name) params × Unseen seen params)
Unseen-cons_iff v seen [] = (λ _. (tt, tt), λ _. tt)
Unseen-cons_iff v seen (p ∷ params) =
    let here = contains-cons_iff v seen p.name in
    let there = Unseen-cons_iff v seen params in
    (
      λ h. let (a, b) = here.0 h.0 in let (c, d) = there.0 h.1 in ((a, c), (b, d)),
      λ h. (here.1 (h.0.0, h.1.0), there.1 (h.0.1, h.1.1)),
    )

module _ (host : Host) where
  validate_params-cons_iff :
      (seen : List String) (p : Param) (params : List Param)
      → (validate_params host seen (p ∷ params) ≡ ok tt) ↔ (
          IsFilled p
          × (contains seen p.name ≡ false)
          × (validate_params host (p.name ∷ seen) params ≡ ok tt))
  unfolding validate_params
  validate_params-cons_iff seen p params = (
    λ h. ground (arith, eq_iff p.name "", eq_iff p.expr ""),
    λ h. ground (arith, eq_iff p.name "", eq_iff p.expr ""),
  )

  validate_params_iff :
      (seen : List String) (params : List Param)
      → (validate_params host seen params ≡ ok tt)
        ↔ (All IsFilled params × Distinct params × Unseen seen params)
  validate_params_iff seen [] = (λ _. (tt, tt, tt), λ _. unfold validate_params in refl)
  validate_params_iff seen (p ∷ params) =
      let step = validate_params-cons_iff seen p params in
      let rest = validate_params_iff (p.name ∷ seen) params in
      let split = Unseen-cons_iff p.name seen params in
      (
        λ h.
            let (filled, unseen, later) = step.0 h in
            let (all_filled, distinct, fresh) = rest.0 later in
            let (apart, unseen_later) = split.0 fresh in
            ((filled, all_filled), (apart, distinct), (unseen, unseen_later)),
        λ h. step.1 (h.0.0, h.2.0, rest.1 (h.0.1, h.1.1, split.1 (h.1.0, h.2.1))),
      )

  -- The decision's configuration is accepted exactly when it has a result expression, every param
  -- has a name and an expression, and no two params have one name.
  pub validate_decision-eq-ok_iff :
      (md : MessageDecisionConfig) → (validate_decision host md ≡ ok tt) ↔ IsWellFormed md
  unfolding validate_decision
  validate_decision-eq-ok_iff md =
      let params = validate_params_iff [] md.params in
      elim (Bool-cases (md.result == "")) [
        | inl empty ↦ rw empty (λ h. absurd (err≢ok h), λ h. absurd (h.0 ((eq_iff _ _).0 empty)))
        | inr other ↦ rw other (
          λ h. let (a, b, _) = params.0 h in (λ e. cc ((eq_iff md.result "").1 e), a, b),
          λ h. params.1 (h.1, h.2, Unseen-nil md.params),
        )
      ]
