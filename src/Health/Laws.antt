-- ===== src/Health/Laws.antt =====
-- When /readyz and /healthz answer what.
use hyperfleet_sentinel.Base.{
  ℕ, zero, suc, ◌-◌, ◌<◌, String, ◌≡◌, ◌↔◌, ◌⊎◌, inl, inr, refl, true, some, [], ◌∷◌, Dict, ◌==◌,
  eq_iff, arith, pos, Bool-cases, All, ap, none,
}
use hyperfleet_sentinel.Health.{
  CheckFunc, ReadinessChecker, healthz_handler, readyz_handler, run_checks, all_ok, check_result,
}

-- A check that answers no error, or an error with the text "ok".
abbrev pub Passes : String × CheckFunc → Type 0
Passes (name, fn) = (fn ≡ none) ⊎ (fn ≡ some "ok")

check_result-ok_iff :
    (name : String) (fn : CheckFunc) → (check_result fn ≡ "ok") ↔ Passes (name, fn)
check_result-ok_iff name none = (λ h. inl refl, λ h. refl)
check_result-ok_iff name (some e) = (λ h. inr (ap some h), elim [ inl h ↦ cc h | inr h ↦ cc h ])

all_ok_iff : (checks : Dict CheckFunc) → (all_ok (run_checks checks) ≡ true) ↔ All Passes checks
unfolding all_ok run_checks
all_ok_iff [] = (λ h. tt, λ h. refl)
all_ok_iff ((name, fn) ∷ checks) = elim (Bool-cases (check_result fn == "ok")) [
  | inl passes ↦ rw passes (
    λ h. (
      (check_result-ok_iff name fn).0 ((eq_iff (check_result fn) "ok").0 passes),
      (all_ok_iff checks).0 h,
    ),
    λ h. (all_ok_iff checks).1 h.1,
  )
  | inr fails ↦
      rw fails
        (λ h. cc, λ h. cc ((eq_iff (check_result fn) "ok").1 ((check_result-ok_iff name fn).1 h.0)))
]

-- /readyz answers 200 exactly when the service is ready and every registered check answers no
-- error, or an error whose text is "ok", and otherwise 503.
pub readyz_handler-ok_iff :
    (r : ReadinessChecker)
    → (((readyz_handler r).status_code ≡ 200) ↔ ((r.ready ≡ true) × All Passes r.checks))
      × (((readyz_handler r).status_code ≡ 200) ⊎ ((readyz_handler r).status_code ≡ 503))
unfolding readyz_handler
readyz_handler-ok_iff r = elim (Bool-cases r.ready) [
  | inl ready ↦ elim (Bool-cases (all_ok (run_checks r.checks))) [
    | inl fine ↦ rw (ready, fine) ((λ h. (refl, (all_ok_iff r.checks).0 fine), λ h. refl), inl refl)
    | inr fails ↦
        rw (ready, fails)
          ((λ h. absurd (omega (arith, h)), λ h. cc (fails, (all_ok_iff r.checks).1 h.1)), inr refl)
  ]
  | inr unready ↦ rw unready ((λ h. absurd (omega (arith, h)), λ h. cc (h.0)), inr refl)
]

-- For a threshold that is not negative, /healthz answers 503 exactly when the threshold is above
-- zero, a poll has succeeded, and it is longer ago than the threshold.
pub healthz_handler-stale_iff :
    (last_poll threshold now : ℕ)
    → ((healthz_handler (some last_poll) (pos threshold) now).status_code ≡ 503)
      ↔ ((0 < threshold) × (0 < last_poll) × (threshold < now - last_poll))
unfolding healthz_handler
healthz_handler-stale_iff last_poll zero now = ground arith
healthz_handler-stale_iff last_poll (suc threshold) now = ground arith
