-- ===== src/Serve/Liveness.antt =====
-- cmd/sentinel/main.go: /healthz with the threshold that `runServe` gives it.
use hyperfleet_sentinel.Base.{
  ℕ, zero, suc, ◌-◌, ◌*◌, ◌^◌, ◌<◌, ◌≡◌, ◌≢◌, ◌↔◌, sym, ap, ◌∙◌, some, arith, Duration, pos, negsuc,
  is_positive, true,
}
use hyperfleet_sentinel.Config.{SentinelConfig}
use hyperfleet_sentinel.Config.Validation.{IsValid}
use hyperfleet_sentinel.Health.{healthz_handler}
use hyperfleet_sentinel.Health.Laws.{healthz_handler-stale_iff}
use hyperfleet_sentinel.Serve.{health_threshold}

health_threshold-pos : (n : ℕ) → 3 * n < 2 ^ 63 → health_threshold (pos n) ≡ pos (3 * n)
unfolding health_threshold
health_threshold-pos n small = ground arith

positive : (n : ℕ) → is_positive (pos n) ≡ true → is_positive (pos (3 * n)) ≡ true
positive n e = ground (arith, e)

healthz_handler-valid :
    (threshold : Duration) (last_poll now : ℕ)
    → is_positive threshold ≡ true
    → (healthz_handler (some last_poll) threshold now).status_code ≢ 500
unfolding healthz_handler
healthz_handler-valid (pos zero) last_poll now e = ground (arith, e)
healthz_handler-valid (pos (suc n)) last_poll now e = ground (arith, e)
healthz_handler-valid (negsuc n) last_poll now e = ground (arith, e)

-- With a configuration that has been validated, and a poll interval whose triple fits an int64,
-- /healthz never answers 500; it answers 503 exactly when a poll has succeeded and the last success
-- is more than three intervals ago.
pub healthz_handler-health_threshold :
    (cfg : SentinelConfig) (n last_poll now : ℕ)
    → IsValid cfg
    → cfg.poll_interval ≡ pos n
    → 3 * n < 2 ^ 63
    → let answer = healthz_handler (some last_poll) (health_threshold cfg.poll_interval) now in
      (answer.status_code ≢ 500)
      × ((answer.status_code ≡ 503) ↔ ((0 < last_poll) × (3 * n < now - last_poll)))
healthz_handler-health_threshold cfg n last_poll now valid e small =
    let above : is_positive (pos (3 * n)) ≡ true =
      positive n (sym (ap is_positive e) ∙ valid.polls) in
    let same : health_threshold cfg.poll_interval ≡ pos (3 * n) =
      ap health_threshold e ∙ health_threshold-pos n small in
    (
      healthz_handler-valid (health_threshold cfg.poll_interval) last_poll now (rw same above),
      rw same (grind (arith, healthz_handler-stale_iff last_poll (3 * n) now, above)),
    )
