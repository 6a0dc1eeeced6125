-- ===== src/Health.antt =====
-- internal/health/health.go: the readiness checker and the answers of /healthz and /readyz. What
-- a request meets outside, the answers of the check functions and the clock, is an argument.
pub mod Laws
use hyperfleet_sentinel.Base.{
  ℕ, ◌-◌, String, Bool, true, false, Option, none, some, List, [], ◌∷◌, Dict, insert, if◌then◌else◌,
  ltb, leb, eqb, ◌==◌, Time, Duration, ℤ, pos, negsuc, is_positive, ◌&&◌, not,
}

-- What a check function answers: no error, or the error's text.
abbrev pub CheckFunc : Type 0
CheckFunc = Option String

pub record ReadinessChecker : Type 0 where
  pub checks : Dict CheckFunc
  pub ready : Bool

-- `healthResponse` and `readyResponse`, with the status code that they are written with.
pub record HealthResponse : Type 0 where
  pub status_code : ℕ
  pub status : String

pub record ReadyResponse : Type 0 where
  pub status_code : ℕ
  pub checks : Dict String
  pub status : String

unfoldable pub new_readiness_checker : ReadinessChecker
new_readiness_checker = record { checks = []; ready = false }

unfoldable pub add_check : String → CheckFunc → ReadinessChecker → ReadinessChecker
add_check name fn r = record r { checks = insert name fn r.checks }

unfoldable pub set_ready : Bool → ReadinessChecker → ReadinessChecker
set_ready ready r = record r { ready = ready }

-- `staleness > threshold`, for a threshold above zero
abbrev exceeds : ℕ → Duration → Bool
exceeds staleness (pos threshold) = ltb threshold staleness
exceeds staleness (negsuc threshold) = true

-- The time of the last poll, if there is a function for it, and the time of the request. A time
-- of zero is `IsZero`. A negative staleness exceeds no threshold above zero, as 0 does not.
unfoldable pub healthz_handler : Option Time → Duration → Time → HealthResponse
healthz_handler none threshold now = record {
  status_code = 500;
  status = "invalid health configuration";
}
healthz_handler (some last_poll) threshold now =
    if not (is_positive threshold)
    then record { status_code = 500; status = "invalid health configuration" }
    else if eqb last_poll 0
    then record { status_code = 200; status = "ok" }
    else if exceeds (now - last_poll) threshold
    then record { status_code = 503; status = "poll stale" }
    else record { status_code = 200; status = "ok" }

abbrev check_result : CheckFunc → String
check_result none = "ok"
check_result (some e) = e

unfoldable pub run_checks : Dict CheckFunc → Dict String
run_checks [] = []
run_checks ((name, fn) ∷ checks) = (name, check_result fn) ∷ run_checks checks

unfoldable pub all_checks_status : String → Dict CheckFunc → Dict String
all_checks_status status [] = []
all_checks_status status ((name, fn) ∷ checks) = (name, status) ∷ all_checks_status status checks

unfoldable pub all_ok : Dict String → Bool
all_ok [] = true
all_ok ((name, v) ∷ checks) = if v == "ok" then all_ok checks else false

unfoldable pub readyz_handler : ReadinessChecker → ReadyResponse
unfolding run_checks all_checks_status all_ok
readyz_handler r =
    if not r.ready
    then record {
      status_code = 503;
      status = "error";
      checks = all_checks_status "unavailable" r.checks;
    }
    else (let checks = run_checks r.checks in
        if all_ok checks
        then record { status_code = 200; status = "ok"; checks = checks }
        else record { status_code = 503; status = "error"; checks = checks })
