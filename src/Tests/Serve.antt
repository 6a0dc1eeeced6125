-- ===== src/Tests/Serve.antt =====
-- The theorems of the command, for a run that ends with the signal.
use hyperfleet_sentinel.Base.{
  String, ◌==◌, if◌then◌else◌, true, false, Bool, ◌≡◌, ◌≢◌, ◌↔◌, ◌⊎◌, ◌≤◌, ◌<◌, ◌-◌, ◌*◌, ◌+◌, refl,
  true, false, none, some, List, [], ◌∷◌, ok, pos, second, arith, Dict, ℕ, All, In,
}
use hyperfleet_sentinel.Config.Decision.{validate_decision}
use hyperfleet_sentinel.Config.Leaves.{validate_message_data_leaves}
use hyperfleet_sentinel.Config.Validation.{IsValid, validate}
use hyperfleet_sentinel.Config.Validation.Laws.{validate-eq-ok_iff}
use hyperfleet_sentinel.Health.{CheckFunc, healthz_handler, readyz_handler, set_ready}
use hyperfleet_sentinel.Serve.{Machine, health_threshold}
use hyperfleet_sentinel.Serve.Actions.{Action, cancel_context, close_publisher, shutdown_tracer}
use hyperfleet_sentinel.Serve.Liveness.{healthz_handler-health_threshold}
use hyperfleet_sentinel.Serve.Shutdown.{
  System, Step, Run, begin, answer, step, signal, withdraw, cancel, leave, close, leaving, waiting,
  cancelled, looping, exited,
}
use hyperfleet_sentinel.Serve.Shutdown.Laws.{
  readyz_handler-Run, shutdown-Finished, Finished, exit-BeforeServers,
}
use hyperfleet_sentinel.Metrics.{MetricCall}
use hyperfleet_sentinel.Metrics.Registry.{
  sentinel_metrics, registered, registerer_of, register_all, initial, Registries, Registration,
  new_sentinel_metrics,
}
use hyperfleet_sentinel.Metrics.Registry.Laws.{
  calls, IsDistinct, TakesAll, target, given_labels, new_sentinel_metrics-once,
}
use hyperfleet_sentinel.Tests.Data.{host, cel, api, config}
use hyperfleet_sentinel.Tests.Logger.{otel, getenv}

abbrev pub machine : Machine
machine = record {
  host = host;
  cel = cel;
  otel = otel;
  getenv = getenv;
  hostname = some "pod";
  trim_space = λ s. s;
  version = "dev";
  new_client = λ options. ok api;
  publisher = ok true;
  loop_error = none;
}

config-IsValid : IsValid config
unfolding validate hyperfleet_sentinel.Config.Decision.validate_decision
    hyperfleet_sentinel.Config.Leaves.validate_message_data_leaves
config-IsValid = (validate-eq-ok_iff host config).0 refl

healthz_handler-health_threshold_example :
    let answer = healthz_handler (some 1) (health_threshold (pos (5 * second))) (20 * second) in
    (answer.status_code ≢ 500)
    × ((answer.status_code ≡ 503) ↔ ((0 < 1) × (3 * (5 * second) < 20 * second - 1)))
healthz_handler-health_threshold_example =
    healthz_handler-health_threshold config (5 * second) 1 (20 * second) config-IsValid refl
      (omega arith)

abbrev closers : List Action
closers = cancel_context ∷ close_publisher ∷ shutdown_tracer ∷ []

abbrev checks : Dict CheckFunc
checks = ("broker", none) ∷ []

abbrev stopped : System
stopped = record {
  readiness = record { checks = ("broker", some "down") ∷ []; ready = false };
  context_cancelled = true;
  health_up = true;
  metrics_up = true;
  handler = cancelled;
  main = leaving (close_publisher ∷ shutdown_tracer ∷ []);
  closed = cancel_context ∷ [];
}

-- The signal comes, and main leaves the loop and cancels the context again.
stopping : Run closers checks 5 stopped
unfolding set_ready
stopping =
    step
      (step
        (answer (("broker", some "down") ∷ []) (
          step (step (step begin (signal (λ e. cc) refl)) (withdraw (λ e. cc) refl))
            (cancel (λ e. cc) refl)))
        (leave refl refl))
      (close refl)

readyz_handler-Run_example : (readyz_handler stopped.readiness).status_code ≡ 503
readyz_handler-Run_example = readyz_handler-Run stopping (λ e. ground (arith, e))

shutdown-Finished_example :
    (5 ≤ 7 + 3)
    × (((stopped.handler ≡ waiting) × (stopped.main ≡ looping))
        ⊎ (Finished closers stopped ⊎ ((t : System) × Step closers stopped t)))
shutdown-Finished_example = shutdown-Finished stopping

exit-BeforeServers_example :
    (n : ℕ) × (s : System) × Run closers checks n s
    × (s.main ≡ exited)
    × (s.health_up ≡ true)
    × (s.metrics_up ≡ true)
exit-BeforeServers_example = exit-BeforeServers closers checks

-- Registries without any collector but those that are registered.
abbrev all_other : List Registration → String → Bool
all_other [] name = true
all_other (x ∷ xs) name = if x.collector.name == name then false else all_other xs name

abbrev takes : Registries
takes held x = all_other held x.collector.name

new_sentinel_metrics-once_example :
    let m = sentinel_metrics "dev" in
    let all = register_all (registerer_of (some 1)) (registered m) in
    let first = new_sentinel_metrics takes [] initial (some 1) "dev" in
    let called = calls takes [] initial ((some 1, "dev") ∷ (none, "other") ∷ []) in
    ((TakesAll takes [] all
        × (first.panics ≡ false)
        × (called.0 ≡ all)
        × All (λ r. r ≡ some m) called.1)
      ⊎ ((¬ TakesAll takes [] all)
          × (first.panics ≡ true)
          × (called.0 ≡ first.registrations)
          × All (λ r. r ≡ none) called.1))
    × IsDistinct (registered m)
    × ((call : MetricCall)
        → In (target m call) (registered m) × ((target m call).labels ≡ given_labels call))
new_sentinel_metrics-once_example =
    new_sentinel_metrics-once takes [] (some 1) "dev" ((none, "other") ∷ [])
