-- ===== src/Serve.antt =====
-- cmd/sentinel/main.go: `initLogging`, and `runServe` as the actions that it takes on the outside,
-- in order, those that it defers included. Log lines and the debug dump of the configuration are
-- left out. The children model the monad of actions, the shutdown and the health endpoints.
pub mod Actions
pub mod Laws
pub mod Shutdown
pub mod Liveness
pub mod Command
pub mod Flags
pub mod Main
pub mod Default
use hyperfleet_sentinel.Base.{
  Environment, ℕ, String, Bool, true, false, Option, none, some, List, [], ◌∷◌, Dict, Result, ok,
  err, map_err, ◌==◌, if◌then◌else◌, ◌+++◌, ◌-◌, ◌*◌, ◌%◌, ◌^◌, zero, suc, ltb, eqb, leb, Host,
  Duration, ℤ, pos, negsuc, Time,
}
use hyperfleet_sentinel.Cel.{Cel}
use hyperfleet_sentinel.Config.{SentinelConfig, HyperFleetApiConfig, LogConfig}
use hyperfleet_sentinel.Client.Fetch.{Api, verify_connectivity}
use hyperfleet_sentinel.Client.Creation.{NewClientWithResponses, new_hyperfleet_client}
use hyperfleet_sentinel.Engine.{new_decision_engine, DecisionEngine}
use hyperfleet_sentinel.Sentinel.{Sentinel, new_sentinel}
use hyperfleet_sentinel.Health.{CheckFunc}
use hyperfleet_sentinel.Logger.{
  LogConfig as LoggerConfig, LogLevel, LogFormat, Writer, default_config,
}
use hyperfleet_sentinel.Logger.Names.{parse_log_level, parse_log_format, parse_log_output}
use hyperfleet_sentinel.Telemetry.{Otel, init_trace_provider}
use hyperfleet_sentinel.Serve.Actions.{
  Action, init_tracer, shutdown_tracer, register_metrics, new_publisher, close_publisher,
  with_cancel, cancel_context, add_check, set_ready, serve_health, serve_metrics, notify,
  run_sentinel, Failure, returned, panicked, Go, pure, fail, perform, acquire, lift, ◌>>=◌, ◌>>◌,
  run,
}

-- What the process meets outside: the answers of the libraries, and the loop's error, if the
-- context of the loop ends by another reason than its cancellation.
pub record Machine : Type 1 where
  pub host : Host
  pub cel : Cel
  pub otel : Otel
  pub getenv : Environment
  pub hostname : Option String
  pub trim_space : String → String
  pub version : String
  pub new_client : NewClientWithResponses
  pub publisher : Result String Bool
  pub loop_error : Option String

-- An empty name keeps the default.
abbrev override {ℓ} : {A : Type ℓ} → String → (String → Result String A) → A → Result String A
override name parse value = if name == "" then ok value else parse name

-- `3*cfg.PollInterval` in an int64.
abbrev wrap_positive : ℕ → Duration
wrap_positive n = if ltb n (2 ^ 63) then pos n else negsuc (2 ^ 64 - 1 - n)

abbrev wrap_negative : ℕ → Duration
wrap_negative n =
    if eqb n 0 then pos 0 else if leb n (2 ^ 63) then negsuc (n - 1) else pos (2 ^ 64 - n)

unfoldable pub health_threshold : Duration → Duration
health_threshold (pos n) = wrap_positive (3 * n % 2 ^ 64)
health_threshold (negsuc n) = wrap_negative (3 * suc n % 2 ^ 64)

module _ (m : Machine) where
  open m use {
    host, cel, otel, getenv, hostname, trim_space, version, new_client, publisher, loop_error,
  }

  set_output : LoggerConfig → String → Result String LoggerConfig
  set_output cfg name =
      if name == "" then ok cfg else (elim (parse_log_output host trim_space name) [
        | err e ↦ err e
        | ok output ↦ ok (record cfg { output = some output })
      ])

  set_format : LoggerConfig → LogConfig → Result String LoggerConfig
  unfolding set_output
  set_format cfg log_cfg =
      elim (override log_cfg.format (parse_log_format host trim_space) cfg.format) [
        | err e ↦ err e
        | ok format ↦ set_output (record cfg { format = format }) log_cfg.output
      ]

  set_level : LoggerConfig → LogConfig → Result String LoggerConfig
  unfolding set_format
  set_level cfg log_cfg =
      elim (override log_cfg.level (parse_log_level host trim_space) cfg.level) [
        | err e ↦ err e
        | ok level ↦ set_format (record cfg { level = level }) log_cfg
      ]

  -- The result is also set as the global configuration.
  unfoldable pub init_logging : LogConfig → Bool → Result String LoggerConfig
  unfolding set_level
  init_logging log_cfg tracing_enabled =
      elim (set_level
        (record (default_config hostname) { version = version; component = "sentinel" }) log_cfg) [
          | err e ↦ err e
          | ok cfg ↦ ok (record cfg { otel_enabled = tracing_enabled })
        ]

  abbrev service_name : String
  service_name =
      if getenv "OTEL_SERVICE_NAME" == "" then "hyperfleet-sentinel" else getenv "OTEL_SERVICE_NAME"

  -- A provider that cannot be set up is only logged.
  abbrev pub keep_provider {ℓ} : {A : Type ℓ} → Result String A → Go (Unit {0})
  keep_provider (err e) = pure tt
  keep_provider (ok tp) = acquire init_tracer shutdown_tracer

  unfoldable pub start_tracing : Bool → Go (Unit {0})
  start_tracing true = keep_provider (init_trace_provider host otel getenv service_name version)
  start_tracing false = pure tt

  abbrev pub check_connectivity : Api → Option String → Go Api
  check_connectivity c none = pure c
  check_connectivity c (some e) =
      fail (returned ("failed to verify HyperFleet client connectivity: " +++ e))

  -- A nil API configuration is dereferenced.
  abbrev pub connect_api : SentinelConfig → Option HyperFleetApiConfig → Go Api
  connect_api cfg none = fail panicked
  connect_api cfg (some api_cfg) = do
    c ←
        lift (λ e. "failed to initialize OpenAPI client: " +++ e)
          (new_hyperfleet_client new_client api_cfg.base_url api_cfg.timeout cfg.sentinel.name
            version)
    check_connectivity c (verify_connectivity c)

  unfoldable pub connect : SentinelConfig → Go Api
  connect cfg = connect_api cfg cfg.clients.hyperfleet_api

  -- Whether the publisher is there; a nil publisher is not closed.
  abbrev pub keep_publisher : Result String Bool → Go Bool
  keep_publisher (err e) = fail (returned ("failed to initialize broker publisher: " +++ e))
  keep_publisher (ok false) = pure false
  keep_publisher (ok true) = do acquire new_publisher close_publisher; pure true

  unfoldable pub open_publisher : Go Bool
  open_publisher = keep_publisher publisher

  -- The loop returns the error of its context.
  abbrev pub loop_result : Option String → Go (Unit {0})
  loop_result none = pure tt
  loop_result (some e) = fail (returned ("sentinel failed: " +++ e))

  unfoldable pub run_loop : Go (Unit {0})
  run_loop = do perform run_sentinel; loop_result loop_error

  unfoldable pub serve : SentinelConfig → Bool → Go (Unit {0})
  unfolding start_tracing connect open_publisher run_loop health_threshold
  serve cfg otel_enabled = do
    start_tracing otel_enabled
    perform register_metrics
    c ← connect cfg
    engine ←
        lift (λ e. "failed to create decision engine: " +++ e)
          (new_decision_engine host cel cfg.message_decision)
    pub_there ← open_publisher
    perform (add_check "broker")
    perform (set_ready true)
    acquire with_cancel cancel_context
    s ← lift (λ e. "failed to initialize sentinel: " +++ e) (new_sentinel host cel cfg engine)
    perform (add_check "sentinel_poll")
    perform (serve_health (health_threshold cfg.poll_interval))
    perform serve_metrics
    perform notify
    run_loop

  -- The actions of `runServe`, and its result.
  unfoldable pub run_serve : SentinelConfig → LoggerConfig → Result Failure (Unit {0}) × List Action
  unfolding serve
  run_serve cfg log_cfg = run (serve cfg log_cfg.otel_enabled)
