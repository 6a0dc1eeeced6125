-- ===== src/Serve/Command.antt =====
-- cmd/sentinel/main.go: the commands `serve` and `config-dump`, from the configuration that they
-- load to their end.
use hyperfleet_sentinel.Base.{
  String, ◌≡◌, ◌≢◌, refl, sym, ◌∙◌, Option, some, List, [], Result, ok, err, map_err, ◌+++◌,
  err_inj, ◌>>=◌,
}
use hyperfleet_sentinel.Config.{SentinelConfig}
use hyperfleet_sentinel.Config.Loading.{Viper, FlagSet, load_config}
use hyperfleet_sentinel.Config.Loading.Laws.{load_config-IsValid}
use hyperfleet_sentinel.Config.Validation.{IsValid}
use hyperfleet_sentinel.Serve.{Machine, init_logging, run_serve}
use hyperfleet_sentinel.Serve.Actions.{Action, Failure, returned, panicked}
use hyperfleet_sentinel.Serve.Laws.{due_afters, run_serve-IsClosed}
use hyperfleet_sentinel.Logger.{LogConfig as LoggerConfig}

abbrev pub Outcome : Type 0
Outcome = Result Failure (Unit {0}) × List Action

abbrev fails : String → Outcome
fails e = (err (returned e), [])

module _ (m : Machine) (viper : Viper) where
  abbrev serve_logged : SentinelConfig → Result String LoggerConfig → Outcome
  serve_logged cfg (err e) = fails ("failed to initialize logging: " +++ e)
  serve_logged cfg (ok log_cfg) = run_serve m cfg log_cfg

  abbrev pub serve_loaded : Result String SentinelConfig → Outcome
  serve_loaded (err e) = fails e
  serve_loaded (ok cfg) = serve_logged cfg (init_logging m cfg.log cfg.tracing_enabled)

  -- `RunE` of `serve`.
  unfoldable pub serve_command : String → Option FlagSet → Outcome
  serve_command config_file flags =
      serve_loaded (load_config viper m.host m.getenv config_file flags)

  -- What `config-dump` prints, with `yaml.Marshal` of the copy.
  unfoldable pub run_config_dump :
      (SentinelConfig → Result String String) → String → Option FlagSet → Result String String
  run_config_dump marshal config_file flags =
      load_config viper m.host m.getenv config_file flags >>= λ cfg.
      map_err (λ e. "failed to marshal config: " +++ e) (marshal cfg)

  abbrev Returns : Outcome → Type 0
  Returns outcome = (due_afters outcome.1 (some []) ≡ some []) × (outcome.0 ≢ err panicked)

  fails-Returns : (e : String) → Returns (fails e)
  fails-Returns e = (refl, λ h. absurd (cc (err_inj h)))

  serve_logged-Returns :
      (cfg : SentinelConfig) (r : Result String LoggerConfig)
      → IsValid cfg
      → Returns (serve_logged cfg r)
  serve_logged-Returns cfg (err e) valid = fails-Returns _
  serve_logged-Returns cfg (ok log_cfg) valid =
      let (closed, panics) = run_serve-IsClosed m cfg log_cfg in
      (closed, λ h. absurd (cc (sym valid.has_api ∙ panics h)))

  serve_loaded-Returns :
      (r : Result String SentinelConfig)
      → ((cfg : SentinelConfig) → r ≡ ok cfg → IsValid cfg)
      → Returns (serve_loaded r)
  serve_loaded-Returns (err e) valid = fails-Returns e
  serve_loaded-Returns (ok cfg) valid = serve_logged-Returns cfg _ (valid cfg refl)

  -- Whatever the file, the flags, the environment and the libraries answer, the command serve does
  -- not panic on a missing part of the configuration, and whether it ends with nil or with an error,
  -- every tracer provider, publisher and context that it opened has been closed exactly once, the
  -- last opened first, and nothing else has been closed.
  pub serve_command-Returns :
      (config_file : String) (flags : Option FlagSet)
      → (due_afters (serve_command config_file flags).1 (some []) ≡ some [])
        × ((serve_command config_file flags).0 ≢ err panicked)
  unfolding serve_command
  serve_command-Returns config_file flags =
      serve_loaded-Returns (load_config viper m.host m.getenv config_file flags)
        (λ cfg. load_config-IsValid viper m.host m.getenv config_file flags cfg)
