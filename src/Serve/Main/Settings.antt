-- ===== src/Serve/Main/Settings.antt =====
-- From the command line to the settings: what a command loads when its flags are given by
-- `--name=value`.
use hyperfleet_sentinel.Base.{
  String, ◌≡◌, ◌≢◌, refl, ap, ◌∙◌, some, [], ◌∷◌, Result, ok, ◌+++◌, All, ◌⊎◌, inl, inr,
  Result-cases, err, map_err, ◌>>=◌,
}
use hyperfleet_sentinel.Config.{SentinelConfig, new_sentinel_config}
use hyperfleet_sentinel.Config.Loading.{Viper, FlagSet, load_config}
use hyperfleet_sentinel.Config.Loading.Laws.{load_config_lem, IsConfigPath}
use hyperfleet_sentinel.Config.Loading.Settings.{
  Setting, key_of, flag_of, variable_of, setting, by_precedence, IsViper,
}
use hyperfleet_sentinel.Config.Validation.{IsValid}
use hyperfleet_sentinel.Serve.{Machine, init_logging, run_serve}
use hyperfleet_sentinel.Serve.Flags.{Command, serve, config_dump, version, use_of, flags_of}
use hyperfleet_sentinel.Serve.Main.{
  Cobra, Build, Run, run_command, flag_value, execute, of_dump, of_outcome,
}
use hyperfleet_sentinel.Serve.Actions.{returned}
use hyperfleet_sentinel.Serve.Command.{serve_loaded, serve_command, run_config_dump}
use hyperfleet_sentinel.Logger.{LogConfig}
use hyperfleet_sentinel.Serve.Main.Given.{
  Given, render, given_value, flags_given, IsText, IsCobra, changed_value-flags_given, file_given,
  config_given,
}

module _ (m : Machine) {viper : Viper} (laws : IsViper viper m.getenv)
    (marshal : SentinelConfig → Result String String) (build : Build) {cobra : Cobra}
    (parses : IsCobra cobra) where
  -- How a command runs after LoadConfig: it fails with the error of the load; config-dump prints
  -- what the configuration is marshalled to, or fails; serve sets up logging and goes on with
  -- runServe on the configuration.
  abbrev pub RunsOn : Command → Result String SentinelConfig → Run → Type 0
  RunsOn c (err e) r = r ≡ record { result = err (returned e); actions = []; printed = "" }
  RunsOn serve (ok cfg) r =
      (r.printed ≡ "")
      × (((e : String) × (init_logging m cfg.log cfg.tracing_enabled ≡ err e)
            × (r.result ≡ err (returned ("failed to initialize logging: " +++ e)))
            × (r.actions ≡ []))
          ⊎ ((log_cfg : LogConfig) × (init_logging m cfg.log cfg.tracing_enabled ≡ ok log_cfg)
              × ((r.result, r.actions) ≡ run_serve m cfg log_cfg)))
  RunsOn config_dump (ok cfg) r =
      (r.actions ≡ [])
      × (((text : String) × (marshal cfg ≡ ok text) × (r.result ≡ ok tt) × (r.printed ≡ text))
          ⊎ ((e : String) × (marshal cfg ≡ err e)
              × (r.result ≡ err (returned ("failed to marshal config: " +++ e)))
              × (r.printed ≡ "")))
  RunsOn version (ok cfg) r = ⊥

  -- The settings that the command line, the environment and the file give.
  abbrev pub HasSettings : Given → Result String SentinelConfig → Type 0
  HasSettings given (err e) = Unit
  HasSettings given (ok cfg) =
      IsValid cfg
      × ((path : String) × IsConfigPath m.getenv (file_given (given_value "config" given)) path
          × ((s : viper.State) × (viper.read_in_config path ≡ ok s)
              × ((x : Setting)
                  → setting x cfg
                    ≡ by_precedence (given_value (flag_of x) given) (m.getenv (variable_of x))
                        (laws.file s (key_of x)) (setting x new_sentinel_config))))

  load_given-HasSettings :
      (c : Command) (given : Given) (loaded : Result String SentinelConfig)
      → c ≢ version
      → load_config viper m.host m.getenv
          (file_given (given_value "config" given))
          (some (flags_given (flags_of c) given))
        ≡ loaded
      → HasSettings given loaded
  load_given-HasSettings c given (err e) loads h = tt
  load_given-HasSettings c given (ok cfg) loads h =
      let l = load_config_lem laws m.host _ _ cfg h in
      (
        l.is_valid,
        (
          l.path,
          l.is_path,
          (
            l.source,
            l.read,
            λ x.
                l.settings x
                ∙ ap
                    (λ o.
                      by_precedence o (m.getenv (variable_of x)) (laws.file l.source (key_of x))
                        (setting x new_sentinel_config))
                    (changed_value-flags_given c given x loads),
          ),
        ),
      )

  serve_loaded-RunsOn :
      (loaded : Result String SentinelConfig)
      → RunsOn serve loaded (of_outcome (serve_loaded m viper loaded))
  serve_loaded-RunsOn (err e) = refl
  serve_loaded-RunsOn (ok cfg) = (
    refl,
    elim (Result-cases (init_logging m cfg.log cfg.tracing_enabled)) [
      | inl (log_cfg, fine) ↦ inr (log_cfg, fine, rw fine refl)
      | inr (e, fails) ↦ inl (e, fails, rw fails refl, rw fails refl)
    ],
  )

  dump_loaded-RunsOn :
      (loaded : Result String SentinelConfig)
      → RunsOn config_dump loaded (
          of_dump
            (loaded >>= λ cfg. map_err (λ e. "failed to marshal config: " +++ e) (marshal cfg)))
  dump_loaded-RunsOn (err e) = refl
  dump_loaded-RunsOn (ok cfg) = elim (Result-cases (marshal cfg)) [
    | inl (yaml, fine) ↦ rw fine (refl, inl (yaml, refl, refl, refl))
    | inr (e, fails) ↦ rw fails (refl, inr (e, refl, refl, refl))
  ]

  run_command-RunsOn :
      (c : Command) (fs : FlagSet) (loaded : Result String SentinelConfig)
      → c ≢ version
      → load_config viper m.host m.getenv (flag_value (fs "config")) (some fs) ≡ loaded
      → RunsOn c loaded (run_command m viper marshal build cobra c fs)
  unfolding run_command serve_command run_config_dump
  run_command-RunsOn serve fs loaded loads h = rw h (serve_loaded-RunsOn loaded)
  run_command-RunsOn config_dump fs loaded loads h = rw h (dump_loaded-RunsOn loaded)
  run_command-RunsOn version fs loaded loads h = absurd (loads refl)

  -- When serve or config-dump is run with flags of texts that it declares, each given by
  -- `--name=value`, and the library parses them as documented: the command runs on what LoadConfig
  -- makes of these flags and of the file that --config gives. If that is an error, the command
  -- fails with it and does nothing. If it is a configuration, this is valid, was read from the
  -- file of --config, else of HYPERFLEET_CONFIG, else the default one, and has as its name,
  -- resource type and log settings the last value that the flag is given, else the environment
  -- variable if that is not empty, else the file's, else the default; and config-dump prints what
  -- it is marshalled to, and serve sets up logging and goes on with runServe on it.
  pub execute_given :
      (c : Command) (given : Given) (loaded : Result String SentinelConfig)
      → c ≢ version
      → All (IsText (flags_of c)) given
      → load_config viper m.host m.getenv
          (file_given (given_value "config" given))
          (some (flags_given (flags_of c) given))
        ≡ loaded
      → RunsOn c loaded (execute m viper marshal build cobra (use_of c ∷ render given))
        × HasSettings given loaded
  unfolding execute
  execute_given c given loaded loads known h =
      let file = config_given c given loads in
      (
        rw (parses.found c given known, parses.parsed c given known)
            (run_command-RunsOn c (flags_given (flags_of c) given) loaded loads (
              ap
                (λ path.
                  load_config viper m.host m.getenv path (some (flags_given (flags_of c) given)))
                file
              ∙ h)),
        load_given-HasSettings c given loaded loads h,
      )
