-- ===== src/Config/Loading/Laws.antt =====
-- What a configuration that is loaded is: its settings by precedence, and that it is valid.
use hyperfleet_sentinel.Base.{
  String, ◌≡◌, refl, sym, ◌∙◌, Option, Result, ok, map_err, ◌+++◌, Host, Environment, >>=-eq-ok,
  map_err-eq-ok_iff, ok_inj, ◌>>◌, ◌≢◌, Bool-cases, eq_iff, inl, inr, ◌==◌,
}
use hyperfleet_sentinel.Config.{SentinelConfig, new_sentinel_config}
use hyperfleet_sentinel.Config.Validation.{validate, IsValid}
use hyperfleet_sentinel.Config.Validation.Laws.{validate-eq-ok_iff}
use hyperfleet_sentinel.Config.Loading.{
  Viper, FlagSet, changed_value, config_path, validate_raw, apply_default, merged, accept,
  load_config,
}
use hyperfleet_sentinel.Config.Loading.Settings.{
  key_of, flag_of, variable_of, setting, by_precedence, Setting, sentinel_name, resource_type,
  log_level, log_format, log_output, IsViper,
}
use hyperfleet_sentinel.Config.Loading.Layers.{merged-Layers, by_precedence-Layers}

module _ (viper : Viper) where
  accept-eq-ok :
      (host : Host) (raw cfg : SentinelConfig)
      → accept viper host raw ≡ ok cfg
      → IsValid raw × (raw ≡ cfg)
  accept-eq-ok host raw cfg h =
      let (unit, valid, same) =
        >>=-eq-ok (map_err (λ e. "invalid config: " +++ e) (validate host raw)) (λ _. ok raw) h in
      (
        (validate-eq-ok_iff host raw).0 ((map_err-eq-ok_iff _ (validate host raw) unit).0 valid),
        ok_inj same,
      )

  -- The parts of a load that succeeds.
  pub loaded_parts :
      (host : Host) (getenv : Environment) (config_file : String) (flags : Option FlagSet)
      (cfg : SentinelConfig)
      → load_config viper host getenv config_file flags ≡ ok cfg
      → (t : viper.State) × (merged viper getenv config_file flags ≡ ok t)
        × (raw : SentinelConfig) × (viper.unmarshal_exact t new_sentinel_config ≡ ok raw)
        × IsValid (apply_default raw)
        × (apply_default raw ≡ cfg)
  unfolding load_config
  loaded_parts host getenv config_file flags cfg h =
      let raw_leaves : viper.State → Result String (Unit {0}) =
        λ t. validate_raw (viper.get t "message_data") in
      let (t, merge, rest) = >>=-eq-ok _ _ h in
      let (raw, decode, checks) =
        >>=-eq-ok
          (map_err (λ e. "failed to unmarshal config: " +++ e)
            (viper.unmarshal_exact t new_sentinel_config))
          (λ c. raw_leaves t >> accept viper host (apply_default c)) rest in
      let (_, leaves, accepts) =
        >>=-eq-ok (raw_leaves t) (λ _. accept viper host (apply_default raw)) checks in
      let (valid, same) = accept-eq-ok host (apply_default raw) cfg accepts in
      (t, merge, raw, (map_err-eq-ok_iff _ _ raw).0 decode, valid, same)

  pub load_config-IsValid :
      (host : Host) (getenv : Environment) (config_file : String) (flags : Option FlagSet)
      (cfg : SentinelConfig)
      → load_config viper host getenv config_file flags ≡ ok cfg
      → IsValid cfg
  unfolding load_config
  load_config-IsValid host getenv config_file flags cfg h =
      let (t, merge, raw, decode, valid, same) = loaded_parts host getenv config_file flags cfg h in
      rw (sym same) valid

-- The file that is read: the argument, else HYPERFLEET_CONFIG, else the default one.
pub data IsConfigPath (getenv : Environment) (config_file : String) : String → Type 0 where
  by_argument : config_file ≢ "" → IsConfigPath getenv config_file config_file
  by_variable :
      config_file ≡ ""
      → getenv "HYPERFLEET_CONFIG" ≢ ""
      → IsConfigPath getenv config_file (getenv "HYPERFLEET_CONFIG")
  by_default :
      config_file ≡ ""
      → getenv "HYPERFLEET_CONFIG" ≡ ""
      → IsConfigPath getenv config_file "/etc/hyperfleet/config.yaml"

config_path-IsConfigPath :
    (getenv : Environment) (config_file : String)
    → IsConfigPath getenv config_file (config_path getenv config_file)
config_path-IsConfigPath getenv config_file = elim (Bool-cases (config_file == "")) [
  | inr given ↦ rw given (by_argument (λ h. cc ((eq_iff config_file "").1 h)))
  | inl missing ↦ elim (Bool-cases (getenv "HYPERFLEET_CONFIG" == "")) [
    | inl unset ↦
        rw (missing, unset) (by_default ((eq_iff config_file "").0 missing) ((eq_iff _ "").0 unset))
    | inr variable ↦
        rw (missing, variable)
          (by_variable ((eq_iff config_file "").0 missing) (λ h. cc ((eq_iff _ "").1 h)))
  ]
]

setting-apply_default :
    (x : Setting) (cfg : SentinelConfig) → setting x (apply_default cfg) ≡ setting x cfg
setting-apply_default sentinel_name cfg = refl
setting-apply_default resource_type cfg = refl
setting-apply_default log_level cfg = refl
setting-apply_default log_format cfg = refl
setting-apply_default log_output cfg = refl

module _ {viper : Viper} {getenv : Environment} (laws : IsViper viper getenv) where
  open viper use {State}
  open laws use {override, variable, file}

  -- A valid configuration with a message decision, read from the file of the argument or of the
  -- environment, with the settings by precedence over what that file has.
  pub record IsLoaded (config_file : String) (flags : Option FlagSet) (cfg : SentinelConfig)
      : Type 0 where
    pub is_valid : IsValid cfg
    pub path : String
    pub is_path : IsConfigPath getenv config_file path
    pub source : State
    pub read : viper.read_in_config path ≡ ok source
    pub settings :
        (x : Setting)
        → setting x cfg
          ≡ by_precedence
              (changed_value flags (flag_of x))
              (getenv (variable_of x))
              (file source (key_of x))
              (setting x new_sentinel_config)

  -- What LoadConfig returns without an error is valid, with a message decision, and was read from
  -- the file that the argument names if it is not empty, else from the one that HYPERFLEET_CONFIG
  -- names if that is not empty, else from /etc/hyperfleet/config.yaml. Each of its name, resource
  -- type and log settings is the value of its flag if that was changed, else of its environment
  -- variable if that is not empty, else of the file, else the default. This is under the
  -- documented behaviour of viper.
  pub load_config_lem :
      (host : Host) (config_file : String) (flags : Option FlagSet) (cfg : SentinelConfig)
      → load_config viper host getenv config_file flags ≡ ok cfg
      → IsLoaded config_file flags cfg
  unfolding load_config
  load_config_lem host config_file flags cfg h =
      let (t, merge, raw, decode, valid, same) =
        loaded_parts viper host getenv config_file flags cfg h in
      let (s, read, layers) = merged-Layers laws config_file flags t merge in
      let precedence : (x : Setting) → setting x raw ≡ _ = λ x. laws.unmarshalled x decode in
      record {
        is_valid = rw (sym same) valid;
        path = config_path getenv config_file;
        is_path = config_path-IsConfigPath getenv config_file;
        source = s;
        read = read;
        settings = λ x.
            rw (sym same) (
              setting-apply_default x raw
              ∙ precedence x
              ∙ by_precedence-Layers laws x _ (layers x));
      }
