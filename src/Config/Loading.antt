-- ===== src/Config/Loading.antt =====
-- `LoadConfig`, over the viper library and a set of command line flags.
pub mod Settings
pub mod Layers
pub mod Laws
use hyperfleet_sentinel.Base.{
  String, Bool, true, false, Option, none, some, List, [], ◌∷◌, Dict, Result, ok, err, map_err,
  ◌==◌, if◌then◌else◌, ◌+++◌, Host, Environment, Value, object, Fields, ◌>>=◌, ◌>>◌,
}
use hyperfleet_sentinel.Config.{
  SentinelConfig, MessageDecisionConfig, new_sentinel_config, default_message_decision,
}
use hyperfleet_sentinel.Config.Leaves.{validate_message_data_leaves}
use hyperfleet_sentinel.Config.Validation.{validate}

-- An instance of viper after reading a file, the calls on it, and the errors' texts. A key that
-- has no value is none.
pub record Viper : Type 1 where
  pub State : Type 0
  pub read_in_config : String → Result String State
  pub bind_env : State → String → String → Result String State
  pub set : State → String → String → State
  pub unmarshal_exact : State → SentinelConfig → Result String SentinelConfig
  pub get : State → String → Option Value

-- A flag of pflag, as far as it is read, and `Lookup`.
pub record Flag : Type 0 where
  pub changed : Bool
  pub value : String

abbrev pub FlagSet : Type 0
FlagSet = String → Option Flag

abbrev default_config_file : String
default_config_file = "/etc/hyperfleet/config.yaml"

abbrev pub env_prefix : String
env_prefix = "HYPERFLEET"

-- Both maps are visited in some order; their keys are distinct.
abbrev pub viper_key_mappings : Dict String
viper_key_mappings =
    ("debug_config", "DEBUG_CONFIG")
    ∷ ("sentinel::name", "SENTINEL_NAME")
    ∷ ("log::level", "LOG_LEVEL")
    ∷ ("log::format", "LOG_FORMAT")
    ∷ ("log::output", "LOG_OUTPUT")
    ∷ ("clients::hyperfleet_api::base_url", "API_BASE_URL")
    ∷ ("clients::hyperfleet_api::version", "API_VERSION")
    ∷ ("clients::hyperfleet_api::timeout", "API_TIMEOUT")
    ∷ ("clients::broker::topic", "BROKER_TOPIC")
    ∷ ("resource_type", "RESOURCE_TYPE")
    ∷ ("poll_interval", "POLL_INTERVAL")
    ∷ ("tracing_enabled", "TRACING_ENABLED")
    ∷ []

abbrev pub cli_flags : Dict String
cli_flags =
    ("debug-config", "debug_config")
    ∷ ("name", "sentinel::name")
    ∷ ("hyperfleet-api-base-url", "clients::hyperfleet_api::base_url")
    ∷ ("hyperfleet-api-version", "clients::hyperfleet_api::version")
    ∷ ("hyperfleet-api-timeout", "clients::hyperfleet_api::timeout")
    ∷ ("broker-topic", "clients::broker::topic")
    ∷ ("resource-type", "resource_type")
    ∷ ("poll-interval", "poll_interval")
    ∷ ("log-level", "log::level")
    ∷ ("log-format", "log::format")
    ∷ ("log-output", "log::output")
    ∷ ("tracing-enabled", "tracing_enabled")
    ∷ []

abbrev if_changed : Option Flag → Option String
if_changed none = none
if_changed (some flag) = if flag.changed then some flag.value else none

-- The value of a flag that is there and was changed; a nil set has no flags.
abbrev pub changed_value : Option FlagSet → String → Option String
changed_value none name = none
changed_value (some lookup_flag) name = if_changed (lookup_flag name)

abbrev pub config_path : Environment → String → String
config_path getenv config_file =
    if config_file == ""
    then (if getenv "HYPERFLEET_CONFIG" == ""
        then default_config_file
        else getenv "HYPERFLEET_CONFIG")
    else config_file

-- `message_data` before it is unmarshalled, if it is a map.
abbrev validate_raw : Option Value → Result String (Unit {0})
validate_raw (some (object raw_md)) =
    map_err (λ e. "invalid config: " +++ e) (validate_message_data_leaves raw_md "message_data")
validate_raw _ = ok tt

abbrev pub with_default : Option MessageDecisionConfig → MessageDecisionConfig
with_default none = default_message_decision
with_default (some md) = md

abbrev pub apply_default : SentinelConfig → SentinelConfig
apply_default cfg = record cfg { message_decision = some (with_default cfg.message_decision) }

module _ (viper : Viper) where
  open viper use {State, read_in_config, bind_env, set, unmarshal_exact, get}

  unfoldable pub bind_all : State → Dict String → Result String State
  bind_all s [] = ok s
  bind_all s ((config_path, env_suffix) ∷ mappings) = do
    bound ←
        map_err
          (λ e. "failed to bind env var " +++ env_prefix +++ "_" +++ env_suffix +++ ": " +++ e)
          (bind_env s config_path (env_prefix +++ "_" +++ env_suffix))
    bind_all bound mappings

  abbrev pub set_changed : State → String → Option String → State
  set_changed s config_path none = s
  set_changed s config_path (some value) = set s config_path value

  unfoldable pub set_flags : Option FlagSet → State → Dict String → State
  set_flags flags s [] = s
  set_flags flags s ((flag_name, config_path) ∷ names) =
      set_flags flags (set_changed s config_path (changed_value flags flag_name)) names

  -- The instance that the configuration is unmarshalled from.
  unfoldable pub merged : Environment → String → Option FlagSet → Result String State
  unfolding bind_all set_flags
  merged getenv config_file flags = do
    file ←
        map_err (λ e. "failed to read config file: " +++ e)
          (read_in_config (config_path getenv config_file))
    bound ← bind_all file viper_key_mappings
    ok (set_flags flags bound cli_flags)

  abbrev pub accept : Host → SentinelConfig → Result String SentinelConfig
  accept host cfg = do map_err (λ e. "invalid config: " +++ e) (validate host cfg); ok cfg

  unfoldable pub load_config :
      Host → Environment → String → Option FlagSet → Result String SentinelConfig
  unfolding merged
  load_config host getenv config_file flags = do
    v ← merged getenv config_file flags
    cfg ←
        map_err (λ e. "failed to unmarshal config: " +++ e) (unmarshal_exact v new_sentinel_config)
    validate_raw (get v "message_data")
    accept host (apply_default cfg)
