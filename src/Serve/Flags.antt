-- ===== src/Serve/Flags.antt =====
-- cmd/sentinel/main.go: the flags that the commands `serve` and `config-dump` declare.
pub mod Laws
use hyperfleet_sentinel.Base.{String, Bool, true, false, List, [], ◌∷◌, ◌++◌, map}

-- What a flag holds if it is not given: the flags are of texts or of truth values.
pub data Default : Type 0 where
  text : String → Default
  switch : Bool → Default

-- A flag without a shorthand has the empty one.
pub record Declaration : Type 0 where
  pub name : String
  pub shorthand : String
  pub default : Default
  pub usage : String

abbrev string_flag : String → String → String → String → Declaration
string_flag name shorthand value usage = record {
  name = name;
  shorthand = shorthand;
  default = text value;
  usage = usage;
}

abbrev bool_flag : String → Bool → String → Declaration
bool_flag name value usage = record {
  name = name;
  shorthand = "";
  default = switch value;
  usage = usage;
}

-- `addConfigOverrideFlags`
abbrev pub config_override_flags : List Declaration
config_override_flags =
    bool_flag "debug-config" false
      "Log the full merged configuration after load. Env: HYPERFLEET_DEBUG_CONFIG"
    ∷ string_flag "name" "n" "" "Sentinel component name. Env: HYPERFLEET_SENTINEL_NAME"
    ∷ string_flag "log-level" "l" ""
        "Log level: debug, info, warn, error. Env: HYPERFLEET_LOG_LEVEL"
    ∷ string_flag "log-format" "f" "" "Log format: text, json. Env: HYPERFLEET_LOG_FORMAT"
    ∷ string_flag "log-output" "" "" "Log output: stdout, stderr. Env: HYPERFLEET_LOG_OUTPUT"
    ∷ string_flag "hyperfleet-api-base-url" "" ""
        "HyperFleet API base URL. Env: HYPERFLEET_API_BASE_URL"
    ∷ string_flag "hyperfleet-api-version" "" ""
        "HyperFleet API version. Env: HYPERFLEET_API_VERSION"
    ∷ string_flag "hyperfleet-api-timeout" "" ""
        "HyperFleet API timeout (e.g., 10s). Env: HYPERFLEET_API_TIMEOUT"
    ∷ string_flag "broker-topic" "" "" "Broker topic. Env: HYPERFLEET_BROKER_TOPIC"
    ∷ string_flag "resource-type" "" ""
        "Resource type to watch (clusters, nodepools). Env: HYPERFLEET_RESOURCE_TYPE"
    ∷ string_flag "poll-interval" "" "" "Poll interval (e.g., 5s). Env: HYPERFLEET_POLL_INTERVAL"
    ∷ bool_flag "tracing-enabled" true
        "Enable OpenTelemetry tracing. Env: HYPERFLEET_TRACING_ENABLED"
    ∷ []

abbrev pub config_flag : Declaration
config_flag = string_flag "config" "c" "" "Path to configuration file (YAML)"

abbrev pub serve_flags : List Declaration
serve_flags =
    config_flag
    ∷ string_flag "health-server-bindaddress" "" ":8080" "Health server bind address"
    ∷ string_flag "metrics-server-bindaddress" "" ":9090" "Metrics server bind address"
    ∷ config_override_flags

abbrev pub config_dump_flags : List Declaration
config_dump_flags = config_flag ∷ config_override_flags

-- The commands that `main` adds to the root.
pub data Command : Type 0 where
  serve config_dump version : Command

abbrev pub use_of : Command → String
use_of serve = "serve"
use_of config_dump = "config-dump"
use_of version = "version"

abbrev pub flags_of : Command → List Declaration
flags_of serve = serve_flags
flags_of config_dump = config_dump_flags
flags_of version = []
