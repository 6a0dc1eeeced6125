-- ===== src/Logger.antt =====
-- pkg/logger/logger.go and pkg/logger/operationid_middleware.go: the logger's configuration and
-- the context that entries are built from. The children model the entries, the output and the
-- parsing of the configuration's names.
pub mod Names
pub mod Parsing
pub mod Entry
pub mod Stack
pub mod Output
pub mod Methods
pub mod Mock
pub mod Adapter
pub mod Laws
use hyperfleet_sentinel.Base.{
  ℕ, String, Bool, true, false, Option, none, some, List, [], Dict, insert, Value, ℤ, pos,
}

-- `LogLevel`, an int that only the constants are converted to.
abbrev pub LogLevel : Type 0
LogLevel = ℕ

abbrev pub level_debug : LogLevel
level_debug = 0

abbrev pub level_info : LogLevel
level_info = 1

abbrev pub level_warn : LogLevel
level_warn = 2

abbrev pub level_error : LogLevel
level_error = 3

pub data LogFormat : Type 0 where
  format_text format_json : LogFormat

-- The writers that the program sets; a nil writer is `none` in the configuration.
pub data Writer : Type 0 where
  stdout stderr : Writer

pub record LogConfig : Type 0 where
  pub output : Option Writer
  pub component : String
  pub version : String
  pub hostname : String
  pub level : LogLevel
  pub format : LogFormat
  pub otel_enabled : Bool

-- The answer of `os.Hostname`, if it is no error.
unfoldable pub default_config : Option String → LogConfig
default_config hostname = record {
  output = some stdout;
  component = "sentinel";
  version = "dev";
  hostname = elim hostname [ none ↦ "unknown" | some name ↦ name ];
  level = level_info;
  format = format_json;
  otel_enabled = true;
}

-- The values that a context holds under the logger's keys.
pub record Context : Type 0 where
  pub op_id : Option String
  pub tx_id : Option ℤ
  pub trace_id : Option String
  pub span_id : Option String
  pub decision_reason : Option String
  pub topic : Option String
  pub subset : Option String

unfoldable pub with_trace_id : Context → String → Context
with_trace_id ctx trace_id = record ctx { trace_id = some trace_id }

unfoldable pub with_span_id : Context → String → Context
with_span_id ctx span_id = record ctx { span_id = some span_id }

unfoldable pub with_decision_reason : Context → String → Context
with_decision_reason ctx reason = record ctx { decision_reason = some reason }

unfoldable pub with_topic : Context → String → Context
with_topic ctx topic = record ctx { topic = some topic }

unfoldable pub with_subset : Context → String → Context
with_subset ctx subset = record ctx { subset = some subset }

unfoldable pub with_sentinel_fields : Context → String → String → String → Context
unfolding with_decision_reason with_topic with_subset
with_sentinel_fields ctx decision_reason topic subset =
    with_subset (with_topic (with_decision_reason ctx decision_reason) topic) subset

pub record Logger : Type 0 where
  pub config : LogConfig
  pub extra : Dict Value
  pub verbosity : ℤ

-- `HyperFleetLogger`, as this file implements it: a logger, or `noopLogger`.
pub data HyperFleetLogger : Type 0 where
  active : Logger → HyperFleetLogger
  noop : HyperFleetLogger

-- `NewHyperFleetLoggerWithConfig`, whose nil configuration is the default one.
unfoldable pub new_hyperfleet_logger_with_config :
    Option String → Option LogConfig → HyperFleetLogger
unfolding default_config
new_hyperfleet_logger_with_config hostname cfg = active (record {
  config = elim cfg [ none ↦ default_config hostname | some c ↦ c ];
  extra = [];
  verbosity = pos 0;
})

-- The global configuration, a nil pointer until it is set: what a set leaves, and what a get
-- answers.
unfoldable pub set_global_config : Option LogConfig → Option LogConfig → Option LogConfig
set_global_config global cfg = cfg

unfoldable pub get_global_config : Option String → Option LogConfig → LogConfig
unfolding default_config
get_global_config hostname none = default_config hostname
get_global_config hostname (some cfg) = cfg

unfoldable pub new_hyperfleet_logger : Option String → Option LogConfig → HyperFleetLogger
unfolding get_global_config new_hyperfleet_logger_with_config
new_hyperfleet_logger hostname global =
    new_hyperfleet_logger_with_config hostname (some (get_global_config hostname global))
