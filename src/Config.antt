-- ===== src/Config.antt =====
-- internal/config/config.go: the configuration's types and defaults.
-- The children model the label selectors and the three validations.
pub mod Selector
pub mod Decision
pub mod Leaves
pub mod Validation
pub mod Loading
pub mod Redaction
use hyperfleet_sentinel.Base.{
  String, Bool, true, false, Option, none, some, List, [], ◌∷◌, Fields, Duration, pos, second, ◌*◌,
  ◌==◌, if◌then◌else◌,
}

pub record LabelSelector : Type 0 where
  pub label : String
  pub value : String

abbrev pub LabelSelectorList : Type 0
LabelSelectorList = List LabelSelector

pub record Param : Type 0 where
  pub name : String
  pub expr : String

pub record MessageDecisionConfig : Type 0 where
  pub result : String
  pub params : List Param

pub record SentinelInfo : Type 0 where
  pub name : String

pub record LogConfig : Type 0 where
  pub level : String
  pub format : String
  pub output : String

pub record HyperFleetApiConfig : Type 0 where
  pub base_url : String
  pub version : String
  pub timeout : Duration

pub record BrokerConfig : Type 0 where
  pub topic : String

pub record ClientsConfig : Type 0 where
  pub hyperfleet_api : Option HyperFleetApiConfig
  pub broker : Option BrokerConfig

-- Nil pointers and a nil `MessageData` are `none`.
pub record SentinelConfig : Type 0 where
  pub log : LogConfig
  pub sentinel : SentinelInfo
  pub resource_type : String
  pub clients : ClientsConfig
  pub message_data : Option Fields
  pub message_decision : Option MessageDecisionConfig
  pub resource_selector : LabelSelectorList
  pub poll_interval : Duration
  pub debug_config : Bool
  pub tracing_enabled : Bool

abbrev param : String → String → Param
param name expr = record { name = name; expr = expr }

abbrev pub default_message_decision : MessageDecisionConfig
default_message_decision = record {
  result =
      "is_new_resource || generation_mismatch || reconciled_and_stale || not_reconciled_and_debounced";
  params =
      param "ref_time" "condition(\"Reconciled\").last_updated_time"
      ∷ param "is_reconciled" "condition(\"Reconciled\").status == \"True\""
      ∷ param "has_ref_time" "ref_time != \"\""
      ∷ param "is_new_resource" "!is_reconciled && resource.generation == 1"
      ∷ param "generation_mismatch"
          "resource.generation > condition(\"Reconciled\").observed_generation"
      ∷ param "reconciled_and_stale"
          "is_reconciled && has_ref_time && now - timestamp(ref_time) > duration(\"30m\")"
      ∷ param "not_reconciled_and_debounced"
          "!is_reconciled && has_ref_time && now - timestamp(ref_time) > duration(\"10s\")"
      ∷ [];
}

abbrev pub new_sentinel_config : SentinelConfig
new_sentinel_config = record {
  log = record { level = "info"; format = "json"; output = "stdout" };
  sentinel = record { name = "hyperfleet-sentinel" };
  resource_type = "";
  clients = record {
    hyperfleet_api = some (record { base_url = ""; version = "v1"; timeout = pos (10 * second) });
    broker = some (record { topic = "" });
  };
  message_data = none;
  message_decision = none;
  resource_selector = [];
  poll_interval = pos (5 * second);
  debug_config = false;
  tracing_enabled = true;
}

unfoldable pub contains : List String → String → Bool
contains [] value = false
contains (v ∷ slice) value = let rest = contains slice value in if v == value then true else rest
