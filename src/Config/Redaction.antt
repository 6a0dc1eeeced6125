-- ===== src/Config/Redaction.antt =====
-- `RedactedCopy`, on a store: the pointers, slices and maps of a configuration are addresses of
-- cells, so that a copy may share them.
pub mod Memory
pub mod Laws
use hyperfleet_sentinel.Base.{ℕ, String, Bool, Option, none, some, List, Dict, Value, Duration}
use hyperfleet_sentinel.Config.{
  LogConfig, SentinelInfo, HyperFleetApiConfig, BrokerConfig, MessageDecisionConfig,
  LabelSelectorList,
}
use hyperfleet_sentinel.Config.Redaction.Memory.{Address, Cells, copy_cell}

-- An entry of a map: a map that it holds is again an address.
pub data Entry : Type 0 where
  leaf : Value → Entry
  nested : ℕ → Entry

pub record Store : Type 0 where
  pub apis : Cells HyperFleetApiConfig
  pub brokers : Cells BrokerConfig
  pub selectors : Cells LabelSelectorList
  pub maps : Cells (Dict Entry)
  pub decisions : Cells MessageDecisionConfig

-- `SentinelConfig`, with addresses.
pub record StoredConfig : Type 0 where
  pub log : LogConfig
  pub sentinel : SentinelInfo
  pub resource_type : String
  pub hyperfleet_api : Address
  pub broker : Address
  pub message_data : Address
  pub message_decision : Address
  pub resource_selector : Address
  pub poll_interval : Duration
  pub debug_config : Bool
  pub tracing_enabled : Bool

-- The copy of the struct, and the cells that it gets of its own.
unfoldable pub redacted_copy : Store → StoredConfig → StoredConfig × Store
redacted_copy s c =
    let (api, apis) = copy_cell s.apis c.hyperfleet_api in
    let (broker, brokers) = copy_cell s.brokers c.broker in
    let (selector, selectors) = copy_cell s.selectors c.resource_selector in
    let (data_map, maps) = copy_cell s.maps c.message_data in
    (
      record c {
        hyperfleet_api = api;
        broker = broker;
        resource_selector = selector;
        message_data = data_map;
      },
      record s { apis = apis; brokers = brokers; selectors = selectors; maps = maps },
    )
