-- ===== src/Config/Redaction/Laws.antt =====
-- What the copy shares with the original, and what it does not.
use hyperfleet_sentinel.Base.{String, ◌≡◌, refl, Bool, Option, Dict, Duration}
use hyperfleet_sentinel.Config.{
  LogConfig, SentinelInfo, HyperFleetApiConfig, BrokerConfig, MessageDecisionConfig,
  LabelSelectorList,
}
use hyperfleet_sentinel.Config.Redaction.Memory.{load, store, IsIn, copy_cell_lem}
use hyperfleet_sentinel.Config.Redaction.{Entry, Store, StoredConfig, redacted_copy}

-- What a configuration reads as.
pub record Contents : Type 0 where
  pub log : LogConfig
  pub sentinel : SentinelInfo
  pub resource_type : String
  pub hyperfleet_api : Option HyperFleetApiConfig
  pub broker : Option BrokerConfig
  pub message_data : Option (Dict Entry)
  pub message_decision : Option MessageDecisionConfig
  pub resource_selector : Option LabelSelectorList
  pub poll_interval : Duration
  pub debug_config : Bool
  pub tracing_enabled : Bool

abbrev pub contents : Store → StoredConfig → Contents
contents s c = record {
  log = c.log;
  sentinel = c.sentinel;
  resource_type = c.resource_type;
  hyperfleet_api = load s.apis c.hyperfleet_api;
  broker = load s.brokers c.broker;
  message_data = load s.maps c.message_data;
  message_decision = load s.decisions c.message_decision;
  resource_selector = load s.selectors c.resource_selector;
  poll_interval = c.poll_interval;
  debug_config = c.debug_config;
  tracing_enabled = c.tracing_enabled;
}

-- Every address of the configuration is nil or of a cell.
pub record IsStored (s : Store) (c : StoredConfig) : Type 0 where
  pub api : IsIn c.hyperfleet_api s.apis
  pub broker : IsIn c.broker s.brokers
  pub data_map : IsIn c.message_data s.maps
  pub selector : IsIn c.resource_selector s.selectors

-- A write through a pointer of a configuration, to a cell that `RedactedCopy` copies.
pub data Update : Type 0 where
  set_api : HyperFleetApiConfig → Update
  set_broker : BrokerConfig → Update
  set_selectors : LabelSelectorList → Update
  set_message_data : Dict Entry → Update

abbrev pub update : Store → StoredConfig → Update → Store
update s c (set_api v) = record s { apis = store s.apis c.hyperfleet_api v }
update s c (set_broker v) = record s { brokers = store s.brokers c.broker v }
update s c (set_selectors v) = record s { selectors = store s.selectors c.resource_selector v }
update s c (set_message_data v) = record s { maps = store s.maps c.message_data v }

abbrev pub update_decision : Store → StoredConfig → MessageDecisionConfig → Store
update_decision s c v = record s { decisions = store s.decisions c.message_decision v }

-- RedactedCopy, of a configuration whose addresses are those of cells: the copy reads as the
-- original, the maps that its message data holds included, which are the same ones; the original
-- reads as before, also after a write through the copy to its API, its broker, its selectors or its
-- message data. After a write to the message decision through the copy,
-- the two still read the same decision.
pub redacted_copy_lem :
    (s : Store) (c : StoredConfig)
    → IsStored s c
    → let (copy, after) = redacted_copy s c in
      (contents after copy ≡ contents s c)
      × (contents after c ≡ contents s c)
      × ((u : Update) → contents (update after copy u) c ≡ contents s c)
      × ((v : MessageDecisionConfig)
          → (contents (update_decision after copy v) c).message_decision
            ≡ (contents (update_decision after copy v) copy).message_decision)
unfolding redacted_copy
redacted_copy_lem s c h =
    let (api, api', api_write) = copy_cell_lem s.apis c.hyperfleet_api h.api in
    let (broker, broker', broker_write) = copy_cell_lem s.brokers c.broker h.broker in
    let (maps, maps', maps_write) = copy_cell_lem s.maps c.message_data h.data_map in
    let (sel, sel', sel_write) = copy_cell_lem s.selectors c.resource_selector h.selector in
    (
      rw (api, broker, maps, sel) refl,
      rw (api', broker', maps', sel') refl,
      λ u.
          elim u
            as (λ u.
              contents (update (redacted_copy s c).1 (redacted_copy s c).0 u) c ≡ contents s c) [
                | set_api v ↦ rw (api_write v, broker', maps', sel') refl
                | set_broker v ↦ rw (api', broker_write v, maps', sel') refl
                | set_selectors v ↦ rw (api', broker', maps', sel_write v) refl
                | set_message_data v ↦ rw (api', broker', maps_write v, sel') refl
              ],
      λ v. refl,
    )
