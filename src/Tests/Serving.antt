-- ===== src/Tests/Serving.antt =====
-- A sentinel that is made of a configuration without a message decision.
use hyperfleet_sentinel.Base.{
  Option, lookup, map, ◌∷◌, ◌+++◌, String, ◌≡◌, refl, none, some, [], ok, insert, Fields, end,
}
use hyperfleet_sentinel.Config.{SentinelConfig, new_sentinel_config, default_message_decision}
use hyperfleet_sentinel.Config.Decision.{validate_decision}
use hyperfleet_sentinel.Config.Leaves.{validate_message_data_leaves}
use hyperfleet_sentinel.Config.Validation.{validate}
use hyperfleet_sentinel.Config.Loading.{Viper, load_config, merged, viper_key_mappings, env_prefix}
use hyperfleet_sentinel.Engine.{new_decision_engine}
use hyperfleet_sentinel.Payload.{new_builder}
use hyperfleet_sentinel.Payload.Tree.{end_nodes}
use hyperfleet_sentinel.Sentinel.{Sentinel, new_sentinel}
use hyperfleet_sentinel.Serve.Default.{new_sentinel-default}
use hyperfleet_sentinel.Tests.Default.{stroke_host, trees, created, new_decision_engine-default}
use hyperfleet_sentinel.Tests.Loading.{State, file_entries, viper, unmarshal, getenv, flags, loaded}

abbrev data_fields : Fields
data_fields = end

abbrev undecided : SentinelConfig → SentinelConfig
undecided cfg = record cfg { message_decision = none; message_data = some data_fields }

-- Without a message decision exactly when the file has none.
abbrev decides : Option String → SentinelConfig → SentinelConfig
decides none cfg = undecided cfg
decides (some text) cfg = cfg

abbrev unmarshal_decided : State → SentinelConfig → SentinelConfig
unfolding lookup
unmarshal_decided s base = decides (lookup "message_decision" s.entries) (unmarshal s base)

abbrev undecided_viper : Viper
undecided_viper = record viper { unmarshal_exact = λ s base. ok (unmarshal_decided s base) }

abbrev merged_state : State
merged_state = record {
  overrides = ("log::level", "debug") ∷ [];
  variables = map (λ p. (p.0, env_prefix +++ "_" +++ p.1)) viper_key_mappings;
  entries = file_entries;
}

abbrev served : SentinelConfig
served = record loaded {
  message_decision = some default_message_decision;
  message_data = some data_fields;
}

abbrev served_sentinel : Sentinel trees
served_sentinel = record {
  last_successful_poll = 0;
  config = served;
  decision_engine = created;
  payload_builder = some end_nodes;
}

served_loads : load_config undecided_viper stroke_host getenv "" flags ≡ ok served
unfolding load_config validate_message_data_leaves validate insert validate_decision
served_loads = refl

served_merges : merged undecided_viper getenv "" flags ≡ ok merged_state
unfolding merged insert
served_merges = refl

served_decodes :
    undecided_viper.unmarshal_exact merged_state new_sentinel_config
    ≡ ok (undecided (unmarshal merged_state new_sentinel_config))
unfolding unmarshal_decided
served_decodes = refl

served_built : new_sentinel stroke_host trees served created ≡ ok served_sentinel
unfolding new_sentinel new_builder
served_built = refl

new_sentinel-default_example :
    (served_sentinel.config ≡ served)
    × (served_sentinel.last_successful_poll ≡ 0)
    × (new_decision_engine stroke_host trees (some default_message_decision)
        ≡ ok (record served_sentinel.decision_engine { conditions_lookup = [] }))
new_sentinel-default_example =
    new_sentinel-default stroke_host trees undecided_viper getenv "" flags merged_state
      (undecided (unmarshal merged_state new_sentinel_config)) served created served_sentinel
      served_merges served_decodes refl served_loads new_decision_engine-default served_built
