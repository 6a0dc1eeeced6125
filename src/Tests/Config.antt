-- ===== src/Tests/Config.antt =====
-- The theorems of the configuration, for one that is valid and a leaf that is not.
use hyperfleet_sentinel.Base.{
  arith, pos, none, true, false, [], ◌∷◌, ◌≡◌, ◌↔◌, some, ok, Fields, end, field, str,
}
use hyperfleet_sentinel.Config.{MessageDecisionConfig}
use hyperfleet_sentinel.Config.Redaction.{leaf, nested, Store, StoredConfig, redacted_copy}
use hyperfleet_sentinel.Config.Redaction.Laws.{
  contents, IsStored, Update, update, update_decision, redacted_copy_lem,
}
use hyperfleet_sentinel.Config.Leaves.{
  validate_message_data_leaves, AllGiven, validate_message_data_leaves-eq-ok_iff,
}
use hyperfleet_sentinel.Config.Validation.{validate, IsValid}
use hyperfleet_sentinel.Config.Validation.Laws.{validate-eq-ok_iff}
use hyperfleet_sentinel.Tests.Data.{host, config, decision_config}

validate-eq-ok_iff_example : (validate host config ≡ ok tt) ↔ IsValid config
validate-eq-ok_iff_example = validate-eq-ok_iff host config

abbrev empty_leaf : Fields
empty_leaf = field "id" (str "") end

validate_message_data_leaves-eq-ok_iff_example :
    (validate_message_data_leaves empty_leaf "message_data" ≡ ok tt) ↔ AllGiven empty_leaf
validate_message_data_leaves-eq-ok_iff_example =
    validate_message_data_leaves-eq-ok_iff empty_leaf "message_data"

-- A broker and an API, a decision, no selectors, and message data with a map inside.
abbrev stored : Store
stored = record {
  apis = record { base_url = "https://api"; version = "v1"; timeout = pos 1 } ∷ [];
  brokers = record { topic = "" } ∷ record { topic = "events" } ∷ [];
  selectors = [];
  maps =
      (("count", leaf (str "1 + 1")) ∷ [])
      ∷ (("id", leaf (str "resource.id")) ∷ ("inner", nested 0) ∷ [])
      ∷ [];
  decisions = decision_config ∷ [];
}

abbrev stored_config : StoredConfig
stored_config = record {
  log = record { level = "info"; format = "json"; output = "stdout" };
  sentinel = record { name = "watcher" };
  resource_type = "clusters";
  hyperfleet_api = some 0;
  broker = some 1;
  message_data = some 1;
  message_decision = some 0;
  resource_selector = none;
  poll_interval = pos 1;
  debug_config = true;
  tracing_enabled = false;
}

stored_config-IsStored : IsStored stored stored_config
stored_config-IsStored = record {
  api = omega arith;
  broker = omega arith;
  data_map = omega arith;
  selector = tt;
}

redacted_copy_lem_example :
    let (copy, after) = redacted_copy stored stored_config in
    (contents after copy ≡ contents stored stored_config)
    × (contents after stored_config ≡ contents stored stored_config)
    × ((u : Update) → contents (update after copy u) stored_config ≡ contents stored stored_config)
    × ((v : MessageDecisionConfig)
        → (contents (update_decision after copy v) stored_config).message_decision
          ≡ (contents (update_decision after copy v) copy).message_decision)
redacted_copy_lem_example = redacted_copy_lem stored stored_config stored_config-IsStored
