-- ===== src/Config/Validation.antt =====
-- `SentinelConfig.Validate` and the texts of its errors.
pub mod Laws
use hyperfleet_sentinel.Base.{
  String, ◌≡◌, ◌≢◌, ◌↔◌, ◌⊎◌, refl, Bool, true, false, not, Option, none, some, List, [], ◌∷◌,
  Result, ok, err, arith, ◌==◌, eq_iff, if◌then◌else◌, ◌+++◌, Host, Fields, is_positive, map_err,
  ◌>>◌, ◌>>=◌, join, Bool-cases, inl, inr, err≢ok, Dict, lookup,
}
use hyperfleet_sentinel.Config.{
  SentinelConfig, MessageDecisionConfig, HyperFleetApiConfig, contains,
}
use hyperfleet_sentinel.Config.Decision.{validate_decision, IsWellFormed}
use hyperfleet_sentinel.Config.Leaves.{validate_message_data_leaves, AllGiven}

pub record FieldRemediation : Type 0 where
  pub flag : String
  pub env : String
  pub file : String

abbrev remediation : String → String → String → FieldRemediation
remediation flag env file = record { flag = flag; env = env; file = file }

abbrev pub field_remediations : Dict FieldRemediation
field_remediations =
    ("sentinel.name", remediation "--name" "HYPERFLEET_SENTINEL_NAME" "sentinel.name")
    ∷ ("resource_type", remediation "--resource-type" "HYPERFLEET_RESOURCE_TYPE" "resource_type")
    ∷ ("clients.hyperfleet_api", remediation "" "" "clients.hyperfleet_api")
    ∷ (
      "clients.hyperfleet_api.base_url",
      remediation "--hyperfleet-api-base-url" "HYPERFLEET_API_BASE_URL"
          "clients.hyperfleet_api.base_url",
    )
    ∷ ("poll_interval", remediation "--poll-interval" "HYPERFLEET_POLL_INTERVAL" "poll_interval")
    ∷ ("message_decision", remediation "" "" "message_decision")
    ∷ ("message_data", remediation "" "" "message_data")
    ∷ (
      "tracing_enabled",
      remediation "--tracing-enabled" "HYPERFLEET_TRACING_ENABLED" "tracing_enabled",
    )
    ∷ []

abbrev hint : String → String → String
hint name value = if value == "" then "" else "  • " +++ name +++ value +++ "\n"

abbrev hints : Option FieldRemediation → String
hints none = ""
hints (some rem) = hint "Flag: " rem.flag +++ hint "Env:  " rem.env +++ hint "File: " rem.file

-- The optional actual value is the empty text where the call gives none.
unfoldable pub validation_err : String → String → String → String
unfolding lookup
validation_err name reason actual_value =
    "Field '"
    +++ name
    +++ "' failed validation: "
    +++ reason
    +++ "\n"
    +++ (if actual_value == "" then "" else "  Actual value: " +++ actual_value +++ "\n")
    +++ "Please provide via:\n"
    +++ hints (lookup name field_remediations)

abbrev pub valid_resource_types : List String
valid_resource_types = "clusters" ∷ "nodepools" ∷ []

-- `if failed { return err }`
abbrev reject_if : Bool → String → Result String (Unit {0})
reject_if true e = err e
reject_if false e = ok tt

module _ (host : Host) where
  validate_api : Option HyperFleetApiConfig → Result String (Unit {0})
  unfolding validation_err
  validate_api none = err (validation_err "clients.hyperfleet_api" "required" "")
  validate_api (some api) =
      reject_if (api.base_url == "")
        (validation_err "clients.hyperfleet_api.base_url" "required" "")

  validate_message_decision : Option MessageDecisionConfig → Result String (Unit {0})
  validate_message_decision none = err (validation_err "message_decision" "required" "")
  validate_message_decision (some md) =
      map_err (λ e. "message_decision: " +++ e) (validate_decision host md)

  validate_message_data : Option Fields → Result String (Unit {0})
  validate_message_data none = err (validation_err "message_data" "required" "")
  validate_message_data (some md) = validate_message_data_leaves md "message_data"

  unfoldable pub validate : SentinelConfig → Result String (Unit {0})
  unfolding validate_api validate_message_decision validate_message_data contains
  validate c = do
    reject_if (c.sentinel.name == "") (validation_err "sentinel.name" "required" "")
    reject_if (c.resource_type == "") (validation_err "resource_type" "required" "")
    reject_if (not (contains valid_resource_types c.resource_type)) (
        validation_err "resource_type"
          ("invalid value "
            +++ host.quote c.resource_type
            +++ " (must be one of: "
            +++ join ", " valid_resource_types
            +++ ")")
          "")
    validate_api c.clients.hyperfleet_api
    reject_if (not (is_positive c.poll_interval))
        (validation_err "poll_interval" "must be positive" (host.format_duration c.poll_interval))
    validate_message_decision c.message_decision
    validate_message_data c.message_data

-- A configuration that the service can run with.
pub record IsValid (c : SentinelConfig) : Type 0 where
  pub named : c.sentinel.name ≢ ""
  pub typed : (c.resource_type ≡ "clusters") ⊎ (c.resource_type ≡ "nodepools")
  pub api : HyperFleetApiConfig
  pub has_api : c.clients.hyperfleet_api ≡ some api
  pub has_url : api.base_url ≢ ""
  pub polls : is_positive c.poll_interval ≡ true
  pub decision : MessageDecisionConfig
  pub has_decision : c.message_decision ≡ some decision
  pub decides : IsWellFormed decision
  pub message_data : Fields
  pub has_data : c.message_data ≡ some message_data
  pub leaves : AllGiven message_data
