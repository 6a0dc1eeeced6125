-- ===== src/Client.antt =====
-- internal/client/client.go: the resources that the HyperFleet API returns, and its errors.
-- The children model the search parameter, one fetch, and the retries.
pub mod Search
pub mod Fetch
pub mod Creation
pub mod Retry
use hyperfleet_sentinel.Base.{
  ℕ, ◌||◌, ◌&&◌, String, Bool, true, false, Option, none, some, List, Dict, ℤ, Fields, Time, leb,
  ltb, eqb, if◌then◌else◌, ◌+++◌, decimal,
}

abbrev pub resource_type_clusters : String
resource_type_clusters = "clusters"

abbrev pub resource_type_node_pools : String
resource_type_node_pools = "nodepools"

pub record OwnerReference : Type 0 where
  pub id : String
  pub href : String
  pub kind : String

pub record Condition : Type 0 where
  pub last_transition_time : Time
  pub last_updated_time : Time
  pub type : String
  pub status : String
  pub reason : String
  pub message : String
  pub observed_generation : ℤ

pub record ResourceStatus : Type 0 where
  pub conditions : List Condition

-- A nil map of labels is the empty one: the program only ranges over it and takes its length.
pub record Resource : Type 0 where
  pub created_time : Time
  pub updated_time : Time
  pub labels : Dict String
  pub owner_references : Option OwnerReference
  pub metadata : Option Fields
  pub id : String
  pub href : String
  pub kind : String
  pub status : ResourceStatus
  pub generation : ℤ

pub record ApiError : Type 0 where
  pub message : String
  pub status_code : ℕ
  pub retriable : Bool

-- An `error` of this package: an `*APIError`, a text, or either behind `fmt.Errorf("…: %w")`.
pub data Error : Type 0 where
  api : ApiError → Error
  text : String → Error
  wrapped : String → Error → Error

-- (*APIError).Error
unfoldable pub api_error_text : ApiError → String
api_error_text e =
    if ltb 0 e.status_code
    then "API error (status " +++ decimal e.status_code +++ "): " +++ e.message
    else e.message

unfoldable pub error_text : Error → String
unfolding api_error_text
error_text (api e) = api_error_text e
error_text (text m) = m
error_text (wrapped m e) = m +++ ": " +++ error_text e

-- errors.As(err, &apiErr)
unfoldable pub as_api_error : Error → Option ApiError
as_api_error (api e) = some e
as_api_error (text m) = none
as_api_error (wrapped m e) = as_api_error e

unfoldable pub is_retriable : Error → Bool
unfolding as_api_error
is_retriable err = elim (as_api_error err) [ none ↦ false | some e ↦ e.retriable ]

unfoldable pub is_http_status_retriable : ℕ → Bool
is_http_status_retriable status_code =
    if leb 500 status_code && ltb status_code 600
    then true
    else if eqb status_code 429
    then true
    else if eqb status_code 408
    then true
    else false
