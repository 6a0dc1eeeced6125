-- ===== src/Client/Retry.antt =====
-- `FetchResources`: the fetch under exponential backoff. The backoff library is the parameter
-- `Backoff`: it is given the operation, as the outcome of each attempt, and says how many
-- attempts it made and what it returned. Its laws are what its documentation says.
pub mod Laws
use hyperfleet_sentinel.Base.{
  Host, ℕ, suc, ◌<◌, ◌≡◌, String, Bool, true, false, List, [], ◌∷◌, Dict, Result, ok, err, map_err,
  ◌||◌, ◌==◌, if◌then◌else◌, ◌+++◌,
}
use hyperfleet_sentinel.Client.{
  Resource, Error, text, wrapped, as_api_error, is_retriable, resource_type_clusters,
  resource_type_node_pools,
}
use hyperfleet_sentinel.Client.Fetch.{Api, fetch_resources_once}

-- What one call of the operation returns: a value, an error, or `backoff.Permanent` of an error.
pub data Attempt : Type 0 where
  success : List Resource → Attempt
  transient : Error → Attempt
  permanent : Error → Attempt

-- What `backoff.Retry` did: the last attempt's number, counted from 0, and the result.
pub record Retried : Type 0 where
  pub last : ℕ
  pub result : Result Error (List Resource)

pub record Backoff : Type 0 where
  pub retry : (ℕ → Attempt) → Retried

-- The documented behaviour of `backoff.Retry`: it calls the operation again only after an error
-- that is not permanent, and returns the last value, the permanent error
-- (bare or wrapped) or some error. When it gives up is left open.
pub record IsBackoff (b : Backoff) : Type 0 where
  pub earlier :
      (op : ℕ → Attempt) (i : ℕ) → i < (b.retry op).last → (e : Error) × (op i ≡ transient e)
  pub on_success :
      (op : ℕ → Attempt) (rs : List Resource)
      → op (b.retry op).last ≡ success rs
      → (b.retry op).result ≡ ok rs
  pub on_permanent :
      (op : ℕ → Attempt) (e : Error)
      → op (b.retry op).last ≡ permanent e
      → (f : Error) × ((b.retry op).result ≡ err f) × (as_api_error f ≡ as_api_error e)
  pub on_transient :
      (op : ℕ → Attempt) (e : Error)
      → op (b.retry op).last ≡ transient e
      → (f : Error) × ((b.retry op).result ≡ err f)

-- The closure `operation`, on the answer of its fetch.
unfoldable pub classify : Result Error (List Resource) → Attempt
classify (ok resources) = success resources
classify (err e) = if is_retriable e then transient e else permanent e

unfoldable pub operation : Api → String → Dict String → List String → ℕ → Attempt
unfolding classify
operation c resource_type label_selector additional_filters n =
    classify (fetch_resources_once c n resource_type label_selector additional_filters)

-- The switch on the resource type.
unfoldable pub is_known_type : String → Bool
is_known_type resource_type =
    resource_type == resource_type_clusters || resource_type == resource_type_node_pools

unfoldable pub fetch_resources :
    Host → Backoff → Api → String → Dict String → List String → Result Error (List Resource)
unfolding is_known_type
fetch_resources host b c resource_type label_selector additional_filters =
    if is_known_type resource_type
    then map_err (wrapped ("failed to fetch " +++ resource_type +++ " after retries"))
        (b.retry (operation c resource_type label_selector additional_filters)).result
    else err (
        text (
          "invalid resourceType: "
          +++ host.quote resource_type
          +++ " (must be one of: "
          +++ host.quote resource_type_clusters
          +++ ", "
          +++ host.quote resource_type_node_pools
          +++ ")"))
