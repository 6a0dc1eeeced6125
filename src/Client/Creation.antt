-- ===== src/Client/Creation.antt =====
-- `NewHyperFleetClient`, over `NewClientWithResponses` of the generated client.
use hyperfleet_sentinel.Base.{String, Result, map_err, ◌+++◌, Duration}
use hyperfleet_sentinel.Client.Fetch.{Api}

-- What the options set: the client's timeout, and the header that every request gets.
pub record ClientOptions : Type 0 where
  pub endpoint : String
  pub timeout : Duration
  pub user_agent : String

abbrev pub NewClientWithResponses : Type 0
NewClientWithResponses = ClientOptions → Result String Api

unfoldable pub new_hyperfleet_client :
    NewClientWithResponses → String → Duration → String → String → Result String Api
new_hyperfleet_client new_client endpoint timeout sentinel_name version =
    map_err (λ e. "failed to create OpenAPI client: " +++ e)
      (new_client (record {
        endpoint = endpoint;
        timeout = timeout;
        user_agent = "hyperfleet-sentinel/" +++ version +++ " (" +++ sentinel_name +++ ")";
      }))
