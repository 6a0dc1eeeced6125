-- ===== src/Client/Fetch.antt =====
-- One fetch, without retries: `fetchResourcesOnce`, `fetchClusters`, `fetchNodePools`, and
-- `VerifyConnectivity`. The OpenAPI client is generated by the build: its items and responses are
-- records of the fields that the code reads, and its calls are the parameter `Api`.
pub mod Laws
use hyperfleet_sentinel.Base.{
  ℕ, String, Bool, true, false, not, ◌||◌, ◌&&◌, Option, none, some, List, [], ◌∷◌, Dict, ℤ, Time,
  Result, ok, err, leb, eqb, if◌then◌else◌, ◌+++◌, ◌==◌, decimal,
}
use hyperfleet_sentinel.Client.{
  OwnerReference, Condition, ResourceStatus, Resource, ApiError, Error, api, text,
  is_http_status_retriable, resource_type_clusters, resource_type_node_pools,
}
use hyperfleet_sentinel.Client.Search.{build_search_string, label_selector_to_search_string}

-- openapi.ResourceCondition, as far as it is read
pub record ApiCondition : Type 0 where
  pub type : String
  pub status : String
  pub last_transition_time : Time
  pub last_updated_time : Time
  pub observed_generation : ℤ
  pub reason : Option String
  pub message : Option String

pub record ApiOwner : Type 0 where
  pub id : Option String
  pub href : Option String
  pub kind : Option String

-- openapi.Cluster and openapi.NodePool; only a node pool's owner is read
pub record Item : Type 0 where
  pub id : Option String
  pub href : Option String
  pub kind : Option String
  pub generation : ℤ
  pub created_time : Time
  pub updated_time : Time
  pub labels : Option (Dict String)
  pub conditions : List ApiCondition
  pub owner_references : ApiOwner

-- `HTTPResponse.StatusCode`, if there is an HTTP response, and the items of `JSON200`
pub record Response : Type 0 where
  pub http_status : Option ℕ
  pub json200 : Option (List Item)

-- A transport error, and whether it is a `*url.Error` that timed out.
pub record CallError : Type 0 where
  pub timeout : Bool
  pub message : String

-- The generated client. The number counts the calls made before, so that each call may have its
-- own answer; the text is the search parameter, if one is sent.
pub record Api : Type 0 where
  pub get_clusters : ℕ → Option String → Result CallError Response
  pub get_node_pools : ℕ → Option String → Result CallError Response
  pub clusters_status : Option String → Result CallError (Option ℕ)

abbrev pub or_empty : Option String → String
or_empty none = ""
or_empty (some s) = s

unfoldable pub convert_condition : ApiCondition → Condition
convert_condition c = record {
  last_transition_time = c.last_transition_time;
  last_updated_time = c.last_updated_time;
  type = c.type;
  status = c.status;
  reason = or_empty c.reason;
  message = or_empty c.message;
  observed_generation = c.observed_generation;
}

unfoldable pub convert_conditions : List ApiCondition → List Condition
convert_conditions [] = []
convert_conditions (c ∷ cs) = convert_condition c ∷ convert_conditions cs

abbrev or_no_labels : Option (Dict String) → Dict String
or_no_labels none = []
or_no_labels (some labels) = labels

unfoldable pub convert_cluster : Item → Resource
convert_cluster item = record {
  created_time = item.created_time;
  updated_time = item.updated_time;
  labels = or_no_labels item.labels;
  owner_references = none;
  metadata = none;
  id = or_empty item.id;
  href = or_empty item.href;
  kind = or_empty item.kind;
  status = record { conditions = convert_conditions item.conditions };
  generation = item.generation;
}

unfoldable pub convert_owner : ApiOwner → Option OwnerReference
convert_owner owner =
    let ref : OwnerReference = record {
      id = or_empty owner.id;
      href = or_empty owner.href;
      kind = or_empty owner.kind;
    } in
    if not (ref.id == "") || not (ref.href == "") || not (ref.kind == "") then some ref else none

unfoldable pub convert_node_pool : Item → Resource
unfolding convert_cluster convert_owner
convert_node_pool item =
    let resource = convert_cluster item in
    record resource { owner_references = convert_owner item.owner_references }

unfoldable pub convert_items : (Item → Resource) → List Item → List Resource
convert_items convert [] = []
convert_items convert (item ∷ items) = convert item ∷ convert_items convert items

abbrev api_error : ℕ → String → Bool → Error
api_error status message retriable =
    api (record { message = message; status_code = status; retriable = retriable })

unfoldable pub call_error : CallError → Error
call_error e =
    if e.timeout
    then api_error 0 "request timeout" true
    else api_error 0 ("network error: " +++ e.message) true

-- `response.HTTPResponse != nil && response.HTTPResponse.StatusCode >= 400`
abbrev pub failed_status : Option ℕ → Option ℕ
failed_status none = none
failed_status (some code) = if leb 400 code then some code else none

unfoldable pub convert_body : (Item → Resource) → Option (List Item) → Result Error (List Resource)
convert_body convert none = err (api_error 0 "received nil response from API" false)
convert_body convert (some list) = ok (convert_items convert list)

-- What `fetchClusters` and `fetchNodePools` do with the answer of their call.
unfoldable pub read_response :
    (Item → Resource) → Result CallError Response → Result Error (List Resource)
unfolding convert_body call_error is_http_status_retriable
read_response convert (err e) = err (call_error e)
read_response convert (ok response) = elim (failed_status response.http_status) [
  | some code ↦ err (
      api_error code ("API request failed with status " +++ decimal code)
        (is_http_status_retriable code))
  | none ↦ convert_body convert response.json200
]

-- The parameter is sent only if it is not empty.
abbrev pub search_of : String → Option String
search_of search_param = if search_param == "" then none else some search_param

unfoldable pub fetch_clusters : Api → ℕ → String → Result Error (List Resource)
unfolding read_response
fetch_clusters c n search_param =
    read_response convert_cluster (c.get_clusters n (search_of search_param))

unfoldable pub fetch_node_pools : Api → ℕ → String → Result Error (List Resource)
unfolding read_response
fetch_node_pools c n search_param =
    read_response convert_node_pool (c.get_node_pools n (search_of search_param))

unfoldable pub fetch_resources_once :
    Api → ℕ → String → Dict String → List String → Result Error (List Resource)
fetch_resources_once c n resource_type label_selector additional_filters =
    let search_param = build_search_string label_selector additional_filters in
    if resource_type == resource_type_clusters
    then fetch_clusters c n search_param
    else if resource_type == resource_type_node_pools
    then fetch_node_pools c n search_param
    else err (text ("unsupported resource type: " +++ resource_type))

-- Whether the API answers, and if not, the error's text.
unfoldable pub verify_connectivity : Api → Option String
verify_connectivity c =
    elim (c.clusters_status
      (some (label_selector_to_search_string (("non_existing_label", "value") ∷ [])))) [
        | err e ↦ some ("an error occurred while fetching clusters: " +++ e.message)
        | ok none ↦ some "could not verify connectivity: received nil response"
        | ok (some code) ↦
            if eqb code 200
            then none
            else some ("could not verify connectivity: response status code " +++ decimal code)
      ]
