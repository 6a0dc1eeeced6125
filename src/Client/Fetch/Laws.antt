-- ===== src/Client/Fetch/Laws.antt =====
-- What a fetch returns and which of its failures are retried.
use hyperfleet_sentinel.Base.{
  ℕ, ◌≤◌, ◌<◌, ◌≡◌, refl, ap, ◌↔◌, ◌⊎◌, inl, inr, true, Option, none, some, List, [], ◌∷◌, map,
  ◌==◌, Result, ok, err, arith, eq_iff, Option-cases, String, err≢ok, err_inj, Dict, Bool-cases,
  ◌≢◌, sym, ◌∙◌,
}
use hyperfleet_sentinel.Client.Search.{build_search_string}
use hyperfleet_sentinel.Client.{Resource, Error, is_retriable, is_http_status_retriable}
use hyperfleet_sentinel.Client.Fetch.{
  Item, Response, CallError, Api, fetch_resources_once, fetch_clusters, fetch_node_pools, search_of,
  failed_status, convert_items, convert_cluster, convert_owner, convert_node_pool, call_error,
  convert_body, read_response, or_empty,
}

convert_items-map : (f : Item → Resource) (items : List Item) → convert_items f items ≡ map f items
unfolding convert_items
convert_items-map f [] = refl
convert_items-map f (item ∷ items) = ap (λ l. f item ∷ l) (convert_items-map f items)

-- There is no HTTP status, or it is below 400.
abbrev pub IsAccepted : Option ℕ → Type 0
IsAccepted none = Unit
IsAccepted (some code) = code < 400

failed_status-none_iff : (status : Option ℕ) → (failed_status status ≡ none) ↔ IsAccepted status
failed_status-none_iff none = (λ h. tt, λ h. refl)
failed_status-none_iff (some code) = (λ h. ground arith, λ h. ground arith)

-- A body was returned, the status is no error, and the result has one resource for each item.
pub record IsFetched (f : Item → Resource) (called : Result CallError Response) (rs : List Resource)
    : Type 0 where
  pub response : Response
  pub items : List Item
  pub returned : called ≡ ok response
  pub accepted : IsAccepted response.http_status
  pub body : response.json200 ≡ some items
  pub converted : rs ≡ map f items

convert_body-eq-ok :
    (f : Item → Resource) (body : Option (List Item)) (rs : List Resource)
    → convert_body f body ≡ ok rs
    → (items : List Item) × (body ≡ some items) × (rs ≡ map f items)
unfolding convert_body
convert_body-eq-ok f none rs h = cc
convert_body-eq-ok f (some items) rs h = (items, refl, cc (convert_items-map f items))

ok-IsFetched :
    (f : Item → Resource) (response : Response) (rs : List Resource)
    → read_response f (ok response) ≡ ok rs
    → IsFetched f (ok response) rs
unfolding read_response
ok-IsFetched f response rs h = elim (Option-cases (failed_status response.http_status)) [
  | inl accepted ↦
      let (items, body, converted) =
        convert_body-eq-ok f response.json200 rs (rw (accepted, read_response) at h) in
      record {
        response = response;
        items = items;
        returned = refl;
        accepted = (failed_status-none_iff response.http_status).0 accepted;
        body = body;
        converted = converted;
      }
  | inr (code, refused) ↦ absurd (err≢ok (rw (refused, read_response) at h))
]

IsFetched-ok :
    (f : Item → Resource) (status : Option ℕ) (items : List Item)
    → IsAccepted status
    → read_response f (ok (record { http_status = status; json200 = some items }))
      ≡ ok (map f items)
unfolding read_response convert_body
IsFetched-ok f none items accepted = ap ok (convert_items-map f items)
IsFetched-ok f (some code) items accepted = ground (arith, convert_items-map f items)

pub read_response-eq-ok_iff :
    (f : Item → Resource) (called : Result CallError Response) (rs : List Resource)
    → (read_response f called ≡ ok rs) ↔ IsFetched f called rs
unfolding read_response
read_response-eq-ok_iff f (err e) rs = (λ h. cc, λ h. cc (h.returned))
read_response-eq-ok_iff f (ok response) rs = (
  ok-IsFetched f response rs,
  λ h.
      ap (read_response f) h.returned
      ∙ ap
          (λ b. read_response f (ok (record { http_status = h.response.http_status; json200 = b })))
          h.body
      ∙ IsFetched-ok f h.response.http_status h.items h.accepted
      ∙ ap ok (sym h.converted),
)

-- The transient failures: the call itself failed, or the status is 408, 429 or 5xx.
abbrev pub IsTransientStatus : Option ℕ → Type 0
IsTransientStatus none = ⊥
IsTransientStatus (some code) = (code ≡ 408) ⊎ (code ≡ 429) ⊎ ((500 ≤ code) × (code < 600))

abbrev pub IsTransient : Result CallError Response → Type 0
IsTransient (err e) = Unit
IsTransient (ok response) = IsTransientStatus response.http_status

is_retriable-call_error : (e : CallError) → is_retriable (call_error e) ≡ true
unfolding is_retriable call_error
is_retriable-call_error e = ground arith

is_http_status_retriable_iff :
    (code : ℕ) → (is_http_status_retriable code ≡ true) ↔ IsTransientStatus (some code)
unfolding is_http_status_retriable
is_http_status_retriable_iff code = (λ h. ground arith, λ h. ground arith)

-- A refused status or a missing body, as an error.
status_error_iff :
    (f : Item → Resource) (status : Option ℕ) (body : Option (List Item)) (e : Error)
    → read_response f (ok (record { http_status = status; json200 = body })) ≡ err e
    → (is_retriable e ≡ true) ↔ IsTransientStatus status
unfolding read_response is_retriable convert_body is_http_status_retriable
status_error_iff f none none e h = (λ r. ground arith, λ r. absurd r)
status_error_iff f none (some items) e h = cc
status_error_iff f (some code) none e h = (λ r. ground arith, λ r. ground arith)
status_error_iff f (some code) (some items) e h = (λ r. ground arith, λ r. ground arith)

-- When an answer of the API ends in an error, the error is retriable exactly when the call itself
-- failed, or the HTTP status is 408, 429 or from 500 to 599.
pub is_retriable-read_response_iff :
    (f : Item → Resource) (called : Result CallError Response) (e : Error)
    → read_response f called ≡ err e
    → (is_retriable e ≡ true) ↔ IsTransient called
unfolding read_response
is_retriable-read_response_iff f (err x) e h =
    (λ _. tt, λ _. rw (err_inj h) at (is_retriable-call_error x))
is_retriable-read_response_iff f (ok response) e h =
    status_error_iff f response.http_status response.json200 e h

clusters≢nodepools : ◌≢◌ {A = String} "clusters" "nodepools"
clusters≢nodepools = ground (arith, eq_iff "clusters" "nodepools")

-- A single fetch succeeds with some resources exactly when the type is "clusters" or "nodepools",
-- that endpoint, asked with the search string of the selector and the filters (none if it is
-- empty), answered with a body and a status below 400, and the resources are the conversions of
-- the body's items, one for each item in the body's order.
pub fetch_resources_once-eq-ok_iff :
    (c : Api) (n : ℕ) (resource_type : String) (selector : Dict String) (filters : List String)
    (rs : List Resource)
    → (fetch_resources_once c n resource_type selector filters ≡ ok rs) ↔ (
        ((resource_type ≡ "clusters")
          × IsFetched convert_cluster
              (c.get_clusters n (search_of (build_search_string selector filters)))
              rs)
        ⊎ ((resource_type ≡ "nodepools")
            × IsFetched convert_node_pool
                (c.get_node_pools n (search_of (build_search_string selector filters)))
                rs))
unfolding fetch_resources_once fetch_clusters fetch_node_pools
fetch_resources_once-eq-ok_iff c n resource_type selector filters rs =
    let q = search_of (build_search_string selector filters) in
    let clusters = read_response-eq-ok_iff convert_cluster (c.get_clusters n q) rs in
    let node_pools = read_response-eq-ok_iff convert_node_pool (c.get_node_pools n q) rs in
    elim (Bool-cases (resource_type == "clusters")) [
      | inl same ↦ rw same (
        λ h. inl ((eq_iff _ _).0 same, clusters.0 h),
        elim [
          | inl h ↦ clusters.1 h.1
          | inr h ↦ absurd (clusters≢nodepools ((sym ((eq_iff _ _).0 same)) ∙ h.0))
        ],
      )
      | inr other ↦ elim (Bool-cases (resource_type == "nodepools")) [
        | inl same ↦
            rw (other, same)
              (
                λ h. inr ((eq_iff _ _).0 same, node_pools.0 h),
                elim [
                  | inl h ↦ absurd (clusters≢nodepools (sym h.0 ∙ (eq_iff _ _).0 same))
                  | inr h ↦ node_pools.1 h.1
                ],
              )
        | inr neither ↦
            rw (other, neither)
              (
                λ h. absurd (err≢ok h),
                elim [ inl h ↦ cc ((eq_iff _ _).1 h.0) | inr h ↦ cc ((eq_iff _ _).1 h.0) ],
              )
      ]
    ]

-- A node pool's resource is a cluster's but for the owner, which is left out exactly when its
-- three fields are all missing or empty.
pub convert_node_pool_lem :
    (item : Item)
    → (record (convert_node_pool item) { owner_references = none } ≡ convert_cluster item)
      × ((convert_owner item.owner_references ≡ none) ↔ (
          (or_empty item.owner_references.id ≡ "")
          × (or_empty item.owner_references.href ≡ "")
          × (or_empty item.owner_references.kind ≡ "")))
unfolding convert_node_pool convert_cluster convert_owner
convert_node_pool_lem item =
    let o = item.owner_references in
    let a = eq_iff (or_empty o.id) "" in
    let b = eq_iff (or_empty o.href) "" in
    let c = eq_iff (or_empty o.kind) "" in
    (refl, (λ h. ground (arith, a, b, c), λ h. ground (arith, a, b, c)))
