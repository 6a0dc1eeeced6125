-- ===== src/Tests/Client.antt =====
-- The theorems of the API client, for a cluster fetch that times out once.
use mathlib.Core.List.{Permᴰ}
use hyperfleet_sentinel.Base.{
  Host, String, ◌≡◌, ◌↔◌, ◌⊎◌, inl, inr, ◌<◌, ◌≤◌, refl, true, false, some, List, [], ◌∷◌, Dict,
  length, All, ok, err, arith, map,
}
use hyperfleet_sentinel.Client.{Resource, Error, is_retriable, as_api_error}
use hyperfleet_sentinel.Client.Search.{label_selector_to_search_string}
use hyperfleet_sentinel.Client.Search.Order.{label_selector_to_search_string-perm}
use hyperfleet_sentinel.Client.Search.Reader.{NoEquals, read_query}
use hyperfleet_sentinel.Client.Search.Query.{read_query-label_selector_to_search_string}
use hyperfleet_sentinel.Client.Fetch.{
  convert_cluster, convert_node_pool, convert_items, convert_body, call_error, read_response,
  fetch_clusters, fetch_resources_once,
}
use hyperfleet_sentinel.Client.Fetch.Laws.{
  IsFetched, IsTransient, is_retriable-read_response_iff, fetch_resources_once-eq-ok_iff,
}
use hyperfleet_sentinel.Client.Retry.{classify, operation, fetch_resources}
use hyperfleet_sentinel.Client.Retry.Laws.{fetch_resources_lem, last, answer, Settles}
use hyperfleet_sentinel.Tests.Data.{host, twice, twice-IsBackoff, api, item, answered, timed_out}

abbrev pub entries : Dict String
entries = ("region", "us") ∷ ("tier", "o'neil") ∷ []

abbrev pub fetched : List Resource
fetched = map convert_cluster (item "c1" ∷ item "" ∷ [])

label_selector_to_search_string-perm_example :
    label_selector_to_search_string (("region", "us") ∷ ("tier", "o'neil") ∷ [])
    ≡ label_selector_to_search_string (("tier", "o'neil") ∷ ("region", "us") ∷ [])
label_selector_to_search_string-perm_example =
    label_selector_to_search_string-perm (("region", "us") ∷ ("tier", "o'neil") ∷ [])
      (("tier", "o'neil") ∷ ("region", "us") ∷ []) (Permᴰ.swap refl refl)

entries-NoEquals : All (λ x. NoEquals x.0) entries
entries-NoEquals =
    ((refl, (refl, (refl, (refl, (refl, (refl, tt)))))), ((refl, (refl, (refl, (refl, tt)))), tt))

read_query-label_selector_to_search_string_example :
    (es : Dict String) × Permᴰ es entries
    × (read_query (length entries) (label_selector_to_search_string entries) ≡ some es)
read_query-label_selector_to_search_string_example =
    read_query-label_selector_to_search_string entries (omega arith) entries-NoEquals

fetch_resources_once-eq-ok_iff_example :
    (fetch_resources_once api 1 "clusters" entries [] ≡ ok fetched) ↔ (
      ((◌≡◌ {A = String} "clusters" "clusters") × IsFetched convert_cluster (ok answered) fetched)
      ⊎ ((◌≡◌ {A = String} "clusters" "nodepools")
          × IsFetched convert_node_pool (err timed_out) fetched))
fetch_resources_once-eq-ok_iff_example =
    fetch_resources_once-eq-ok_iff api 1 "clusters" entries [] fetched

timed_out_response : read_response convert_cluster (err timed_out) ≡ err (call_error timed_out)
unfolding read_response
timed_out_response = refl

is_retriable-read_response_iff_example :
    (is_retriable (call_error timed_out) ≡ true) ↔ IsTransient (err timed_out)
is_retriable-read_response_iff_example =
    is_retriable-read_response_iff convert_cluster (err timed_out) (call_error timed_out)
      timed_out_response

first_times_out : fetch_resources_once api 0 "clusters" entries [] ≡ err (call_error timed_out)
unfolding fetch_resources_once fetch_clusters read_response
first_times_out = refl

timeout_retriable : is_retriable (call_error timed_out) ≡ true
unfolding is_retriable call_error as_api_error
timeout_retriable = refl

pub second_fetches : fetch_resources_once api 1 "clusters" entries [] ≡ ok fetched
unfolding fetch_resources_once fetch_clusters read_response convert_items convert_body
second_fetches = refl

last_is_one : (twice.retry (operation api "clusters" entries [])).last ≡ 1
unfolding operation classify
last_is_one = rw (first_times_out, timeout_retriable) refl

settled :
    (e : Error) → fetch_resources_once api 1 "clusters" entries [] ≡ err e → is_retriable e ≡ false
settled e h = cc second_fetches

one_made : 1 ≤ (twice.retry (operation api "clusters" entries [])).last
one_made = rw last_is_one (omega arith)

fetch_resources_lem_example :
    let made = last twice twice-IsBackoff api "clusters" entries [] in
    let called = answer twice twice-IsBackoff api "clusters" entries [] 1 in
    ((1 < made) × IsTransient called)
    ⊎ ((1 ≡ made)
        × Settles twice twice-IsBackoff api "clusters" entries [] called
            (fetch_resources_once api 1 "clusters" entries [])
            (fetch_resources host twice api "clusters" entries []))
fetch_resources_lem_example =
    fetch_resources_lem twice twice-IsBackoff api "clusters" entries [] host 1 (inl refl) one_made

pub clusters_fetched : (h : Host) → fetch_resources h twice api "clusters" entries [] ≡ ok fetched
clusters_fetched h =
    elim (fetch_resources_lem twice twice-IsBackoff api "clusters" entries [] h 1 (inl refl)
      one_made) [
        | inl (more, _) ↦ absurd (omega (arith, more, last_is_one))
        | inr (_, settles) ↦ rw second_fetches at settles
      ]
