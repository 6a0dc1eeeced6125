-- ===== src/Client/Retry/Laws.antt =====
-- Which attempts are made, and what `FetchResources` makes of them.
use native.Mathlib.Decide.{dec_lt}
use hyperfleet_sentinel.Base.{
  Host, ℕ, ◌≡◌, refl, ◌<◌, String, true, false, List, Dict, Result, ok, err, arith, ◌≤◌, ◌↔◌, ◌⊎◌,
  inl, inr, Bool-cases, ◌==◌, if◌then◌else◌, ◌+++◌,
}
use hyperfleet_sentinel.Client.{Resource, Error, is_retriable, wrapped, as_api_error}
use hyperfleet_sentinel.Client.Search.{build_search_string}
use hyperfleet_sentinel.Client.Fetch.{
  Api, fetch_resources_once, Response, CallError, search_of, fetch_clusters, fetch_node_pools,
  convert_cluster, convert_node_pool,
}
use hyperfleet_sentinel.Client.Fetch.Laws.{IsTransient, is_retriable-read_response_iff}
use hyperfleet_sentinel.Client.Retry.{
  success, transient, Backoff, IsBackoff, classify, operation, is_known_type, fetch_resources,
}

classify-success :
    (r : Result Error (List Resource)) (rs : List Resource) → classify r ≡ success rs → r ≡ ok rs
unfolding classify
classify-success r rs h = ground arith

classify-transient :
    (r : Result Error (List Resource)) (e : Error)
    → classify r ≡ transient e
    → (r ≡ err e) × (is_retriable e ≡ true)
unfolding classify
classify-transient r e h = ground arith

classify-ok :
    (r : Result Error (List Resource)) (rs : List Resource) → r ≡ ok rs → classify r ≡ success rs
unfolding classify
classify-ok r rs h = rw h

module _ (b : Backoff) (lawful : IsBackoff b) (c : Api) (resource_type : String)
    (selector : Dict String) (filters : List String) where
  abbrev pub once : ℕ → Result Error (List Resource)
  once n = fetch_resources_once c n resource_type selector filters

  abbrev pub last : ℕ
  last = (b.retry (operation c resource_type selector filters)).last

  -- With a backoff library that behaves as documented, every attempt but the last failed with a
  -- retriable error.
  pub earlier_attempts_retriable :
      (i : ℕ) → i < last → (e : Error) × (once i ≡ err e) × (is_retriable e ≡ true)
  unfolding operation
  earlier_attempts_retriable i h =
      let (e, failed) = lawful.earlier (operation c resource_type selector filters) i h in
      let (same, retriable) = classify-transient (once i) e failed in (e, same, retriable)

  -- With a backoff library that behaves as documented, no attempt is made after one that
  -- succeeded, or failed with an error that is not retriable.
  pub last-le : (n : ℕ) → ((e : Error) → once n ≡ err e → is_retriable e ≡ false) → last ≤ n
  last-le n settled = elim (dec_lt n last) [
    | no stop ↦ omega arith
    | yes more ↦
        let (e, failed, retriable) = earlier_attempts_retriable n more in
        absurd (cc (settled e failed))
  ]

  -- The answer of the API to an attempt's call.
  abbrev pub answer : ℕ → Result CallError Response
  answer n =
      let q = search_of (build_search_string selector filters) in
      if resource_type == "clusters" then c.get_clusters n q else c.get_node_pools n q

  once-retriable :
      (n : ℕ) (e : Error)
      → is_known_type resource_type ≡ true
      → once n ≡ err e
      → (is_retriable e ≡ true) ↔ IsTransient (answer n)
  unfolding fetch_resources_once fetch_clusters fetch_node_pools is_known_type
  once-retriable n e known failed = elim (Bool-cases (resource_type == "clusters")) [
    | inl same ↦ rw same (is_retriable-read_response_iff convert_cluster _ e (rw same at failed))
    | inr other ↦
        let node_pools : (resource_type == "nodepools") ≡ true = rw other at known in
        rw other
          (is_retriable-read_response_iff convert_node_pool _ e (rw (other, node_pools) at failed))
  ]

  -- What the caller gets for the outcome of the last attempt: its resources, or an error, which
  -- is the attempt's own API error unless the API's answer was a transient failure.
  abbrev pub Settles :
      Result CallError Response
      → Result Error (List Resource)
      → Result Error (List Resource)
      → Type 0
  Settles called (ok rs) result = result ≡ ok rs
  Settles called (err e) result =
      (f : Error) × (result ≡ err f) × (IsTransient called ⊎ (as_api_error f ≡ as_api_error e))

  last-Settles :
      (host : Host) (r : Result Error (List Resource))
      → is_known_type resource_type ≡ true
      → once last ≡ r
      → Settles (answer last) r (fetch_resources host b c resource_type selector filters)
  unfolding fetch_resources operation classify as_api_error
  last-Settles host (ok rs) known same =
      let r = lawful.on_success (operation c resource_type selector filters) rs (rw same refl) in
      rw (known, r) refl
  last-Settles host (err e) known same =
      let message = "failed to fetch " +++ resource_type +++ " after retries" in
      elim (Bool-cases (is_retriable e)) [
        | inl retriable ↦
            let (f, r) =
              lawful.on_transient (operation c resource_type selector filters) e
                (rw (same, retriable) refl) in
            (
              wrapped message f,
              rw (known, r) refl,
              inl ((once-retriable last e known same).0 retriable),
            )
        | inr final ↦
            let (f, r, holds) =
              lawful.on_permanent (operation c resource_type selector filters) e
                (rw (same, final) refl) in
            (wrapped message f, rw (known, r) refl, inr holds)
      ]

  known_types :
      (resource_type ≡ "clusters") ⊎ (resource_type ≡ "nodepools")
      → is_known_type resource_type ≡ true
  unfolding is_known_type
  known_types (inl same) = rw same refl
  known_types (inr same) = rw same refl

  -- For the resource types "clusters" and "nodepools", and with a backoff library that behaves as documented, each attempt
  -- that `FetchResources` makes is either followed by another, and then its call failed, or was
  -- answered by the status 408, 429 or 500 to 599; or it is the last, and then the caller gets
  -- the resources that it fetched, or, if it failed, an error, which holds the API error of that
  -- attempt unless the failure was one of those above.
  pub fetch_resources_lem :
      (host : Host) (n : ℕ)
      → (resource_type ≡ "clusters") ⊎ (resource_type ≡ "nodepools")
      → n ≤ last
      → ((n < last) × IsTransient (answer n))
        ⊎ ((n ≡ last)
            × Settles (answer n) (once n) (fetch_resources host b c resource_type selector filters))
  fetch_resources_lem host n type made =
      let known = known_types type in
      elim (dec_lt n last) [
        | yes more ↦
            let (e, failed, retriable) = earlier_attempts_retriable n more in
            inl (more, (once-retriable n e known failed).0 retriable)
        | no stop ↦
            let same : n ≡ last = omega arith in
            inr (same, rw same (last-Settles host (once last) known refl))
      ]
