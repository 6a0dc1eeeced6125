-- ===== src/Sentinel/Totals.antt =====
-- The counters over a whole run of `Start`.
use hyperfleet_sentinel.Base.{
  ℕ, ◌+◌, String, ◌≡◌, ◌≢◌, refl, false, List, [], ◌∷◌, ◌++◌, map, Result, ok, err, arith, Host,
  ◌==◌, eq_iff, Bool-cases, inl, inr, ◌||◌, Duration, pos, negsuc, Result-cases,
}
use hyperfleet_sentinel.Cel.{Cel}
use hyperfleet_sentinel.Client.{Resource, Error}
use hyperfleet_sentinel.Metrics.{
  inc_api_errors, update_events_published, update_resources_skipped, update_broker_errors,
  update_api_errors, update_pending_resources, update_poll_duration,
  update_last_successful_poll_timestamp,
}
use hyperfleet_sentinel.Sentinel.{Sentinel, World, Call, metric, resource_type, resource_selector}
use hyperfleet_sentinel.Sentinel.Accounting.{
  is_publication, is_success, is_failure, tally, tally-append, closing, selector_given,
  trigger-tally,
}
use hyperfleet_sentinel.Sentinel.Cycle.{fetch, trigger, Signal, tick, done, start}
use hyperfleet_sentinel.Sentinel.Independence.{calls_of_cycles, start-calls}
use hyperfleet_sentinel.Sentinel.Laws.{trigger_fetched, trigger_failed}
use hyperfleet_sentinel.Sentinel.Outcomes.{
  Outcome, no_id, no_uuid, no_data, skipped, refused, published, outcomes, outcome_calls, calls_of,
  is_pending, total,
}

abbrev pub is_api_error : Call → ℕ
is_api_error (metric (inc_api_errors a b c)) = 1
is_api_error _ = 0

abbrev is_failed : Result Error (List Resource) → ℕ
is_failed (ok rs) = 0
is_failed (err e) = 1

closing-api_errors :
    (type selector : String) (n : ℕ) (d : Duration)
    → tally is_api_error (map metric (closing type selector n d)) ≡ 0
unfolding update_pending_resources update_poll_duration update_last_successful_poll_timestamp
closing-api_errors type selector n (pos d) = elim (Bool-cases (type == "" || selector == "")) [
  | inl empty ↦ rw empty refl
  | inr given ↦ rw given refl
]
closing-api_errors type selector n (negsuc d) = elim (Bool-cases (type == "" || selector == "")) [
  | inl empty ↦ rw empty refl
  | inr given ↦ rw given refl
]

module _ (host : Host) (cel : Cel) (s : Sentinel cel) where
  outcome_calls-api_errors :
      (w : World) (o : Outcome) → tally is_api_error (outcome_calls host cel w s o) ≡ 0
  unfolding update_events_published update_resources_skipped update_broker_errors
  outcome_calls-api_errors w no_id = refl
  outcome_calls-api_errors w no_uuid = refl
  outcome_calls-api_errors w no_data = refl
  outcome_calls-api_errors w (skipped reason) = ground arith
  outcome_calls-api_errors w (refused event) = ground arith
  outcome_calls-api_errors w (published reason event) = ground arith

  calls_of-api_errors :
      (w : World) (os : List Outcome) → tally is_api_error (calls_of host cel w s os) ≡ 0
  unfolding calls_of
  calls_of-api_errors w [] = refl
  calls_of-api_errors w (o ∷ os) = omega (
    arith,
    tally-append is_api_error (outcome_calls host cel w s o) (calls_of host cel w s os),
    outcome_calls-api_errors w o,
    calls_of-api_errors w os,
  )

  -- How many of the cycles have a fetch that fails.
  abbrev pub count_failed : List World → ℕ
  count_failed [] = 0
  count_failed (w ∷ worlds) = is_failed (fetch host cel w s) + count_failed worlds

  abbrev Balances : ℕ → List Call → Type 0
  Balances failed calls =
      (tally is_publication calls ≡ tally is_success calls + tally is_failure calls)
      × (tally is_api_error calls ≡ failed)

  failed-Balances :
      (w : World) (e : Error)
      → (s.config.resource_type == "") ≡ false
      → fetch host cel w s ≡ err e
      → Balances 1 (trigger host cel w s).calls
  unfolding update_api_errors
  failed-Balances w e typed failed =
      rw (trigger_failed host cel w s e failed, typed, selector_given host cel w s) (refl, refl)

  fetched-Balances :
      (w : World) (rs : List Resource)
      → s.config.resource_type ≢ ""
      → fetch host cel w s ≡ ok rs
      → Balances 0 (trigger host cel w s).calls
  fetched-Balances w rs named fetched =
      let (_, _, calls) = trigger_fetched host cel w s rs fetched in
      let os = outcomes host cel w s 0 rs in
      let end_calls = map metric (
        closing (resource_type host cel w s) (resource_selector host cel w s) (total is_pending os)
          w.duration) in
      let end_errors =
        closing-api_errors (resource_type host cel w s) (resource_selector host cel w s)
          (total is_pending os) w.duration in
      (
        (trigger-tally host cel w s rs fetched named).0,
        rw calls (
            omega (
              arith,
              tally-append is_api_error (calls_of host cel w s os) end_calls,
              calls_of-api_errors w os,
              end_errors,
            )),
      )

  trigger-Balances :
      (w : World)
      → s.config.resource_type ≢ ""
      → Balances (is_failed (fetch host cel w s)) (trigger host cel w s).calls
  trigger-Balances w named = elim (Result-cases (fetch host cel w s)) [
    | inl (rs, fetched) ↦ rw fetched (fetched-Balances w rs named fetched)
    | inr (e, failed) ↦
        rw failed (failed-Balances w e (ground (arith, eq_iff s.config.resource_type "")) failed)
  ]

  cycles-Balances :
      (worlds : List World)
      → s.config.resource_type ≢ ""
      → Balances (count_failed worlds) (calls_of_cycles host cel s worlds)
  cycles-Balances [] named = (refl, refl)
  cycles-Balances (w ∷ worlds) named =
      let calls = (trigger host cel w s).calls in
      let rest = calls_of_cycles host cel s worlds in
      let here = trigger-Balances w named in
      let later = cycles-Balances worlds named in
      let sent = tally-append is_publication calls rest in
      let succeeded = tally-append is_success calls rest in
      let refused_ones = tally-append is_failure calls rest in
      let errors = tally-append is_api_error calls rest in
      (
        omega (arith, here.0, later.0, sent, succeeded, refused_ones),
        omega (arith, here.1, later.1, errors),
      )

  -- Over a whole run of `Start`, until the context is cancelled, for a resource type that is not
  -- empty: every event that is handed to the broker is counted once, as a published event or as a
  -- broker error, and the counter of API errors is incremented once for each cycle whose fetch
  -- fails.
  pub start-tally :
      (w : World) (worlds : List World) (later : List (Signal host cel))
      → s.config.resource_type ≢ ""
      → let calls = (start host cel w (map tick worlds ++ done ∷ later) s).calls in
        (tally is_publication calls ≡ tally is_success calls + tally is_failure calls)
        × (tally is_api_error calls ≡ count_failed (w ∷ worlds))
  start-tally w worlds later named =
      rw (start-calls host cel s w worlds later) (cycles-Balances (w ∷ worlds) named)
