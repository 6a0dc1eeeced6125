-- ===== src/Sentinel/Accounting.antt =====
-- The metrics of a cycle, and what the cycle did.
use hyperfleet_sentinel.Base.{
  ℕ, suc, ◌+◌, String, ◌≡◌, ◌≢◌, refl, false, Option, none, some, List, [], ◌∷◌, ◌++◌, map, Result,
  ok, err, arith, Host, ◌==◌, eq_iff, Bool-cases, inl, inr, ◌||◌, Duration, pos, negsuc,
}
use hyperfleet_sentinel.Cel.{Cel}
use hyperfleet_sentinel.Client.{Resource}
use hyperfleet_sentinel.Engine.{matched_reason}
use hyperfleet_sentinel.Engine.Reasons.{reason-evaluate}
use hyperfleet_sentinel.Metrics.{
  MetricCall, inc_published, inc_broker_errors, update_events_published, update_resources_skipped,
  update_broker_errors, update_pending_resources, update_poll_duration,
  update_last_successful_poll_timestamp,
}
use hyperfleet_sentinel.Metrics.Label.{get_resource_selector_label_lem}
use hyperfleet_sentinel.Sentinel.{
  Sentinel, World, Call, metric, publish, Event, resource_type, resource_selector, topic, new_event,
}
use hyperfleet_sentinel.Sentinel.Cycle.{fetch, trigger}
use hyperfleet_sentinel.Sentinel.Outcomes.{
  Outcome, no_id, no_uuid, no_data, skipped, refused, published, outcome, outcomes, outcome_calls,
  calls_of, decision_of, prepare, deliver, answer, is_published, is_pending, total,
}
use hyperfleet_sentinel.Sentinel.Laws.{trigger_fetched}

-- How often each kind of call counts.
abbrev pub is_publication : Call → ℕ
is_publication (publish t e) = 1
is_publication (metric m) = 0

abbrev pub is_success : Call → ℕ
is_success (metric (inc_published a b c)) = 1
is_success _ = 0

abbrev pub is_failure : Call → ℕ
is_failure (metric (inc_broker_errors a b c)) = 1
is_failure _ = 0

abbrev pub tally : (Call → ℕ) → List Call → ℕ
tally f [] = 0
tally f (c ∷ calls) = f c + tally f calls

pub tally-append : (f : Call → ℕ) (xs ys : List Call) → tally f (xs ++ ys) ≡ tally f xs + tally f ys
tally-append f [] ys = omega arith
tally-append f (x ∷ xs) ys = omega (arith, tally-append f xs ys)

-- The metrics at the end of a cycle.
abbrev pub closing : String → String → ℕ → Duration → List MetricCall
closing type selector n d =
    update_pending_resources type selector (pos n)
    ++ (update_poll_duration type selector d ++ update_last_successful_poll_timestamp)

closing-tally :
    (type selector : String) (n : ℕ) (d : Duration)
    → (tally is_publication (map metric (closing type selector n d)) ≡ 0)
      × (tally is_success (map metric (closing type selector n d)) ≡ 0)
      × (tally is_failure (map metric (closing type selector n d)) ≡ 0)
unfolding update_pending_resources update_poll_duration update_last_successful_poll_timestamp
closing-tally type selector n (pos d) = elim (Bool-cases (type == "" || selector == "")) [
  | inl empty ↦ rw empty (refl, refl, refl)
  | inr given ↦ rw given (refl, refl, refl)
]
closing-tally type selector n (negsuc d) = elim (Bool-cases (type == "" || selector == "")) [
  | inl empty ↦ rw empty (refl, refl, refl)
  | inr given ↦ rw given (refl, refl, refl)
]

-- An outcome whose reason, if it is published, is that of a match.
abbrev IsReasoned : Outcome → Type 0
IsReasoned (published reason event) = reason ≡ matched_reason
IsReasoned _ = Unit

module _ (host : Host) (cel : Cel) (w : World) (s : Sentinel cel) where
  answer-IsReasoned :
      (a : Option String) (reason : String) (event : Event)
      → reason ≡ matched_reason
      → IsReasoned (answer host cel w s a reason event)
  answer-IsReasoned none reason event h = h
  answer-IsReasoned (some e) reason event h = tt

  deliver-IsReasoned :
      (i : ℕ) (reason : String) (event : Event) (taken : Result String (Unit {0}))
      → reason ≡ matched_reason
      → IsReasoned (deliver host cel w s i reason event taken)
  deliver-IsReasoned i reason event (err e) h = tt
  deliver-IsReasoned i reason event (ok _) h =
      answer-IsReasoned (w.publish i (topic host cel w s) event) reason event h

  prepare-IsReasoned :
      (i : ℕ) (r : Resource) (made : Result String String)
      → (decision_of host cel w s r).reason ≡ matched_reason
      → IsReasoned (prepare host cel w s i r made)
  prepare-IsReasoned i r (err e) h = tt
  prepare-IsReasoned i r (ok event_id) h =
      let event = new_event host cel w s i event_id r (decision_of host cel w s r) in
      deliver-IsReasoned i (decision_of host cel w s r).reason event (w.set_data i event.event_data)
        h

  outcome-IsReasoned : (i : ℕ) (r : Resource) → IsReasoned (outcome host cel w s i r)
  unfolding outcome
  outcome-IsReasoned i r = elim (Bool-cases (r.id == "")) [
    | inl empty ↦ rw empty tt
    | inr named ↦ elim (Bool-cases (decision_of host cel w s r).should_publish) [
      | inl wanted ↦
          rw (named, wanted)
            (prepare-IsReasoned i r (w.new_uuid i)
              (reason-evaluate host cel s.decision_engine (some r) w.now wanted))
      | inr unwanted ↦ rw (named, unwanted) tt
    ]
  ]

  pub selector_given : (resource_selector host cel w s == "") ≡ false
  selector_given = ground (
    arith,
    eq_iff (resource_selector host cel w s) "",
    (get_resource_selector_label_lem s.config.resource_selector).1,
  )

  outcome_calls-tally :
      (o : Outcome)
      → (s.config.resource_type == "") ≡ false
      → IsReasoned o
      → (tally is_publication (outcome_calls host cel w s o)
          ≡ tally is_success (outcome_calls host cel w s o)
            + tally is_failure (outcome_calls host cel w s o))
        × (tally is_success (outcome_calls host cel w s o) ≡ is_published o)
  unfolding update_events_published update_resources_skipped update_broker_errors
  outcome_calls-tally no_id typed h = (omega arith, omega arith)
  outcome_calls-tally no_uuid typed h = (omega arith, omega arith)
  outcome_calls-tally no_data typed h = (omega arith, omega arith)
  outcome_calls-tally (skipped reason) typed h = (ground arith, ground arith)
  outcome_calls-tally (refused event) typed h =
      rw (typed, selector_given) (omega arith, omega arith)
  outcome_calls-tally (published reason event) typed h =
      rw (h, typed, selector_given) (omega arith, omega arith)

  outcomes-tally :
      (i : ℕ) (rs : List Resource)
      → (s.config.resource_type == "") ≡ false
      → (tally is_publication (calls_of host cel w s (outcomes host cel w s i rs))
          ≡ tally is_success (calls_of host cel w s (outcomes host cel w s i rs))
            + tally is_failure (calls_of host cel w s (outcomes host cel w s i rs)))
        × (tally is_success (calls_of host cel w s (outcomes host cel w s i rs))
            ≡ total is_published (outcomes host cel w s i rs))
  unfolding outcomes calls_of
  outcomes-tally i [] typed = (omega arith, omega arith)
  outcomes-tally i (r ∷ rs) typed =
      let o = outcome host cel w s i r in
      let here = outcome_calls-tally o typed (outcome-IsReasoned i r) in
      let later = outcomes-tally (suc i) rs typed in
      let calls = calls_of host cel w s (outcomes host cel w s (suc i) rs) in
      let sent = tally-append is_publication (outcome_calls host cel w s o) calls in
      let succeeded = tally-append is_success (outcome_calls host cel w s o) calls in
      let failed = tally-append is_failure (outcome_calls host cel w s o) calls in
      (
        omega (arith, here.0, later.0, sent, succeeded, failed),
        omega (arith, here.1, later.1, succeeded),
      )

  -- For a resource type that is not empty, a cycle whose fetch succeeds counts every event that it
  -- hands to the broker once, as a published event or as a broker error, and counts as many
  -- published events as resources had their event accepted.
  pub trigger-tally :
      (rs : List Resource)
      → fetch host cel w s ≡ ok rs
      → s.config.resource_type ≢ ""
      → (tally is_publication (trigger host cel w s).calls
          ≡ tally is_success (trigger host cel w s).calls
            + tally is_failure (trigger host cel w s).calls)
        × (tally is_success (trigger host cel w s).calls
            ≡ total is_published (outcomes host cel w s 0 rs))
  trigger-tally rs fetched named =
      let (_, _, calls) = trigger_fetched host cel w s rs fetched in
      let typed : (s.config.resource_type == "") ≡ false =
        ground (arith, eq_iff s.config.resource_type "") in
      let os = calls_of host cel w s (outcomes host cel w s 0 rs) in
      let t = outcomes-tally 0 rs typed in
      let end_calls = map metric (
        closing (resource_type host cel w s) (resource_selector host cel w s)
          (total is_pending (outcomes host cel w s 0 rs)) w.duration) in
      let c =
        closing-tally (resource_type host cel w s) (resource_selector host cel w s)
          (total is_pending (outcomes host cel w s 0 rs)) w.duration in
      let sent = tally-append is_publication os end_calls in
      let succeeded = tally-append is_success os end_calls in
      let failed = tally-append is_failure os end_calls in
      rw calls (
        omega (arith, t.0, t.1, c.0, c.1, c.2, sent, succeeded, failed),
        omega (arith, t.1, c.1, succeeded),
      )
