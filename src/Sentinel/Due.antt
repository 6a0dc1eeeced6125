-- ===== src/Sentinel/Due.antt =====
-- The polling cycle of a sentinel whose engine is that of the default message decision.
pub mod Start
use hyperfleet_sentinel.Base.{
  ℕ, suc, ◌+◌, ◌<◌, String, ◌≡◌, ◌≢◌, refl, sym, ◌∙◌, true, some, List, [], ◌∷◌, ok, arith, Host,
  ◌==◌, if◌then◌else◌, Bool-cases, inl, inr, All, All-In, In, length, ◌++◌, some_inj, Time,
}
use hyperfleet_sentinel.Cel.{Cel}
use hyperfleet_sentinel.Cel.Meaning.{Conversions, IsCel}
use hyperfleet_sentinel.Client.{Resource}
use hyperfleet_sentinel.Config.{default_message_decision}
use hyperfleet_sentinel.Engine.{new_decision_engine}
use hyperfleet_sentinel.Engine.Laws.{evaluate-publishes_iff}
use hyperfleet_sentinel.Engine.Default.{default_expressions}
use hyperfleet_sentinel.Engine.Default.Due.{is_due}
use hyperfleet_sentinel.Engine.Default.Laws.{year_10000, IsConversions}
use hyperfleet_sentinel.Engine.Default.Publishes.{evaluate-is_due}
use hyperfleet_sentinel.Sentinel.{
  Sentinel, World, Event, publish, topic, new_event, process_resources,
}
use hyperfleet_sentinel.Sentinel.Cycle.{first_round, fetch, trigger}
use hyperfleet_sentinel.Sentinel.Counts.{prepare-counts, process_resources-counts, count_named}
use hyperfleet_sentinel.Sentinel.Laws.{process_resources-Accounts}
use hyperfleet_sentinel.Sentinel.Outcomes.{outcome, outcomes, decision_of, is_pending, total}
use hyperfleet_sentinel.Sentinel.Delivery.{trigger_publishes}
use hyperfleet_sentinel.Sentinel.Publications.{trigger-IsWanted}

-- How many resources have an id and are due.
abbrev pub count_due : Time → List Resource → ℕ
count_due now [] = 0
count_due now (r ∷ rs) =
    if r.id == ""
    then count_due now rs
    else if is_due r now
    then suc (count_due now rs)
    else count_due now rs

-- The conditions of a resource are of times before the year 10000.
abbrev pub AreEarly : Resource → Type 0
AreEarly r = All (λ c. c.last_updated_time < year_10000) r.status.conditions

module _ (host : Host) (cel : Cel) (conversions : Conversions) (w : World) (s : Sentinel cel)
    (laws : IsCel cel conversions default_expressions) (converted : IsConversions host conversions)
    (started : w.now ≢ 0)
    (made : new_decision_engine host cel (some default_message_decision)
      ≡ ok (record s.decision_engine { conditions_lookup = [] })) where
  decision_of-is_due :
      (r : Resource) → AreEarly r → (decision_of host cel w s r).should_publish ≡ is_due r w.now
  decision_of-is_due r early =
      evaluate-is_due host cel conversions laws converted
        (record s.decision_engine { conditions_lookup = [] }) made
        s.decision_engine.conditions_lookup r w.now started early

  total-count_due :
      (i : ℕ) (rs : List Resource)
      → All AreEarly rs
      → total is_pending (outcomes host cel w s i rs) ≡ count_due w.now rs
  unfolding outcomes outcome
  total-count_due i [] h = refl
  total-count_due i (r ∷ rs) (early, h) =
      let later = total-count_due (suc i) rs h in
      let due = decision_of-is_due r early in
      let pending = (prepare-counts host cel w s i r (w.new_uuid i)).0 in
      elim (Bool-cases (r.id == "")) [
        | inl empty ↦ rw empty (omega (arith, later))
        | inr named ↦ elim (Bool-cases (is_due r w.now)) [
          | inl wanted ↦ rw (named, due, wanted, pending, later) (omega arith)
          | inr unwanted ↦ rw (named, due, unwanted) (omega (arith, later))
        ]
      ]

  -- When the sentinel's engine is, but for the conditions of earlier evaluations, the one that is
  -- created from the default message decision, the time is not zero, the library evaluates and
  -- converts as documented, and the conditions are of times before the year 10000: the pending
  -- resources of a cycle are those that have an id and are due, and the skipped ones are the others
  -- that have an id.
  pub process_resources-count_due :
      (rs : List Resource)
      → All AreEarly rs
      → let l = process_resources host cel w s 0 rs (first_round host cel s) in
        (l.pending ≡ count_due w.now rs) × (count_due w.now rs + l.skipped ≡ count_named rs)
  process_resources-count_due rs early =
      let a =
        process_resources-Accounts host cel w s 0 rs (first_round host cel s)
          (s.decision_engine.conditions_lookup, refl) in
      let due = total-count_due 0 rs early in
      let counts = process_resources-counts host cel w s rs in
      (omega (arith, a.pending, due), omega (arith, a.pending, due, counts.0))

  -- When the sentinel's engine is, but for the conditions of earlier evaluations, the one that is
  -- created from the default message decision, the time is not zero, the library evaluates and
  -- converts as documented, and the conditions are of times before the year 10000: every event that
  -- a cycle publishes is made for a resource that the fetch returned, that has an id and is due.
  pub trigger-is_due :
      (rs : List Resource) (t : String) (e : Event)
      → fetch host cel w s ≡ ok rs
      → All AreEarly rs
      → In (publish t e) (trigger host cel w s).calls
      → (r : Resource) × In r rs
        × (r.id ≢ "")
        × (is_due r w.now ≡ true)
        × ((i : ℕ) × (event_id : String) × (e
              ≡ new_event host cel w s i event_id r (decision_of host cel w s r)))
  trigger-is_due rs t e fetched early h =
      let x = trigger-IsWanted host cel w s rs t e fetched h in
      let wanted =
        (evaluate-publishes_iff host cel s.decision_engine (some x.resource) w.now).1
          (x.resource, refl, started, x.matches) in
      (
        x.resource,
        x.fetched,
        x.named,
        sym (decision_of-is_due x.resource (All-In AreEarly x.resource rs early x.fetched))
            ∙ wanted,
        (x.index, x.event_id, x.event),
      )

  -- When the sentinel's engine is, but for the conditions of earlier evaluations, the one that is
  -- created from the default message decision, the time is not zero, and the library evaluates and
  -- converts as documented: a fetched resource that has an id and is due, with conditions of times
  -- before the year 10000, has its event published in the cycle, whatever becomes of the others,
  -- when its UUID is made and the event takes its data.
  pub trigger_publishes-is_due :
      (before after : List Resource) (r : Resource) (event_id : String)
      → fetch host cel w s ≡ ok (before ++ r ∷ after)
      → AreEarly r
      → r.id ≢ ""
      → is_due r w.now ≡ true
      → w.new_uuid (length before) ≡ ok event_id
      → w.set_data
          (length before)
          (new_event host cel w s
            (length before)
            event_id
            r
            (decision_of host cel w s r)).event_data
        ≡ ok tt
      → In
          (publish
            (topic host cel w s)
            (new_event host cel w s (length before) event_id r (decision_of host cel w s r)))
          (trigger host cel w s).calls
  trigger_publishes-is_due before after r event_id fetched early named due fresh taken =
      let (r', same, _, matches) =
        (evaluate-publishes_iff host cel s.decision_engine (some r) w.now).0
          (decision_of-is_due r early ∙ due) in
      trigger_publishes host cel w s before after r event_id fetched named started
        (rw (some_inj same) matches) fresh taken
