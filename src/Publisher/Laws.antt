-- ===== src/Publisher/Laws.antt =====
-- A cycle with the mock publisher.
use hyperfleet_sentinel.Base.{
  ℕ, suc, String, ◌≡◌, refl, none, List, [], ◌∷◌, Fields, Result, ok, arith, Host, ◌==◌, Bool-cases,
  inl, inr,
}
use hyperfleet_sentinel.Cel.{Cel}
use hyperfleet_sentinel.Client.{Resource}
use hyperfleet_sentinel.Publisher.{new_mock_publisher, publish, answer_of, with_mock}
use hyperfleet_sentinel.Sentinel.{Sentinel, World, Event, topic, new_event, process_resources}
use hyperfleet_sentinel.Sentinel.Cycle.{first_round}
use hyperfleet_sentinel.Sentinel.Laws.{process_resources-Accounts}
use hyperfleet_sentinel.Sentinel.Outcomes.{
  outcome, outcomes, decision_of, is_published, is_pending, total,
}

module _ (marshal : Event → Result String String)
    (marshals : (e : Event) → (text : String) × (marshal e ≡ ok text)) where
  taken :
      (topic : String) (e : Event) → answer_of (publish marshal new_mock_publisher topic e) ≡ none
  unfolding publish
  taken topic e = let (text, same) = marshals e in rw (same, answer_of) refl

module _ (host : Host) (cel : Cel) (marshal : Event → Result String String) (w : World)
    (s : Sentinel cel) (marshals : (e : Event) → (text : String) × (marshal e ≡ ok text))
    (identified : (i : ℕ) → (event_id : String) × (w.new_uuid i ≡ ok event_id))
    (filled : (i : ℕ) → (fields : Fields) → w.set_data i fields ≡ ok tt) where
  abbrev mocked : World
  mocked = with_mock marshal w

  outcome-published :
      (i : ℕ) (r : Resource)
      → is_published (outcome host cel mocked s i r) ≡ is_pending (outcome host cel mocked s i r)
  unfolding outcome
  outcome-published i r =
      let (event_id, made) = identified i in
      let event = new_event host cel mocked s i event_id r (decision_of host cel mocked s r) in
      elim (Bool-cases (r.id == "")) [
        | inl empty ↦ rw empty refl
        | inr named ↦ elim (Bool-cases (decision_of host cel mocked s r).should_publish) [
          | inl wanted ↦
              rw
                (
                  named,
                  wanted,
                  made,
                  filled i event.event_data,
                  taken marshal marshals (topic host cel mocked s) event,
                )
                refl
          | inr unwanted ↦ rw (named, unwanted) refl
        ]
      ]

  total-published :
      (i : ℕ) (rs : List Resource)
      → total is_published (outcomes host cel mocked s i rs)
        ≡ total is_pending (outcomes host cel mocked s i rs)
  unfolding outcomes
  total-published i [] = refl
  total-published i (r ∷ rs) = rw (outcome-published i r, total-published (suc i) rs) refl

  -- With the mock publisher, when every UUID is made, every event takes its data and every event is
  -- marshalled, a cycle publishes all that is pending.
  pub process_resources-with_mock :
      (rs : List Resource)
      → let l = process_resources host cel mocked s 0 rs (first_round host cel s) in
        l.published ≡ l.pending
  process_resources-with_mock rs =
      let a =
        process_resources-Accounts host cel mocked s 0 rs (first_round host cel s)
          (s.decision_engine.conditions_lookup, refl) in
      omega (arith, a.published, a.pending, total-published 0 rs)
