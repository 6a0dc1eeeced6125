-- ===== src/Sentinel/Delivery.antt =====
-- When the event of a resource is handed to the broker.
use hyperfleet_sentinel.Base.{
  ℕ, suc, ◌+◌, String, ◌≡◌, ◌≢◌, refl, true, false, Option, none, some, List, [], ◌∷◌, ◌++◌, ok,
  arith, Host, ◌==◌, eq_iff, ap, inl, inr, In, In-left, In-right, length,
}
use hyperfleet_sentinel.Cel.{Cel}
use hyperfleet_sentinel.Client.{Resource}
use hyperfleet_sentinel.Engine.Laws.{Matches, evaluate-publishes_iff}
use hyperfleet_sentinel.Sentinel.{Sentinel, World, Call, publish, Event, topic, new_event}
use hyperfleet_sentinel.Sentinel.Cycle.{fetch, trigger}
use hyperfleet_sentinel.Sentinel.Outcomes.{
  Outcome, outcome, outcomes, outcome_calls, calls_of, decision_of, answer,
}
use hyperfleet_sentinel.Sentinel.Laws.{trigger_fetched}

module _ (host : Host) (cel : Cel) (w : World) (s : Sentinel cel) where
  In-calls_of-publish :
      (c : Call) (o : Outcome) (os : List Outcome)
      → In o os
      → In c (outcome_calls host cel w s o)
      → In c (calls_of host cel w s os)
  unfolding calls_of
  In-calls_of-publish c o [] h here = absurd h
  In-calls_of-publish c o (o' ∷ os) (inl e) here =
      In-left c (outcome_calls host cel w s o') (calls_of host cel w s os) (rw e at here)
  In-calls_of-publish c o (o' ∷ os) (inr h) here =
      In-right c (outcome_calls host cel w s o') (calls_of host cel w s os)
        (In-calls_of-publish c o os h here)

  outcome-In :
      (i j : ℕ) (before after : List Resource) (r : Resource)
      → j ≡ i + length before
      → In (outcome host cel w s j r) (outcomes host cel w s i (before ++ r ∷ after))
  unfolding outcomes
  outcome-In i j [] after r h = inl (ap (λ k. outcome host cel w s k r) (omega arith))
  outcome-In i j (x ∷ before) after r h = inr (outcome-In (suc i) j before after r (omega arith))

  answer_publishes :
      (a : Option String) (reason : String) (event : Event)
      → In
          (publish (topic host cel w s) event)
          (outcome_calls host cel w s (answer host cel w s a reason event))
  answer_publishes none reason event = inl refl
  answer_publishes (some e) reason event = inl refl

  outcome_publishes :
      (i : ℕ) (r : Resource) (event_id : String)
      → (r.id == "") ≡ false
      → (decision_of host cel w s r).should_publish ≡ true
      → w.new_uuid i ≡ ok event_id
      → w.set_data i (new_event host cel w s i event_id r (decision_of host cel w s r)).event_data
        ≡ ok tt
      → In
          (publish
            (topic host cel w s)
            (new_event host cel w s i event_id r (decision_of host cel w s r)))
          (outcome_calls host cel w s (outcome host cel w s i r))
  unfolding outcome
  outcome_publishes i r event_id named wanted fresh taken =
      let event = new_event host cel w s i event_id r (decision_of host cel w s r) in
      rw (named, wanted, fresh, taken)
        (answer_publishes (w.publish i (topic host cel w s) event)
          (decision_of host cel w s r).reason event)

  -- A fetched resource with an id that the decision engine matches has its event published in the
  -- cycle, whatever becomes of the others, when the time is not zero, its UUID is made and the
  -- event takes its data.
  pub trigger_publishes :
      (before after : List Resource) (r : Resource) (event_id : String)
      → fetch host cel w s ≡ ok (before ++ r ∷ after)
      → r.id ≢ ""
      → w.now ≢ 0
      → Matches host cel s.decision_engine r w.now
      → w.new_uuid (length before) ≡ ok event_id
      → w.set_data
          (length before)
          (new_event host cel w s
            (length before)
            event_id
            r
            (decision_of host cel w s r)).event_data
        ≡ ok tt
      → In
          (publish
            (topic host cel w s)
            (new_event host cel w s (length before) event_id r (decision_of host cel w s r)))
          (trigger host cel w s).calls
  trigger_publishes before after r event_id fetched named now_given matches fresh taken =
      let (_, _, calls) = trigger_fetched host cel w s (before ++ r ∷ after) fetched in
      let wanted =
        (evaluate-publishes_iff host cel s.decision_engine (some r) w.now).1
          (r, refl, now_given, matches) in
      rw calls (
        In-left _ (calls_of host cel w s (outcomes host cel w s 0 (before ++ r ∷ after))) _ (
          In-calls_of-publish _ _ _ (outcome-In 0 (length before) before after r (omega arith)) (
            outcome_publishes (length before) r event_id (ground (arith, eq_iff r.id "")) wanted
              fresh taken)))
