-- ===== src/Sentinel/Outcomes.antt =====
-- What a cycle does for one resource, on its own.
use hyperfleet_sentinel.Base.{
  ℕ, suc, ◌+◌, String, ◌≡◌, Option, none, some, List, [], ◌∷◌, ◌++◌, map, Result, ok, err, arith,
  Host, ◌==◌, if◌then◌else◌, Bool-cases, inl, inr,
}
use mathlib.Core.List.{append-nil, append_assoc}
use hyperfleet_sentinel.Cel.{Cel}
use hyperfleet_sentinel.Client.{Resource}
use hyperfleet_sentinel.Engine.{Decision, DecisionEngine, evaluate}
use hyperfleet_sentinel.Metrics.{
  update_events_published, update_resources_skipped, update_broker_errors,
}
use hyperfleet_sentinel.Sentinel.{
  Sentinel, Loop, World, Call, metric, publish, Event, resource_type, resource_selector, topic,
  new_event, after_publish, send, send_data, act,
}

-- What becomes of a resource in a cycle.
pub data Outcome : Type 0 where
  no_id no_uuid no_data : Outcome
  skipped : String → Outcome
  refused : Event → Outcome
  published : String → Event → Outcome

-- How often each kind of outcome counts.
abbrev pub is_published : Outcome → ℕ
is_published (published reason event) = 1
is_published _ = 0

abbrev pub is_skipped : Outcome → ℕ
is_skipped (skipped reason) = 1
is_skipped _ = 0

abbrev pub is_pending : Outcome → ℕ
is_pending no_id = 0
is_pending (skipped reason) = 0
is_pending _ = 1

abbrev pub total : (Outcome → ℕ) → List Outcome → ℕ
total f [] = 0
total f (o ∷ os) = f o + total f os

module _ (host : Host) (cel : Cel) (w : World) (s : Sentinel cel) where
  -- The decision on a resource by the engine as the cycle found it.
  abbrev pub decision_of : Resource → Decision
  decision_of r = (evaluate host cel s.decision_engine (some r) w.now).0

  abbrev pub answer : Option String → String → Event → Outcome
  answer none reason event = published reason event
  answer (some e) reason event = refused event

  abbrev pub deliver : ℕ → String → Event → Result String (Unit {0}) → Outcome
  deliver i reason event (err e) = no_data
  deliver i reason event (ok _) = answer (w.publish i (topic host cel w s) event) reason event

  abbrev pub prepare : ℕ → Resource → Result String String → Outcome
  prepare i r (err e) = no_uuid
  prepare i r (ok event_id) =
      let event = new_event host cel w s i event_id r (decision_of r) in
      deliver i (decision_of r).reason event (w.set_data i event.event_data)

  -- From the world and the engine as the cycle found it, with no other resource.
  unfoldable pub outcome : ℕ → Resource → Outcome
  outcome i r =
      if r.id == ""
      then no_id
      else if (decision_of r).should_publish
      then prepare i r (w.new_uuid i)
      else skipped (decision_of r).reason

  -- The calls that an outcome comes with.
  abbrev pub outcome_calls : Outcome → List Call
  outcome_calls (skipped reason) = map metric (
      update_resources_skipped (resource_type host cel w s) (resource_selector host cel w s) reason)
  outcome_calls (refused event) =
      publish (topic host cel w s) event
      ∷ map metric (
          update_broker_errors (resource_type host cel w s) (resource_selector host cel w s)
            "publish_error")
  outcome_calls (published reason event) =
      publish (topic host cel w s) event
      ∷ map metric (
          update_events_published (resource_type host cel w s) (resource_selector host cel w s)
            reason)
  outcome_calls _ = []

  unfoldable pub outcomes : ℕ → List Resource → List Outcome
  outcomes i [] = []
  outcomes i (r ∷ rs) = outcome i r ∷ outcomes (suc i) rs

  unfoldable pub calls_of : List Outcome → List Call
  calls_of [] = []
  calls_of (o ∷ os) = outcome_calls o ++ calls_of os

  -- The loop's state after an outcome, apart from the engine.
  abbrev pub after : Loop cel → DecisionEngine cel → Outcome → Loop cel
  after l engine o = record {
    engine = engine;
    calls = l.calls ++ outcome_calls o;
    published = l.published + is_published o;
    skipped = l.skipped + is_skipped o;
    pending = l.pending + is_pending o;
  }

  after_publish-eq :
      (a : Option String) (event : Event) (d : Decision) (l : Loop cel)
      → after_publish host cel w s a d (record l {
        calls = l.calls ++ publish (topic host cel w s) event ∷ [];
        pending = suc l.pending;
      })
        ≡ after l l.engine (answer a d.reason event)
  unfolding after_publish
  after_publish-eq none event d l = ground (
    arith,
    append_assoc l.calls (publish (topic host cel w s) event ∷ []) (
        map metric (
          update_events_published (resource_type host cel w s) (resource_selector host cel w s)
            d.reason)),
  )
  after_publish-eq (some e) event d l = ground (
    arith,
    append_assoc l.calls (publish (topic host cel w s) event ∷ []) (
        map metric (
          update_broker_errors (resource_type host cel w s) (resource_selector host cel w s)
            "publish_error")),
  )

  send_data-eq :
      (i : ℕ) (event : Event) (d : Decision) (taken : Result String (Unit {0})) (l : Loop cel)
      → send_data host cel w s i event d taken (record l { pending = suc l.pending })
        ≡ after l l.engine (deliver i d.reason event taken)
  send_data-eq i event d (err e) l = ground (arith, append-nil l.calls)
  send_data-eq i event d (ok _) l =
      after_publish-eq (w.publish i (topic host cel w s) event) event d l

  send-eq :
      (i : ℕ) (r : Resource) (made : Result String String) (l : Loop cel)
      → send host cel w s i r (decision_of r) made (record l { pending = suc l.pending })
        ≡ after l l.engine (prepare i r made)
  send-eq i r (err e) l = ground (arith, append-nil l.calls)
  send-eq i r (ok event_id) l =
      let event = new_event host cel w s i event_id r (decision_of r) in
      send_data-eq i event (decision_of r) (w.set_data i event.event_data) l

  pub act-eq :
      (i : ℕ) (r : Resource) (l : Loop cel)
      → act host cel w s i r (decision_of r) l
        ≡ after l l.engine (
            if (decision_of r).should_publish
            then prepare i r (w.new_uuid i)
            else skipped (decision_of r).reason)
  unfolding act
  act-eq i r l = elim (Bool-cases (decision_of r).should_publish) [
    | inl wanted ↦ rw wanted (send-eq i r (w.new_uuid i) l)
    | inr unwanted ↦ rw unwanted (ground arith)
  ]
