-- ===== src/Sentinel/Publications.antt =====
-- Which events a cycle publishes.
use hyperfleet_sentinel.Base.{
  ℕ, suc, String, ◌≡◌, ◌≢◌, refl, Bool, true, false, Option, none, some, List, [], ◌∷◌, map, Result,
  ok, err, arith, Host, ◌==◌, eq_iff, if◌then◌else◌, some_inj, ap, ◌∙◌, sym, inl, inr, In,
  In-append,
}
use hyperfleet_sentinel.Cel.{Cel}
use hyperfleet_sentinel.Client.{Resource}
use hyperfleet_sentinel.Engine.Laws.{Matches, evaluate-publishes_iff}
use hyperfleet_sentinel.Metrics.{MetricCall}
use hyperfleet_sentinel.Sentinel.{Sentinel, World, metric, publish, Event, topic, new_event}
use hyperfleet_sentinel.Sentinel.Cycle.{fetch, trigger}
use hyperfleet_sentinel.Sentinel.Outcomes.{
  Outcome, no_id, no_uuid, no_data, skipped, refused, published, outcome, outcomes, outcome_calls,
  calls_of, decision_of, prepare, deliver, answer,
}
use hyperfleet_sentinel.Sentinel.Laws.{trigger_fetched}

pub publish∉metrics :
    (t : String) (e : Event) (metrics : List MetricCall) → In (publish t e) (map metric metrics) → ⊥
publish∉metrics t e [] h = h
publish∉metrics t e (m ∷ metrics) (inl h) = cc
publish∉metrics t e (m ∷ metrics) (inr h) = publish∉metrics t e metrics h

-- The event that an outcome published or tried to publish.
abbrev event_of : Outcome → Option Event
event_of (refused event) = some event
event_of (published reason event) = some event
event_of _ = none

event_of-if :
    (b c : Bool) (o : Outcome) (reason : String) (e : Event)
    → event_of (if b then no_id else if c then o else skipped reason) ≡ some e
    → (b ≡ false) × (c ≡ true) × (event_of o ≡ some e)
event_of-if true c o reason e h = cc
event_of-if false true o reason e h = (refl, refl, h)
event_of-if false false o reason e h = cc

module _ (host : Host) (cel : Cel) (w : World) (s : Sentinel cel) where
  -- The event is the one made for the resource at an index, which has an id and matches.
  pub record IsWanted (rs : List Resource) (t : String) (e : Event) : Type 0 where
    pub index : ℕ
    pub event_id : String
    pub resource : Resource
    pub fetched : In resource rs
    pub named : resource.id ≢ ""
    pub matches : Matches host cel s.decision_engine resource w.now
    pub fresh : w.new_uuid index ≡ ok event_id
    pub to_topic : t ≡ topic host cel w s
    pub event :
        e ≡ new_event host cel w s index event_id resource (decision_of host cel w s resource)

  In-outcome_calls :
      (t : String) (e : Event) (o : Outcome)
      → In (publish t e) (outcome_calls host cel w s o)
      → (t ≡ topic host cel w s) × (event_of o ≡ some e)
  In-outcome_calls t e no_id h = absurd h
  In-outcome_calls t e no_uuid h = absurd h
  In-outcome_calls t e no_data h = absurd h
  In-outcome_calls t e (skipped reason) h = absurd (publish∉metrics t e _ h)
  In-outcome_calls t e (refused event) (inl h) = (cc, cc)
  In-outcome_calls t e (refused event) (inr h) = absurd (publish∉metrics t e _ h)
  In-outcome_calls t e (published reason event) (inl h) = (cc, cc)
  In-outcome_calls t e (published reason event) (inr h) = absurd (publish∉metrics t e _ h)

  In-calls_of :
      (t : String) (e : Event) (os : List Outcome)
      → In (publish t e) (calls_of host cel w s os)
      → (o : Outcome) × In o os × In (publish t e) (outcome_calls host cel w s o)
  unfolding calls_of
  In-calls_of t e [] h = absurd h
  In-calls_of t e (o ∷ os) h =
      elim (In-append (publish t e) (outcome_calls host cel w s o) (calls_of host cel w s os) h) [
        | inl here ↦ (o, inl refl, here)
        | inr later ↦ (let (o', among, here) = In-calls_of t e os later in (o', inr among, here))
      ]

  In-outcomes :
      (o : Outcome) (i : ℕ) (rs : List Resource)
      → In o (outcomes host cel w s i rs)
      → (j : ℕ) × (r : Resource) × In r rs × (o ≡ outcome host cel w s j r)
  unfolding outcomes
  In-outcomes o i [] h = absurd h
  In-outcomes o i (r ∷ rs) (inl same) = (i, r, inl refl, same)
  In-outcomes o i (r ∷ rs) (inr h) =
      let (j, r', among, same) = In-outcomes o (suc i) rs h in (j, r', inr among, same)

  event_of-answer :
      (a : Option String) (reason : String) (event e : Event)
      → event_of (answer host cel w s a reason event) ≡ some e
      → e ≡ event
  event_of-answer none reason event e h = cc
  event_of-answer (some x) reason event e h = cc

  event_of-deliver :
      (i : ℕ) (reason : String) (event e : Event) (taken : Result String (Unit {0}))
      → event_of (deliver host cel w s i reason event taken) ≡ some e
      → e ≡ event
  event_of-deliver i reason event e (err x) h = cc
  event_of-deliver i reason event e (ok _) h =
      event_of-answer (w.publish i (topic host cel w s) event) reason event e h

  event_of-prepare :
      (i : ℕ) (r : Resource) (made : Result String String) (e : Event)
      → event_of (prepare host cel w s i r made) ≡ some e
      → (event_id : String) × (made ≡ ok event_id)
        × (e ≡ new_event host cel w s i event_id r (decision_of host cel w s r))
  event_of-prepare i r (err x) e h = cc
  event_of-prepare i r (ok event_id) e h = (
    event_id,
    refl,
    event_of-deliver i (decision_of host cel w s r).reason
        (new_event host cel w s i event_id r (decision_of host cel w s r)) e _ h,
  )

  event_of-outcome :
      (i : ℕ) (r : Resource) (e : Event)
      → event_of (outcome host cel w s i r) ≡ some e
      → ((r.id == "") ≡ false)
        × ((decision_of host cel w s r).should_publish ≡ true)
        × (event_of (prepare host cel w s i r (w.new_uuid i)) ≡ some e)
  unfolding outcome
  event_of-outcome i r e h =
      event_of-if (r.id == "") (decision_of host cel w s r).should_publish _ _ e h

  outcome-IsWanted :
      (rs : List Resource) (i : ℕ) (r : Resource) (t : String) (e : Event)
      → In r rs
      → t ≡ topic host cel w s
      → event_of (outcome host cel w s i r) ≡ some e
      → IsWanted rs t e
  outcome-IsWanted rs i r t e among to_topic h =
      let (named, wanted, made) = event_of-outcome i r e h in
      let (event_id, fresh, same) = event_of-prepare i r (w.new_uuid i) e made in
      let (r', is_r, _, m) =
        (evaluate-publishes_iff host cel s.decision_engine (some r) w.now).0 wanted in
      record {
        index = i;
        event_id = event_id;
        resource = r;
        fetched = among;
        named = λ empty. ground (arith, eq_iff r.id "");
        matches = rw (some_inj is_r) m;
        fresh = fresh;
        to_topic = to_topic;
        event = same;
      }

  -- Every event that a cycle publishes goes to the configured topic and is made, with the new
  -- UUID of that round, for a resource that the fetch returned, that has an id, and that the
  -- decision engine matches.
  pub trigger-IsWanted :
      (rs : List Resource) (t : String) (e : Event)
      → fetch host cel w s ≡ ok rs
      → In (publish t e) (trigger host cel w s).calls
      → IsWanted rs t e
  trigger-IsWanted rs t e fetched h =
      let (_, _, calls) = trigger_fetched host cel w s rs fetched in
      let os = outcomes host cel w s 0 rs in
      let (o, of_round, here) =
        In-calls_of t e os
          (elim (In-append (publish t e) (calls_of host cel w s os) _ (rw calls at h)) [
            | inl l ↦ l
            | inr m ↦ absurd (publish∉metrics t e _ m)
          ]) in
      let (i, r, among, same) = In-outcomes o 0 rs of_round in
      let (to_topic, made) = In-outcome_calls t e o here in
      outcome-IsWanted rs i r t e among to_topic (ap event_of (sym same) ∙ made)
