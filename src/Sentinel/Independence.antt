-- ===== src/Sentinel/Independence.antt =====
-- The cycles of a run of `Start`: what each does outside does not depend on the cycles before it.
use mathlib.Core.List.{append-nil, append_assoc}
use hyperfleet_sentinel.Base.{
  Option, none, some, ℕ, suc, String, ◌≡◌, refl, sym, ap, ◌∙◌, List, [], ◌∷◌, ◌++◌, map, Result, ok,
  err, Host, Time, Result-cases, inl, inr,
}
use hyperfleet_sentinel.Cel.{Cel}
use hyperfleet_sentinel.Client.{Resource, Error}
use hyperfleet_sentinel.Engine.Laws.{evaluate-forgets}
use hyperfleet_sentinel.Engine.Maps.{Conditions}
use hyperfleet_sentinel.Sentinel.{Sentinel, World, Call, Event, topic, new_event}
use hyperfleet_sentinel.Sentinel.Cycle.{
  fetch, first_round, trigger, Signal, tick, done, Run, poll, start,
}
use hyperfleet_sentinel.Sentinel.Outcomes.{
  answer, deliver, prepare, Outcome, outcome, outcomes, outcome_calls, calls_of,
}
use hyperfleet_sentinel.Sentinel.Laws.{process_resources-Accounts, trigger_fetched, trigger_failed}

module _ (host : Host) (cel : Cel) (s : Sentinel cel) where
  -- The state at the start, but for what the cycles write.
  abbrev written : Time → Conditions → Sentinel cel
  written last x = record s {
    last_successful_poll = last;
    decision_engine = record s.decision_engine { conditions_lookup = x };
  }

  abbrev IsWritten : Sentinel cel → Type 0
  IsWritten s' = (last : Time) × (x : Conditions) × (s' ≡ written last x)

  answer_same :
      (w : World) (last : Time) (x : Conditions) (a : Option String) (reason : String)
      (event : Event)
      → answer host cel w (written last x) a reason event ≡ answer host cel w s a reason event
  answer_same w last x none reason event = refl
  answer_same w last x (some e) reason event = refl

  deliver_same :
      (w : World) (last : Time) (x : Conditions) (i : ℕ) (reason : String) (event : Event)
      (taken : Result String (Unit {0}))
      → deliver host cel w (written last x) i reason event taken
        ≡ deliver host cel w s i reason event taken
  deliver_same w last x i reason event (err e) = refl
  deliver_same w last x i reason event (ok _) =
      answer_same w last x (w.publish i (topic host cel w s) event) reason event

  prepare_same :
      (w : World) (last : Time) (x : Conditions) (i : ℕ) (r : Resource)
      (made : Result String String)
      → prepare host cel w (written last x) i r made ≡ prepare host cel w s i r made
  unfolding new_event
  prepare_same w last x i r (err e) = refl
  prepare_same w last x i r (ok event_id) =
      rw (evaluate-forgets host cel s.decision_engine x (some r) w.now)
        (deliver_same w last x i _ _ _)

  outcome_same :
      (w : World) (last : Time) (x : Conditions) (i : ℕ) (r : Resource)
      → outcome host cel w (written last x) i r ≡ outcome host cel w s i r
  unfolding outcome
  outcome_same w last x i r =
      rw
        (
          evaluate-forgets host cel s.decision_engine x (some r) w.now,
          prepare_same w last x i r (w.new_uuid i),
        )
        refl

  outcomes_same :
      (w : World) (last : Time) (x : Conditions) (i : ℕ) (rs : List Resource)
      → outcomes host cel w (written last x) i rs ≡ outcomes host cel w s i rs
  unfolding outcomes
  outcomes_same w last x i [] = refl
  outcomes_same w last x i (r ∷ rs) =
      rw (outcome_same w last x i r, outcomes_same w last x (suc i) rs) refl

  calls_of_same :
      (w : World) (last : Time) (x : Conditions) (os : List Outcome)
      → calls_of host cel w (written last x) os ≡ calls_of host cel w s os
  unfolding calls_of
  calls_of_same w last x [] = refl
  calls_of_same w last x (o ∷ os) =
      ap (λ calls. outcome_calls host cel w s o ++ calls) (calls_of_same w last x os)

  fetched_same :
      (w : World) (last : Time) (x : Conditions) (rs : List Resource)
      → fetch host cel w s ≡ ok rs
      → ((trigger host cel w (written last x)).calls ≡ (trigger host cel w s).calls)
        × IsWritten (trigger host cel w (written last x)).state
  unfolding trigger
  fetched_same w last x rs fetched =
      let s' = written last x in
      let again : fetch host cel w s' ≡ ok rs = unfold fetch in fetched in
      let (_, _, calls) = trigger_fetched host cel w s rs fetched in
      let (_, _, calls') = trigger_fetched host cel w s' rs again in
      let a = process_resources-Accounts host cel w s' 0 rs (first_round host cel s') (x, refl) in
      (
        calls'
            ∙ rw (outcomes_same w last x 0 rs, calls_of_same w last x (outcomes host cel w s 0 rs))
                refl
            ∙ sym calls,
        rw fetched (
          w.end_time,
          a.engine.0,
          ap (λ e. record s' { last_successful_poll = w.end_time; decision_engine = e }) a.engine.1,
        ),
      )

  failed_same :
      (w : World) (last : Time) (x : Conditions) (e : Error)
      → fetch host cel w s ≡ err e
      → ((trigger host cel w (written last x)).calls ≡ (trigger host cel w s).calls)
        × IsWritten (trigger host cel w (written last x)).state
  failed_same w last x e failed =
      let again : fetch host cel w (written last x) ≡ err e = unfold fetch in failed in
      rw (trigger_failed host cel w s e failed, trigger_failed host cel w (written last x) e again)
        (refl, (last, x, refl))

  trigger_same :
      (w : World) (s' : Sentinel cel)
      → IsWritten s'
      → ((trigger host cel w s').calls ≡ (trigger host cel w s).calls)
        × IsWritten (trigger host cel w s').state
  trigger_same w s' (last, x, same) = rw same (elim (Result-cases (fetch host cel w s)) [
    | inl (rs, fetched) ↦ fetched_same w last x rs fetched
    | inr (e, failed) ↦ failed_same w last x e failed
  ])

  -- The calls of cycles that all find the same state.
  abbrev pub calls_of_cycles : List World → List Call
  calls_of_cycles [] = []
  calls_of_cycles (w ∷ worlds) = (trigger host cel w s).calls ++ calls_of_cycles worlds

  poll-calls :
      (worlds : List World) (later : List (Signal host cel)) (r : Run host cel)
      → IsWritten r.state
      → (poll host cel (map tick worlds ++ done ∷ later) r).calls
        ≡ r.calls ++ calls_of_cycles worlds
  unfolding poll
  poll-calls [] later r h = sym (append-nil r.calls)
  poll-calls (w ∷ worlds) later r h =
      let (calls, next) = trigger_same w r.state h in
      let step : Run host cel = record r {
        state = (trigger host cel w r.state).state;
        calls = r.calls ++ (trigger host cel w r.state).calls;
      } in
      poll-calls worlds later step next
      ∙ ap (λ c. (r.calls ++ c) ++ calls_of_cycles worlds) calls
      ∙ append_assoc r.calls (trigger host cel w s).calls (calls_of_cycles worlds)

  -- The calls of a run of `Start` are those of its cycles, one after the other, until the context
  -- is cancelled, each as `trigger` makes them on the state that the run found: what a cycle
  -- publishes and counts does not depend on the cycles before it, whether they failed, what they
  -- fetched, and what they left in the engine.
  pub start-calls :
      (w : World) (worlds : List World) (later : List (Signal host cel))
      → (start host cel w (map tick worlds ++ done ∷ later) s).calls ≡ calls_of_cycles (w ∷ worlds)
  unfolding start
  start-calls w worlds later =
      let start_state : IsWritten s =
        (s.last_successful_poll, s.decision_engine.conditions_lookup, refl) in
      poll-calls worlds later _ (trigger_same w s start_state).1
