-- ===== src/Sentinel/Due/Start.antt =====
-- A run of `Start` by a sentinel whose engine is that of the default message decision.
use hyperfleet_sentinel.Base.{
  ℕ, String, ◌≡◌, ◌≢◌, subst, refl, true, some, List, [], ◌∷◌, ◌++◌, map, length, ok, Result-cases,
  Host, inl, inr, In, In-append, In-left, In-right, All, All-In,
}
use hyperfleet_sentinel.Cel.{Cel}
use hyperfleet_sentinel.Cel.Meaning.{Conversions, IsCel}
use hyperfleet_sentinel.Client.{Resource}
use hyperfleet_sentinel.Config.{default_message_decision}
use hyperfleet_sentinel.Engine.{new_decision_engine}
use hyperfleet_sentinel.Engine.Default.{default_expressions}
use hyperfleet_sentinel.Engine.Default.Due.{is_due}
use hyperfleet_sentinel.Engine.Default.Laws.{IsConversions}
use hyperfleet_sentinel.Sentinel.{Sentinel, World, Event, Call, publish, topic, new_event}
use hyperfleet_sentinel.Sentinel.Cycle.{fetch, trigger, Signal, tick, done, start}
use hyperfleet_sentinel.Sentinel.Due.{AreEarly, trigger-is_due, trigger_publishes-is_due}
use hyperfleet_sentinel.Sentinel.Independence.{calls_of_cycles, start-calls}
use hyperfleet_sentinel.Sentinel.Laws.{trigger_failed}
use hyperfleet_sentinel.Sentinel.Outcomes.{decision_of}
use hyperfleet_sentinel.Sentinel.Publications.{publish∉metrics}

module _ (host : Host) (cel : Cel) (s : Sentinel cel) where
  -- The calls of a run are those of its cycles.
  of_cycle :
      (c : Call) (worlds : List World)
      → In c (calls_of_cycles host cel s worlds)
      → (w : World) × In w worlds × In c (trigger host cel w s).calls
  of_cycle c [] h = absurd h
  of_cycle c (w ∷ worlds) h =
      elim (In-append c (trigger host cel w s).calls (calls_of_cycles host cel s worlds) h) [
        | inl here ↦ (w, inl refl, here)
        | inr later ↦ (let (w', i, there) = of_cycle c worlds later in (w', inr i, there))
      ]

  of_run :
      (c : Call) (w : World) (worlds : List World)
      → In w worlds
      → In c (trigger host cel w s).calls
      → In c (calls_of_cycles host cel s worlds)
  of_run c w [] i h = absurd i
  of_run c w (w' ∷ worlds) (inl same) h =
      In-left c (trigger host cel w' s).calls (calls_of_cycles host cel s worlds)
        (subst (λ v. In c (trigger host cel v s).calls) same h)
  of_run c w (w' ∷ worlds) (inr i) h =
      In-right c (trigger host cel w' s).calls (calls_of_cycles host cel s worlds)
        (of_run c w worlds i h)

  fetched_if_published :
      (w : World) (t : String) (e : Event)
      → In (publish t e) (trigger host cel w s).calls
      → (rs : List Resource) × (fetch host cel w s ≡ ok rs)
  fetched_if_published w t e h = elim (Result-cases (fetch host cel w s)) [
    | inl fetched ↦ fetched
    | inr (x, failed) ↦
        absurd (publish∉metrics t e _ (rw (trigger_failed host cel w s x failed) at h))
  ]

module _ (host : Host) (cel : Cel) (conversions : Conversions) (s : Sentinel cel)
    (laws : IsCel cel conversions default_expressions) (converted : IsConversions host conversions)
    (made : new_decision_engine host cel (some default_message_decision)
      ≡ ok (record s.decision_engine { conditions_lookup = [] })) where
  -- When the sentinel's engine is the one that is created from the default message decision, and
  -- the library evaluates and converts as documented: every event that a run of `Start` publishes,
  -- until the context is cancelled, is made in one of its cycles for a resource that this cycle
  -- fetched, that has an id, and that is due at the cycle's time. The times of the cycles are
  -- supposed not to be zero, and the conditions of what they fetch to be of times before the year
  -- 10000.
  pub start-is_due :
      (w : World) (worlds : List World) (later : List (Signal host cel)) (t : String) (e : Event)
      → All (λ w'. w'.now ≢ 0) (w ∷ worlds)
      → All
          (λ w'. (rs : List Resource) → fetch host cel w' s ≡ ok rs → All AreEarly rs)
          (w ∷ worlds)
      → In (publish t e) (start host cel w (map tick worlds ++ done ∷ later) s).calls
      → (w' : World) × In w' (w ∷ worlds)
        × (rs : List Resource) × (fetch host cel w' s ≡ ok rs)
        × ((r : Resource) × In r rs
            × (r.id ≢ "")
            × (is_due r w'.now ≡ true)
            × ((i : ℕ) × (event_id : String) × (e
                  ≡ new_event host cel w' s i event_id r (decision_of host cel w' s r))))
  start-is_due w worlds later t e started early h =
      let (w', i, there) =
        of_cycle host cel s (publish t e) (w ∷ worlds)
          (rw (start-calls host cel s w worlds later) at h) in
      let (rs, fetched) = fetched_if_published host cel s w' t e there in
      (
        w',
        i,
        rs,
        fetched,
        trigger-is_due host cel conversions w' s laws converted
            (All-In (λ (v : World). v.now ≢ 0) w' (w ∷ worlds) started i) made rs t e fetched
            (All-In (λ v. (rs' : List Resource) → fetch host cel v s ≡ ok rs' → All AreEarly rs') w'
              (w ∷ worlds) early i rs fetched)
            there,
      )

  -- When the sentinel's engine is the one that is created from the default message decision, and
  -- the library evaluates and converts as documented: in a run of `Start`, whatever its other
  -- cycles meet, each cycle before the context is cancelled publishes the event of a resource that
  -- it fetched, that has an id and that is due at its time, when the time is not zero, the
  -- conditions are of times before the year 10000, its UUID is made and the event takes its data.
  pub start_publishes-is_due :
      (w : World) (worlds : List World) (later : List (Signal host cel)) (w' : World)
      (before after : List Resource) (r : Resource) (event_id : String)
      → In w' (w ∷ worlds)
      → w'.now ≢ 0
      → fetch host cel w' s ≡ ok (before ++ r ∷ after)
      → AreEarly r
      → r.id ≢ ""
      → is_due r w'.now ≡ true
      → w'.new_uuid (length before) ≡ ok event_id
      → w'.set_data
          (length before)
          (new_event host cel w' s
            (length before)
            event_id
            r
            (decision_of host cel w' s r)).event_data
        ≡ ok tt
      → In
          (publish
            (topic host cel w' s)
            (new_event host cel w' s (length before) event_id r (decision_of host cel w' s r)))
          (start host cel w (map tick worlds ++ done ∷ later) s).calls
  start_publishes-is_due w worlds later w' before after r event_id i started fetched early named due
        fresh taken =
      rw (start-calls host cel s w worlds later) (
        of_run host cel s _ w' (w ∷ worlds) i (
          trigger_publishes-is_due host cel conversions w' s laws converted started made before
            after r event_id fetched early named due fresh taken))
