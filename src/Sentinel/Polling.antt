-- ===== src/Sentinel/Polling.antt =====
-- The polling loop of `Start`: what a run of ticks and a cancellation leave behind.
use hyperfleet_sentinel.Base.{
  ◌≡◌, refl, sym, ap, ◌∙◌, true, false, List, [], ◌∷◌, ◌++◌, map, Result, ok, err, Host, Time,
}
use hyperfleet_sentinel.Cel.{Cel}
use hyperfleet_sentinel.Client.{Resource, Error}
use hyperfleet_sentinel.Sentinel.{Sentinel, World}
use hyperfleet_sentinel.Sentinel.Cycle.{fetch, cycle, trigger, Signal, tick, done, Run, poll, start}

-- The time after a cycle whose fetch had a result.
abbrev pub polled : World → Result Error (List Resource) → Time → Time
polled w (ok resources) before = w.end_time
polled w (err e) before = before

module _ (host : Host) (cel : Cel) where
  -- The end of the last cycle whose fetch succeeds, or what was there before.
  abbrev pub last_polled : Sentinel cel → List World → Time → Time
  last_polled s [] before = before
  last_polled s (w ∷ worlds) before = last_polled s worlds (polled w (fetch host cel w s) before)

  fetch_same :
      (w : World) (s s' : Sentinel cel)
      → s'.config ≡ s.config
      → fetch host cel w s' ≡ fetch host cel w s
  unfolding fetch
  fetch_same w s s' same = rw same

  trigger_lem :
      (w : World) (s s' : Sentinel cel)
      → s'.config ≡ s.config
      → ((trigger host cel w s').state.config ≡ s.config)
        × ((trigger host cel w s').state.last_successful_poll
            ≡ polled w (fetch host cel w s) s'.last_successful_poll)
  unfolding trigger
  trigger_lem w s s' same =
      rw (sym (fetch_same w s s' same))
        (elim (fetch host cel w s')
          as (λ x.
            ((cycle host cel w s' x).state.config ≡ s.config)
            × ((cycle host cel w s' x).state.last_successful_poll
                ≡ polled w x s'.last_successful_poll)) [
                  | ok resources ↦ (same, refl)
                  | err e ↦ (same, refl)
                ])

  poll_lem :
      (s : Sentinel cel) (worlds : List World) (later : List (Signal host cel)) (r : Run host cel)
      → r.state.config ≡ s.config
      → ((poll host cel (map tick worlds ++ done ∷ later) r).stopped ≡ true)
        × ((poll host cel (map tick worlds ++ done ∷ later) r).state.config ≡ s.config)
        × ((poll host cel (map tick worlds ++ done ∷ later) r).state.last_successful_poll
            ≡ last_polled s worlds r.state.last_successful_poll)
  unfolding poll
  poll_lem s [] later r same = (refl, same, refl)
  poll_lem s (w ∷ worlds) later r same =
      let (config, last) = trigger_lem w s r.state same in
      let next : Run host cel = record r {
        state = (trigger host cel w r.state).state;
        calls = r.calls ++ (trigger host cel w r.state).calls;
      } in
      let (stopped, kept, polls) = poll_lem s worlds later next config in
      (stopped, kept, polls ∙ ap (last_polled s worlds) last)

  poll_later :
      (worlds : List World) (later : List (Signal host cel)) (r : Run host cel)
      → poll host cel (map tick worlds ++ done ∷ later) r
        ≡ poll host cel (map tick worlds ++ done ∷ []) r
  unfolding poll
  poll_later [] later r = refl
  poll_later (w ∷ worlds) later r = poll_later worlds later _

  -- `Start` goes on over ticks, whether or not their cycles fail, until the context is cancelled;
  -- then it has returned, and what comes later changes nothing, its calls included. The
  -- configuration stays as it was, and the last successful poll is the end of the last cycle,
  -- the first at once or that of a tick, whose fetch succeeded.
  pub start_lem :
      (w : World) (worlds : List World) (later : List (Signal host cel)) (s : Sentinel cel)
      → ((start host cel w (map tick worlds ++ done ∷ later) s).stopped ≡ true)
        × (start host cel w (map tick worlds ++ done ∷ later) s
            ≡ start host cel w (map tick worlds ++ done ∷ []) s)
        × ((start host cel w (map tick worlds ++ done ∷ later) s).state.config ≡ s.config)
        × ((start host cel w (map tick worlds ++ done ∷ later) s).state.last_successful_poll
            ≡ last_polled s (w ∷ worlds) s.last_successful_poll)
  unfolding start
  start_lem w worlds later s =
      let (config, last) = trigger_lem w s s refl in
      let c = trigger host cel w s in
      let first : Run host cel = record { state = c.state; calls = c.calls; stopped = false } in
      let (stopped, kept, polls) = poll_lem s worlds later first config in
      (stopped, poll_later worlds later first, kept, polls ∙ ap (last_polled s worlds) last)
