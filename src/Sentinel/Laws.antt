-- ===== src/Sentinel/Laws.antt =====
-- What a cycle does, when its fetch succeeds and when it fails.
use mathlib.Core.List.{append-nil, append_assoc}
use native.Mathlib.Nat.{zero-add}
use hyperfleet_sentinel.Base.{
  ℕ, suc, ◌+◌, ◌≡◌, refl, sym, ap, ◌∙◌, true, false, some, List, [], ◌∷◌, ◌++◌, map, ok, err, arith,
  Host, ◌==◌, Bool-cases, inl, inr, pos,
}
use hyperfleet_sentinel.Cel.{Cel}
use hyperfleet_sentinel.Client.{Resource, Error, wrapped}
use hyperfleet_sentinel.Engine.{DecisionEngine, evaluate}
use hyperfleet_sentinel.Engine.Maps.{Conditions}
use hyperfleet_sentinel.Engine.Laws.{evaluate-forgets, engine-evaluate}
use hyperfleet_sentinel.Metrics.{
  update_pending_resources, update_poll_duration, update_api_errors,
  update_last_successful_poll_timestamp,
}
use hyperfleet_sentinel.Sentinel.{
  Sentinel, Loop, World, metric, resource_type, resource_selector, act, process_resource,
  process_resources,
}
use hyperfleet_sentinel.Sentinel.Cycle.{fetch, first_round, trigger}
use hyperfleet_sentinel.Sentinel.Outcomes.{
  Outcome, after, outcome, outcomes, outcome_calls, calls_of, act-eq, decision_of, is_published,
  is_skipped, is_pending, total,
}

module _ (host : Host) (cel : Cel) (w : World) (s : Sentinel cel) where
  -- The engine as the cycle found it, up to the conditions of the last evaluation.
  abbrev pub IsSameEngine : DecisionEngine cel → Type 0
  IsSameEngine e = (x : Conditions) × (e ≡ record s.decision_engine { conditions_lookup = x })

  decision_same :
      (e : DecisionEngine cel) (r : Resource)
      → IsSameEngine e
      → (evaluate host cel e (some r) w.now).0 ≡ decision_of host cel w s r
  decision_same e r (x, same) =
      rw same (evaluate-forgets host cel s.decision_engine x (some r) w.now)

  engine_same :
      (e : DecisionEngine cel) (r : Resource)
      → IsSameEngine e
      → IsSameEngine (evaluate host cel e (some r) w.now).1
  engine_same e r (x, same) =
      let (y, step) = engine-evaluate host cel e (some r) w.now in
      (y, step ∙ ap (λ (d : DecisionEngine cel). record d { conditions_lookup = y }) same)

  process_resource_unnamed :
      (i : ℕ) (r : Resource) (l : Loop cel)
      → (r.id == "") ≡ true
      → process_resource host cel w s i r l ≡ l
  unfolding process_resource
  process_resource_unnamed i r l empty = rw empty

  process_resource_named :
      (i : ℕ) (r : Resource) (l : Loop cel)
      → (r.id == "") ≡ false
      → process_resource host cel w s i r l
        ≡ act host cel w s i r
            (evaluate host cel l.engine (some r) w.now).0
            (record l { engine = (evaluate host cel l.engine (some r) w.now).1 })
  unfolding process_resource
  process_resource_named i r l named = rw named

  after_unnamed :
      (i : ℕ) (r : Resource) (l : Loop cel)
      → (r.id == "") ≡ true
      → l ≡ after host cel w s l l.engine (outcome host cel w s i r)
  unfolding outcome
  after_unnamed i r l empty = rw empty (ground (arith, append-nil l.calls))

  after_named :
      (i : ℕ) (r : Resource) (l : Loop cel)
      → (r.id == "") ≡ false
      → act host cel w s i r (decision_of host cel w s r) l
        ≡ after host cel w s l l.engine (outcome host cel w s i r)
  unfolding outcome
  after_named i r l named = rw named (act-eq host cel w s i r l)

  process_resource-eq :
      (i : ℕ) (r : Resource) (l : Loop cel)
      → IsSameEngine l.engine
      → (e : DecisionEngine cel) × IsSameEngine e
        × (process_resource host cel w s i r l ≡ after host cel w s l e (outcome host cel w s i r))
  process_resource-eq i r l same =
      let l' : Loop cel = record l { engine = (evaluate host cel l.engine (some r) w.now).1 } in
      elim (Bool-cases (r.id == "")) [
        | inl empty ↦
            (l.engine, same, process_resource_unnamed i r l empty ∙ after_unnamed i r l empty)
        | inr named ↦ (
          l'.engine,
          engine_same l.engine r same,
          process_resource_named i r l named
              ∙ ap (λ d. act host cel w s i r d l') (decision_same l.engine r same)
              ∙ after_named i r l' named,
        )
      ]

  -- The loop's calls and counts are those of the outcomes, added to what was there.
  pub record Accounts (before l : Loop cel) (os : List Outcome) : Type 0 where
    pub calls : l.calls ≡ before.calls ++ calls_of host cel w s os
    pub published : l.published ≡ before.published + total is_published os
    pub skipped : l.skipped ≡ before.skipped + total is_skipped os
    pub pending : l.pending ≡ before.pending + total is_pending os
    pub engine : IsSameEngine l.engine

  Accounts-cons :
      (before l : Loop cel) (e : DecisionEngine cel) (o : Outcome) (os : List Outcome)
      → Accounts (after host cel w s before e o) l os
      → Accounts before l (o ∷ os)
  unfolding calls_of
  Accounts-cons before l e o os a = record {
    calls =
        a.calls
        ∙ append_assoc before.calls (outcome_calls host cel w s o) (calls_of host cel w s os);
    published = omega (arith, a.published);
    skipped = omega (arith, a.skipped);
    pending = omega (arith, a.pending);
    engine = a.engine;
  }

  pub process_resources-Accounts :
      (i : ℕ) (rs : List Resource) (l : Loop cel)
      → IsSameEngine l.engine
      → Accounts l (process_resources host cel w s i rs l) (outcomes host cel w s i rs)
  unfolding process_resources outcomes
  process_resources-Accounts i [] l same = record {
    calls = unfold calls_of in sym (append-nil l.calls);
    published = omega arith;
    skipped = omega arith;
    pending = omega arith;
    engine = same;
  }
  process_resources-Accounts i (r ∷ rs) l same =
      let (e, same', step) = process_resource-eq i r l same in
      Accounts-cons l _ e (outcome host cel w s i r) (outcomes host cel w s (suc i) rs) (
        rw step (
          process_resources-Accounts (suc i) rs (after host cel w s l e (outcome host cel w s i r))
            same'))

  -- When the fetch succeeds, the cycle succeeds and records its end as the last successful poll,
  -- even if no publication succeeded; its calls are those of each resource's own outcome, in the
  -- order of the resources, and then the gauge of the pending resources, the duration and the
  -- timestamp. No resource's outcome depends on the others.
  pub trigger_fetched :
      (rs : List Resource)
      → fetch host cel w s ≡ ok rs
      → ((trigger host cel w s).result ≡ ok tt)
        × ((trigger host cel w s).state.last_successful_poll ≡ w.end_time)
        × ((trigger host cel w s).calls
            ≡ calls_of host cel w s (outcomes host cel w s 0 rs)
              ++ map metric (
                  update_pending_resources
                    (resource_type host cel w s)
                    (resource_selector host cel w s)
                    (pos (total is_pending (outcomes host cel w s 0 rs)))
                  ++ (update_poll_duration
                        (resource_type host cel w s)
                        (resource_selector host cel w s)
                        w.duration
                      ++ update_last_successful_poll_timestamp)))
  unfolding trigger
  trigger_fetched rs fetched =
      let a =
        process_resources-Accounts 0 rs (first_round host cel s)
          (s.decision_engine.conditions_lookup, refl) in
      rw fetched (refl, refl, rw (a.calls, a.pending, zero-add) refl)

  -- When the fetch fails, the cycle returns its error, its only calls are the update of the counter
  -- of API errors, and it leaves the state, the last successful poll included, as it was.
  pub trigger_failed :
      (e : Error)
      → fetch host cel w s ≡ err e
      → trigger host cel w s ≡ record {
        result = err (wrapped "failed to fetch resources" e);
        state = s;
        calls = map metric (
            update_api_errors
              (resource_type host cel w s)
              (resource_selector host cel w s)
              "fetch_error");
      }
  unfolding trigger
  trigger_failed e failed = rw failed
