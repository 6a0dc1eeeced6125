-- ===== src/Sentinel/Counts.antt =====
-- How the counters of a cycle add up.
use hyperfleet_sentinel.Base.{
  ℕ, suc, ◌+◌, ◌≤◌, String, ◌≡◌, refl, none, some, List, [], ◌∷◌, Result, ok, err, arith, Host,
  ◌==◌, if◌then◌else◌, Bool-cases, inl, inr,
}
use hyperfleet_sentinel.Cel.{Cel}
use hyperfleet_sentinel.Client.{Resource}
use hyperfleet_sentinel.Sentinel.{Sentinel, World, topic, new_event, process_resources}
use hyperfleet_sentinel.Sentinel.Cycle.{first_round}
use hyperfleet_sentinel.Sentinel.Outcomes.{
  Outcome, no_id, no_uuid, no_data, skipped, refused, published, outcome, outcomes, decision_of,
  prepare, deliver, answer, is_published, is_skipped, is_pending, total,
}
use hyperfleet_sentinel.Sentinel.Laws.{process_resources-Accounts}

-- How many resources have an id.
abbrev pub count_named : List Resource → ℕ
count_named [] = 0
count_named (r ∷ rs) = if r.id == "" then count_named rs else suc (count_named rs)

published≤pending : (o : Outcome) → is_published o ≤ is_pending o
published≤pending no_id = omega arith
published≤pending no_uuid = omega arith
published≤pending no_data = omega arith
published≤pending (skipped reason) = omega arith
published≤pending (refused event) = omega arith
published≤pending (published reason event) = omega arith

total-published≤pending : (os : List Outcome) → total is_published os ≤ total is_pending os
total-published≤pending [] = omega arith
total-published≤pending (o ∷ os) = omega (arith, published≤pending o, total-published≤pending os)

module _ (host : Host) (cel : Cel) (w : World) (s : Sentinel cel) where
  pub prepare-counts :
      (i : ℕ) (r : Resource) (made : Result String String)
      → (is_pending (prepare host cel w s i r made) ≡ 1)
        × (is_skipped (prepare host cel w s i r made) ≡ 0)
  prepare-counts i r (err e) = (refl, refl)
  prepare-counts i r (ok event_id) =
      let event = new_event host cel w s i event_id r (decision_of host cel w s r) in
      elim (w.set_data i event.event_data)
        as (λ x.
          (is_pending (deliver host cel w s i (decision_of host cel w s r).reason event x) ≡ 1)
          × (is_skipped (deliver host cel w s i (decision_of host cel w s r).reason event x) ≡ 0)) [
            | err e ↦ (refl, refl)
            | ok _ ↦
                elim (w.publish i (topic host cel w s) event)
                  as (λ x.
                    (is_pending (answer host cel w s x (decision_of host cel w s r).reason event)
                      ≡ 1)
                    × (is_skipped (answer host cel w s x (decision_of host cel w s r).reason event)
                        ≡ 0)) [ none ↦ (refl, refl) | some e ↦ (refl, refl) ]
          ]

  outcome-counts :
      (i : ℕ) (r : Resource)
      → is_pending (outcome host cel w s i r) + is_skipped (outcome host cel w s i r)
        ≡ (if r.id == "" then 0 else 1)
  unfolding outcome
  outcome-counts i r =
      let c = prepare-counts i r (w.new_uuid i) in
      elim (Bool-cases (r.id == "")) [
        | inl empty ↦ rw empty
        | inr named ↦ elim (Bool-cases (decision_of host cel w s r).should_publish) [
          | inl wanted ↦ rw (named, wanted, c.0, c.1)
          | inr unwanted ↦ rw (named, unwanted)
        ]
      ]

  outcomes-counts :
      (i : ℕ) (rs : List Resource)
      → total is_pending (outcomes host cel w s i rs)
          + total is_skipped (outcomes host cel w s i rs)
        ≡ count_named rs
  unfolding outcomes
  outcomes-counts i [] = refl
  outcomes-counts i (r ∷ rs) = ground (arith, outcome-counts i r, outcomes-counts (suc i) rs)

  -- How many resources have an id is how many are pending or skipped, and no more are published
  -- than are pending.
  pub process_resources-counts :
      (rs : List Resource)
      → let l = process_resources host cel w s 0 rs (first_round host cel s) in
        (l.pending + l.skipped ≡ count_named rs) × (l.published ≤ l.pending)
  process_resources-counts rs =
      let os = outcomes host cel w s 0 rs in
      let a =
        process_resources-Accounts host cel w s 0 rs (first_round host cel s)
          (s.decision_engine.conditions_lookup, refl) in
      (
        omega (arith, a.pending, a.skipped, outcomes-counts 0 rs),
        omega (arith, a.pending, a.published, total-published≤pending os),
      )
