-- ===== src/Metrics/Registry/Laws.antt =====
-- What is registered, and that the updates fit it.
use mathlib.Core.List.{append-nil}
use hyperfleet_sentinel.Base.{
  ℕ, String, ◌≡◌, refl, Bool, true, false, Option, none, some, Bool-cases, ◌⊎◌, List, [], ◌∷◌, ◌++◌,
  All, In, inl, inr, ◌==◌, if◌then◌else◌, arith, map,
}
use hyperfleet_sentinel.Metrics.{
  MetricCall, set_pending, inc_published, inc_skipped, inc_api_errors, inc_broker_errors,
  observe_duration, set_last_poll,
}
use hyperfleet_sentinel.Metrics.Registry.{
  metrics_names, Collector, SentinelMetrics, sentinel_metrics, registered, registerer_of, Package,
  initial, Registration, register_all, new_sentinel_metrics, Registries, must_register,
}

-- Calls of `NewSentinelMetrics`, with their arguments, from a package: what they register, and what
-- they return.
abbrev pub Calls : Type 0
Calls = List (Option ℕ × String)

unfoldable pub calls :
    Registries
    → List Registration
    → Package
    → Calls
    → List Registration × List (Option SentinelMetrics)
unfolding new_sentinel_metrics
calls takes held p [] = ([], [])
calls takes held p ((reg, version) ∷ rest) =
    let c = new_sentinel_metrics takes held p reg version in
    let (registrations, results) = calls takes (held ++ c.registrations) c.kept rest in
    (c.registrations ++ registrations, c.result ∷ results)

if-true {ℓ} : {A : Type ℓ} (b : Bool) (x y : A) → b ≡ true → (if b then x else y) ≡ x
if-true true x y h = refl
if-true false x y h = absurd (cc h)

module _ (takes : Registries) where
  called_again :
      (held : List Registration) (p : Package) (reg : Option ℕ) (version : String)
      → p.once_done ≡ true
      → new_sentinel_metrics takes held p reg version
        ≡ record { kept = p; registrations = []; panics = false; result = p.instance_of }
  unfolding new_sentinel_metrics
  called_again held p reg version h = if-true p.once_done _ _ h

  calls-once_done :
      (held : List Registration) (p : Package) (rest : Calls)
      → p.once_done ≡ true
      → ((calls takes held p rest).0 ≡ [])
        × All (λ r. r ≡ p.instance_of) (calls takes held p rest).1
  unfolding calls
  calls-once_done held p [] h = (refl, tt)
  calls-once_done held p ((reg, version) ∷ rest) h =
      let (none_left, same) = calls-once_done (held ++ []) p rest h in
      rw (called_again held p reg version h) (none_left, (refl, same))

  -- The registries take each of the registrations, in order.
  abbrev pub TakesAll : List Registration → List Registration → Type 0
  TakesAll held [] = Unit
  TakesAll held (x ∷ xs) = (takes held x ≡ true) × TakesAll (held ++ x ∷ []) xs

  must_register-cases :
      (held xs : List Registration)
      → (TakesAll held xs × (must_register takes held xs ≡ (xs, false)))
        ⊎ ((¬ TakesAll held xs)
            × ((made : List Registration) × (must_register takes held xs ≡ (made, true))))
  unfolding must_register
  must_register-cases held [] = inl (tt, refl)
  must_register-cases held (x ∷ xs) = elim (Bool-cases (takes held x)) [
    | inr refused ↦ inr (λ h. cc (h.0), ([], rw refused refl))
    | inl taken ↦ elim (must_register-cases (held ++ x ∷ []) xs) [
      | inl (all, same) ↦ inl ((taken, all), rw (taken, same) refl)
      | inr (not_all, (made, same)) ↦ inr (λ h. not_all h.1, (x ∷ made, rw (taken, same) refl))
    ]
  ]

-- Registering a name twice panics.
abbrev pub IsDistinct : List Collector → Type 0
IsDistinct [] = Unit
IsDistinct (c ∷ cs) = All (λ other. (c.name == other.name) ≡ false) cs × IsDistinct cs

-- The collector that an update calls, how, and the labels that it gives.
abbrev pub target : SentinelMetrics → MetricCall → Collector
target m (set_pending _ _ _) = m.pending_resources
target m (inc_published _ _ _) = m.events_published
target m (inc_skipped _ _ _) = m.resources_skipped
target m (inc_api_errors _ _ _) = m.api_errors
target m (inc_broker_errors _ _ _) = m.broker_errors
target m (observe_duration _ _ _) = m.poll_duration
target m set_last_poll = m.last_successful_poll_timestamp

abbrev pub given_labels : MetricCall → List String
given_labels (set_pending _ _ _) = "resource_type" ∷ "resource_selector" ∷ []
given_labels (inc_published _ _ _) = "resource_type" ∷ "resource_selector" ∷ "reason" ∷ []
given_labels (inc_skipped _ _ _) = "resource_type" ∷ "resource_selector" ∷ "reason" ∷ []
given_labels (inc_api_errors _ _ _) = "resource_type" ∷ "resource_selector" ∷ "error_type" ∷ []
given_labels (inc_broker_errors _ _ _) = "resource_type" ∷ "resource_selector" ∷ "error_type" ∷ []
given_labels (observe_duration _ _ _) = "resource_type" ∷ "resource_selector" ∷ []
given_labels set_last_poll = []

target-labels :
    (version : String) (call : MetricCall)
    → let m = sentinel_metrics version in
      In (target m call) (registered m) × ((target m call).labels ≡ given_labels call)
target-labels version (set_pending _ _ _) = (inl refl, refl)
target-labels version (inc_published _ _ _) = (inr (inl refl), refl)
target-labels version (inc_skipped _ _ _) = (inr (inr (inl refl)), refl)
target-labels version (observe_duration _ _ _) = (inr (inr (inr (inl refl))), refl)
target-labels version (inc_api_errors _ _ _) = (inr (inr (inr (inr (inl refl)))), refl)
target-labels version (inc_broker_errors _ _ _) = (inr (inr (inr (inr (inr (inl refl))))), refl)
target-labels version set_last_poll = (inr (inr (inr (inr (inr (inr (inl refl)))))), refl)

-- However often NewSentinelMetrics is called, and with whatever arguments: if the registries take
-- its collectors, the first call registers them, of distinct names, with its registry, without a
-- panic, the later calls register nothing, and all return the first one's metrics; if they do not
-- take one, the first call panics, and the later ones register nothing and return nil. Every call
-- that an update makes is on a registered collector, with exactly the labels that the collector
-- declares.
pub new_sentinel_metrics-once :
    (takes : Registries) (held : List Registration) (reg : Option ℕ) (version : String)
    (rest : Calls)
    → let m = sentinel_metrics version in
      let all = register_all (registerer_of reg) (registered m) in
      let first = new_sentinel_metrics takes held initial reg version in
      let called = calls takes held initial ((reg, version) ∷ rest) in
      ((TakesAll takes held all
          × (first.panics ≡ false)
          × (called.0 ≡ all)
          × All (λ r. r ≡ some m) called.1)
        ⊎ ((¬ TakesAll takes held all)
            × (first.panics ≡ true)
            × (called.0 ≡ first.registrations)
            × All (λ r. r ≡ none) called.1))
      × IsDistinct (registered m)
      × ((call : MetricCall)
          → In (target m call) (registered m) × ((target m call).labels ≡ given_labels call))
unfolding calls new_sentinel_metrics
new_sentinel_metrics-once takes held reg version rest =
    let m = sentinel_metrics version in
    let all = register_all (registerer_of reg) (registered m) in
    (
      elim (must_register-cases takes held all) [
        | inl (taken, same) ↦
            let (nothing, again) =
              calls-once_done takes (held ++ all)
                (record { instance_of = some m; once_done = true; collectors = some m }) rest
                refl in
            inl (taken, rw same refl, rw (same, nothing) refl, rw same (refl, again))
        | inr (refused, (made, same)) ↦
            let (nothing, again) =
              calls-once_done takes (held ++ made)
                (record { instance_of = none; once_done = true; collectors = some m }) rest refl in
            inr (refused, rw same refl, rw (same, nothing) (append-nil made), rw same (refl, again))
      ],
      ground arith,
      target-labels version,
    )

-- What is registered is what MetricsNames lists, in its order.
registered-metrics_names :
    (version : String) → map (λ c. c.name) (registered (sentinel_metrics version)) ≡ metrics_names
registered-metrics_names version = refl
