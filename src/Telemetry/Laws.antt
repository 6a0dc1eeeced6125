-- ===== src/Telemetry/Laws.antt =====
-- The sampling rate, and the provider that is set up.
use hyperfleet_sentinel.Base.{
  Environment, String, ◌≡◌, refl, sym, Bool, true, false, none, ok, if◌then◌else◌, Host,
  Option-cases, inl, inr, ok_inj, err≢ok, arith,
}
use hyperfleet_sentinel.Telemetry.{
  Otel, Sampler, TracerProvider, always_sample, never_sample, trace_id_ratio_based, parent_based,
  parse_sampling_rate, choose_sampler, choose_exporter, init_trace_provider,
}

module _ (otel : Otel) where
  open otel use {Float, at_least_zero, at_most_one}

  abbrev pub IsRate : Float → Type 0
  IsRate rate = (at_least_zero rate ≡ true) × (at_most_one rate ≡ true)

  -- A sampler whose rate, if it has one, is between 0 and 1.
  pub data HasRate : Sampler Float → Type 0 where
    always : HasRate always_sample
    never : HasRate never_sample
    ratio : {rate : Float} → IsRate rate → HasRate (trace_id_ratio_based rate)
    parent : {s : Sampler Float} → HasRate s → HasRate (parent_based s)

HasRate-if :
    (otel : Otel) (b : Bool) (s t : Sampler otel.Float)
    → HasRate otel s
    → HasRate otel t
    → HasRate otel (if b then s else t)
HasRate-if otel true s t hs ht = hs
HasRate-if otel false s t hs ht = ht

module _ (host : Host) (otel : Otel) (getenv : Environment) where
  open otel use {Float, one, at_least_zero, at_most_one, parse_float, new_exporter, new_resource}

  parse_sampling_rate-IsRate : IsRate otel one → IsRate otel (parse_sampling_rate host otel getenv)
  unfolding parse_sampling_rate
  parse_sampling_rate-IsRate h = ground arith

  choose_sampler-HasRate :
      (type : String) → IsRate otel one → HasRate otel (choose_sampler host otel getenv type)
  unfolding choose_sampler
  choose_sampler-HasRate type h =
      let rate = HasRate.ratio (parse_sampling_rate-IsRate h) in
      HasRate-if otel _ _ _ HasRate.always (
        HasRate-if otel _ _ _ HasRate.never (
          HasRate-if otel _ _ _ rate (
            HasRate-if otel _ _ _ (HasRate.parent rate) (
              HasRate-if otel _ _ _ (HasRate.parent HasRate.always)
                (HasRate-if otel _ _ _ (HasRate.parent HasRate.never) (HasRate.parent rate))))))

  -- When 1.0 is between 0 and 1, whatever the environment holds, a provider that is set up has
  -- the chosen exporter, which was created, and a sampler whose rate, if it has one, is between
  -- 0 and 1.
  pub init_trace_provider-HasRate :
      (name version : String) (tp : TracerProvider Float)
      → IsRate otel one
      → init_trace_provider host otel getenv name version ≡ ok tp
      → (new_exporter tp.exporter ≡ none)
        × (tp.exporter ≡ choose_exporter host otel getenv)
        × HasRate otel tp.sampler
  unfolding init_trace_provider
  init_trace_provider-HasRate name version tp h made =
      elim (Option-cases (new_exporter (choose_exporter host otel getenv))) [
        | inr (e, failed) ↦ absurd (err≢ok (rw (failed, init_trace_provider) at made))
        | inl created ↦ elim (Option-cases (new_resource name version)) [
          | inr (e, failed) ↦ absurd (err≢ok (rw (created, failed, init_trace_provider) at made))
          | inl resource ↦
              let same = ok_inj (rw (created, resource, init_trace_provider) at made) in
              rw (sym same) (
                created,
                refl,
                choose_sampler-HasRate (host.to_lower (getenv "OTEL_TRACES_SAMPLER")) h,
              )
        ]
      ]
