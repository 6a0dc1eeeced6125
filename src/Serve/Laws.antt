-- ===== src/Serve/Laws.antt =====
-- What `runServe` opens and closes, on every way out.
use hyperfleet_sentinel.Base.{
  sym, err_inj, err≢ok, String, ◌≡◌, refl, Bool, true, false, Option, none, some, List, [], ◌∷◌,
  ◌++◌, Result, ok, err, All,
}
use hyperfleet_sentinel.Config.{SentinelConfig, HyperFleetApiConfig}
use hyperfleet_sentinel.Client.Fetch.{Api, verify_connectivity}
use hyperfleet_sentinel.Telemetry.{init_trace_provider}
use hyperfleet_sentinel.Logger.{LogConfig as LoggerConfig}
use hyperfleet_sentinel.Serve.Actions.{
  Failure, returned, panicked, pure, fail, Action, init_tracer, shutdown_tracer, register_metrics,
  new_publisher, close_publisher, with_cancel, cancel_context, add_check, set_ready, serve_health,
  serve_metrics, notify, run_sentinel, Frame, Go, perform, acquire, lift, continue_with, ◌>>=◌, run,
}
use hyperfleet_sentinel.Serve.{
  Machine, keep_provider, start_tracing, check_connectivity, connect_api, connect, keep_publisher,
  open_publisher, loop_result, run_loop, serve, run_serve, service_name,
}

-- What an action does to the closing actions that are still due, the most urgent first: to open
-- adds one, to close takes the first, and must be it.
abbrev pub due_after : Action → List Action → Option (List Action)
due_after init_tracer due = some (shutdown_tracer ∷ due)
due_after new_publisher due = some (close_publisher ∷ due)
due_after with_cancel due = some (cancel_context ∷ due)
due_after shutdown_tracer (shutdown_tracer ∷ due) = some due
due_after shutdown_tracer _ = none
due_after close_publisher (close_publisher ∷ due) = some due
due_after close_publisher _ = none
due_after cancel_context (cancel_context ∷ due) = some due
due_after cancel_context _ = none
due_after _ due = some due

abbrev due_then : Action → Option (List Action) → Option (List Action)
due_then a none = none
due_then a (some due) = due_after a due

-- The same for actions in order; none once an action closes what it must not.
abbrev pub due_afters : List Action → Option (List Action) → Option (List Action)
due_afters [] due = due
due_afters (a ∷ actions) due = due_afters actions (due_then a due)

due_afters-append :
    (xs ys : List Action) (due : Option (List Action))
    → due_afters (xs ++ ys) due ≡ due_afters ys (due_afters xs due)
due_afters-append [] ys due = refl
due_afters-append (x ∷ xs) ys due = due_afters-append xs ys (due_then x due)

-- An action that takes itself off the actions that are due.
abbrev IsCloser : Action → Type 0
IsCloser a = (due : List Action) → due_after a (a ∷ due) ≡ some due

due_afters-closers :
    (closers : List Action) → All IsCloser closers → due_afters closers (some closers) ≡ some []
due_afters-closers [] h = refl
due_afters-closers (a ∷ closers) h = rw (h.0 closers) (due_afters-closers closers h.1)

-- The deferred actions are those that are due.
abbrev IsOpen : Frame → Type 0
IsOpen f = (due_afters f.actions (some []) ≡ some f.deferred) × All IsCloser f.deferred

-- From a frame whose deferred actions are due, a part of the function ends in one, and it panics
-- only if `Q`.
abbrev Keeps : {A : Type 0} → Type 0 → Go A → Type 0
Keeps Q m = (f : Frame) → IsOpen f → IsOpen (m f).1 × ((m f).0 ≡ err panicked → Q)

no_panic_ok {ℓ κ} :
    {A : Type ℓ} {Q : Type κ} {a : A} → ◌≡◌ {A = Result Failure A} (ok a) (err panicked) → Q
no_panic_ok h = absurd (err≢ok (sym h))

no_panic_err {ℓ κ} :
    {A : Type ℓ} {Q : Type κ} {e : String}
    → ◌≡◌ {A = Result Failure A} (err (returned e)) (err panicked)
    → Q
no_panic_err h = absurd (cc (err_inj h))

continue-Keeps :
    {Q A B : Type 0} (r : Result Failure A) (f : Frame) (k : A → Go B)
    → IsOpen f
    → (r ≡ err panicked → Q)
    → ((a : A) → Keeps Q (k a))
    → IsOpen (continue_with r f k).1 × ((continue_with r f k).0 ≡ err panicked → Q)
continue-Keeps (ok a) f k opened panics hk = hk a f opened
continue-Keeps (err e) f k opened panics hk = (opened, λ h. panics (cc (err_inj h)))

module _ {Q : Type 0} where
  Keeps-pure : {A : Type 0} (a : A) → Keeps Q (pure a)
  Keeps-pure a f h = (h, no_panic_ok)

  Keeps-fail : {A : Type 0} (e : String) → Keeps Q (fail {A = A} (returned e))
  Keeps-fail e f h = (h, no_panic_err)

  Keeps-perform :
      (a : Action) → ((due : List Action) → due_after a due ≡ some due) → Keeps Q (perform a)
  Keeps-perform a same f h = (
    (rw (due_afters-append f.actions (a ∷ []) (some []), h.0, same f.deferred) refl, h.1),
    no_panic_ok,
  )

  Keeps-acquire :
      (a close : Action)
      → ((due : List Action) → due_after a due ≡ some (close ∷ due))
      → IsCloser close
      → Keeps Q (acquire a close)
  Keeps-acquire a close opens closes f h = (
    (
      rw (due_afters-append f.actions (a ∷ []) (some []), h.0, opens f.deferred) refl,
      (closes, h.1),
    ),
    no_panic_ok,
  )

  Keeps-lift : {A : Type 0} (wrap : String → String) (r : Result String A) → Keeps Q (lift wrap r)
  unfolding lift
  Keeps-lift wrap (ok a) f h = (h, no_panic_ok)
  Keeps-lift wrap (err e) f h = (h, no_panic_err)

  Keeps->>= :
      {A B : Type 0} (m : Go A) (k : A → Go B)
      → Keeps Q m
      → ((a : A) → Keeps Q (k a))
      → Keeps Q (m >>= k)
  unfolding ◌>>=◌
  Keeps->>= m k hm hk f h = continue-Keeps (m f).0 (m f).1 k (hm f h).0 (λ e. (hm f h).1 e) hk

run-IsClosed :
    {Q A : Type 0} (m : Go A)
    → Keeps Q m
    → (due_afters (run m).1 (some []) ≡ some []) × ((run m).0 ≡ err panicked → Q)
unfolding run
run-IsClosed m keeps =
    let start : Frame = record { actions = []; deferred = [] } in
    let ((opened, closers), panics) = keeps start (refl, tt) in
    (
      rw (due_afters-append (m start).1.actions (m start).1.deferred (some []), opened)
          (due_afters-closers (m start).1.deferred closers),
      panics,
    )

module _ (m : Machine) {Q : Type 0} where
  keep_provider-Keeps {ℓ} : {A : Type ℓ} (r : Result String A) → Keeps Q (keep_provider m r)
  keep_provider-Keeps (err e) = Keeps-pure tt
  keep_provider-Keeps (ok tp) =
      Keeps-acquire init_tracer shutdown_tracer (λ due. refl) (λ due. refl)

  start_tracing-Keeps : (enabled : Bool) → Keeps Q (start_tracing m enabled)
  unfolding start_tracing
  start_tracing-Keeps true =
      keep_provider-Keeps (init_trace_provider m.host m.otel m.getenv (service_name m) m.version)
  start_tracing-Keeps false = Keeps-pure tt

  check_connectivity-Keeps :
      (c : Api) (answer : Option String) → Keeps Q (check_connectivity m c answer)
  check_connectivity-Keeps c none = Keeps-pure c
  check_connectivity-Keeps c (some e) = Keeps-fail _

  keep_publisher-Keeps : (answer : Result String Bool) → Keeps Q (keep_publisher m answer)
  keep_publisher-Keeps (err e) = Keeps-fail _
  keep_publisher-Keeps (ok false) = Keeps-pure false
  keep_publisher-Keeps (ok true) =
      Keeps->>= (acquire new_publisher close_publisher) _
        (Keeps-acquire new_publisher close_publisher (λ due. refl) (λ due. refl))
        (λ _. Keeps-pure true)

  loop_result-Keeps : (answer : Option String) → Keeps Q (loop_result m answer)
  loop_result-Keeps none = Keeps-pure tt
  loop_result-Keeps (some e) = Keeps-fail _

module _ (m : Machine) where
  connect_api-Keeps :
      (cfg : SentinelConfig) (api : Option HyperFleetApiConfig)
      → Keeps (api ≡ none) (connect_api m cfg api)
  connect_api-Keeps cfg none = λ f h. (h, λ e. refl)
  connect_api-Keeps cfg (some api_cfg) =
      Keeps->>= (lift _ _) _ (Keeps-lift _ _)
        (λ c. check_connectivity-Keeps m c (verify_connectivity c))

  serve-Keeps :
      (cfg : SentinelConfig) (enabled : Bool)
      → Keeps (cfg.clients.hyperfleet_api ≡ none) (serve m cfg enabled)
  unfolding serve connect open_publisher run_loop
  serve-Keeps cfg enabled = Keeps->>= _ _ (start_tracing-Keeps m enabled) λ _.
      Keeps->>= _ _ (Keeps-perform register_metrics (λ due. refl)) λ _.
        Keeps->>= _ _ (connect_api-Keeps cfg cfg.clients.hyperfleet_api) λ c.
          Keeps->>= _ _ (Keeps-lift _ _) λ engine.
            Keeps->>= _ _ (keep_publisher-Keeps m m.publisher) λ there.
              Keeps->>= _ _ (Keeps-perform (add_check "broker") (λ due. refl)) λ _.
                Keeps->>= _ _ (Keeps-perform (set_ready true) (λ due. refl)) λ _.
                  Keeps->>= _ _
                    (Keeps-acquire with_cancel cancel_context (λ due. refl) (λ due. refl))
                    λ _. Keeps->>= _ _ (Keeps-lift _ _) λ s.
                      Keeps->>= _ _ (Keeps-perform (add_check "sentinel_poll") (λ due. refl)) λ _.
                        Keeps->>= _ _ (Keeps-perform (serve_health _) (λ due. refl)) λ _.
                          Keeps->>= _ _ (Keeps-perform serve_metrics (λ due. refl)) λ _.
                            Keeps->>= _ _ (Keeps-perform notify (λ due. refl)) λ _.
                              Keeps->>= _ _ (Keeps-perform run_sentinel (λ due. refl))
                                λ _. loop_result-Keeps m m.loop_error

  -- On every way out: what was opened is closed, and only a nil API configuration panics.
  pub run_serve-IsClosed :
      (cfg : SentinelConfig) (log_cfg : LoggerConfig)
      → (due_afters (run_serve m cfg log_cfg).1 (some []) ≡ some [])
        × ((run_serve m cfg log_cfg).0 ≡ err panicked → cfg.clients.hyperfleet_api ≡ none)
  unfolding run_serve
  run_serve-IsClosed cfg log_cfg =
      run-IsClosed (serve m cfg log_cfg.otel_enabled) (serve-Keeps cfg log_cfg.otel_enabled)
