-- ===== src/Serve/Shutdown/Laws.antt =====
-- What a request to /readyz meets during the shutdown, and that the shutdown ends.
use hyperfleet_sentinel.Base.{
  ℕ, ◌+◌, ◌≤◌, ◌≡◌, ◌≢◌, ◌⊎◌, ap, inl, inr, refl, true, false, List, [], ◌∷◌, Dict, length, arith,
}
use hyperfleet_sentinel.Health.{CheckFunc, ReadinessChecker, readyz_handler}
use hyperfleet_sentinel.Serve.Actions.{Action}
use hyperfleet_sentinel.Serve.Shutdown.{
  Handler, waiting, received, unready, cancelled, health_closed, metrics_closed, Main, looping,
  leaving, System, Step, signal, withdraw, cancel, close_health, close_metrics, leave, close, Run,
  exit, exited, begin, answer, step,
}
use hyperfleet_sentinel.Serve.Shutdown.Invariant.{Inv, Run-Inv, done}

readyz_handler-unready :
    (r : ReadinessChecker) → r.ready ≡ false → (readyz_handler r).status_code ≡ 503
unfolding readyz_handler
readyz_handler-unready r e = rw e refl

-- In every interleaving: once the main goroutine has left the polling loop, and so whenever the
-- publisher or the tracer is closed, /readyz answers 503, whatever the checks answer.
pub readyz_handler-Run :
    {closers : List Action} {checks : Dict CheckFunc} {n : ℕ} {s : System}
    → Run closers checks n s
    → s.main ≢ looping
    → (readyz_handler s.readiness).status_code ≡ 503
readyz_handler-Run {s} r left_loop =
    let inv = Run-Inv r in
    readyz_handler-unready s.readiness (inv.withdrawn (grind (arith, inv.in_loop)))

-- The actions of the first list, put before the second one by one.
abbrev pub reverse_onto : List Action → List Action → List Action
reverse_onto [] rest = rest
reverse_onto (a ∷ done) rest = reverse_onto done (a ∷ rest)

-- The actions that are done, in order, and those that are left make up the deferred ones.
abbrev Closes : List Action → List Action → Main → Type 0
Closes closers closed looping = closed ≡ []
Closes closers closed (leaving rest) = reverse_onto closed rest ≡ closers
Closes closers closed exited = reverse_onto closed [] ≡ closers

module _ {closers : List Action} where
  Step-Closes :
      {s t : System}
      → Step closers s t
      → Closes closers s.closed s.main
      → Closes closers t.closed t.main
  Step-Closes (signal running e) h = h
  Step-Closes (withdraw running e) h = h
  Step-Closes (cancel running e) h = h
  Step-Closes (close_health running e) h = h
  Step-Closes (close_metrics running e) h = h
  Step-Closes {s} (leave e c) h = ap (λ x. reverse_onto x closers) (rw e at h)
  Step-Closes {s} (close e) h = rw e at h
  Step-Closes {s} (exit e) h = rw e at h

  Run-Closes :
      {checks : Dict CheckFunc} {n : ℕ} {s : System}
      → Run closers checks n s
      → Closes closers s.closed s.main
  Run-Closes begin = refl
  Run-Closes (answer answers r) = Run-Closes r
  Run-Closes (step r st) = Step-Closes st (Run-Closes r)

  Step-running : {s t : System} → Step closers s t → s.main ≢ exited
  Step-running (signal running e) = running
  Step-running (withdraw running e) = running
  Step-running (cancel running e) = running
  Step-running (close_health running e) = running
  Step-running (close_metrics running e) = running
  Step-running (leave e c) = λ h. cc
  Step-running (close e) = λ h. cc
  Step-running (exit e) = λ h. cc

-- The process has ended, with every deferred action done once, in order, and takes no more steps.
abbrev pub Finished : List Action → System → Type 0
Finished closers s =
    (s.main ≡ exited) × (reverse_onto s.closed [] ≡ closers) × ((t : System) → ¬ Step closers s t)

looping-Step :
    {closers : List Action} {n : ℕ} (s : System) (at : Handler)
    → s.handler ≡ at
    → s.main ≡ looping
    → Inv closers n s
    → (s.handler ≡ waiting) ⊎ ((t : System) × Step closers s t)
looping-Step s waiting e looks inv = inl e
looping-Step s received e looks inv = inr (_, withdraw (λ h. cc) e)
looping-Step s unready e looks inv = inr (_, cancel (λ h. cc) e)
looping-Step s cancelled e looks inv = inr (_, close_health (λ h. cc) e)
looping-Step s health_closed e looks inv = inr (_, close_metrics (λ h. cc) e)
looping-Step s metrics_closed e looks inv =
    inr (_, leave looks (inv.now_cancelled (rw e (omega arith))))

main-Step :
    {closers : List Action} {n : ℕ} {checks : Dict CheckFunc} (s : System) (at : Main)
    → s.main ≡ at
    → Run closers checks n s
    → ((s.handler ≡ waiting) × (s.main ≡ looping))
      ⊎ (Finished closers s ⊎ ((t : System) × Step closers s t))
main-Step {closers = closers} s looping e r = elim (looping-Step s s.handler refl e (Run-Inv r)) [
  | inl waits ↦ inl (waits, e)
  | inr next ↦ inr (inr next)
]
main-Step s (leaving []) e r = inr (inr (_, exit e))
main-Step s (leaving (a ∷ rest)) e r = inr (inr (_, close e))
main-Step {closers = closers} s exited e r =
    inr (inl (e, rw e at (Run-Closes r), λ t st. Step-running st e))

-- Every interleaving ends: it has at most seven steps and one for each deferred action; where it
-- stands it still polls and waits for the signal, or the process has ended, every deferred action
-- was done once and in order and there is no step any more, or there is a next step.
pub shutdown-Finished :
    {closers : List Action} {checks : Dict CheckFunc} {n : ℕ} {s : System}
    → Run closers checks n s
    → (n ≤ 7 + length closers)
      × (((s.handler ≡ waiting) × (s.main ≡ looping))
          ⊎ (Finished closers s ⊎ ((t : System) × Step closers s t)))
shutdown-Finished {s} r =
    let inv = Run-Inv r in (grind (arith, inv.count), main-Step s s.main refl r)

close_rest :
    {closers : List Action} {checks : Dict CheckFunc} {n : ℕ} {s : System} (rest : List Action)
    → Run closers checks n s
    → s.main ≡ leaving rest
    → (m : ℕ) × (t : System) × Run closers checks m t
      × (t.main ≡ exited)
      × (t.health_up ≡ s.health_up)
      × (t.metrics_up ≡ s.metrics_up)
close_rest [] r e = (_, _, step r (exit e), refl, refl, refl)
close_rest (a ∷ rest) r e = close_rest rest (step r (close e)) refl

-- Nothing waits for the servers: whatever is deferred and whatever the checks answer, runServe can
-- return and the process end while the health server and the metrics server are both still up.
pub exit-BeforeServers :
    (closers : List Action) (checks : Dict CheckFunc)
    → (n : ℕ) × (s : System) × Run closers checks n s
      × (s.main ≡ exited)
      × (s.health_up ≡ true)
      × (s.metrics_up ≡ true)
exit-BeforeServers closers checks =
    close_rest closers
      (step
        (step (step (step begin (signal (λ h. cc) refl)) (withdraw (λ h. cc) refl))
          (cancel (λ h. cc) refl))
        (leave refl refl))
      refl
