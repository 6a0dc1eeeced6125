-- ===== src/Serve/Shutdown.antt =====
-- cmd/sentinel/main.go, the end of `runServe`: the goroutine that waits for the signal, and the main
-- one, which leaves the loop when the context is cancelled, then runs what it deferred, and then
-- ends the process, whatever the other one still has to do. Their steps are interleaved in any
-- order, with changes of what the readiness checks answer.
pub mod Invariant
pub mod Laws
use hyperfleet_sentinel.Base.{ℕ, suc, ◌+◌, String, ◌≡◌, ◌≢◌, Bool, true, false, List, [], ◌∷◌, Dict}
use hyperfleet_sentinel.Health.{CheckFunc, ReadinessChecker, set_ready}
use hyperfleet_sentinel.Serve.Actions.{Action, cancel_context}

-- What the signal's goroutine has done last.
pub data Handler : Type 0 where
  waiting received unready cancelled health_closed metrics_closed : Handler

-- The main goroutine: in the loop, then with the deferred actions that are left, and then out of
-- `main`, which ends the process with all its goroutines.
pub data Main : Type 0 where
  looping : Main
  leaving : List Action → Main
  exited : Main

pub record System : Type 0 where
  pub readiness : ReadinessChecker
  pub context_cancelled : Bool
  pub health_up : Bool
  pub metrics_up : Bool
  pub handler : Handler
  pub main : Main
  -- The deferred actions that are done, the last first.
  pub closed : List Action

-- Only the deferred `cancel()` acts on the state that the two share.
abbrev cancels : Action → Bool → Bool
cancels cancel_context b = true
cancels _ b = b

-- The signal's goroutine only runs while the process does.
pub data Step (closers : List Action) (s : System) : System → Type 0 where
  signal : s.main ≢ exited → s.handler ≡ waiting → Step closers s (record s { handler = received })
  withdraw :
      s.main ≢ exited
      → s.handler ≡ received
      → Step closers s (record s { handler = unready; readiness = set_ready false s.readiness })
  cancel :
      s.main ≢ exited
      → s.handler ≡ unready
      → Step closers s (record s { handler = cancelled; context_cancelled = true })
  close_health :
      s.main ≢ exited
      → s.handler ≡ cancelled
      → Step closers s (record s { handler = health_closed; health_up = false })
  close_metrics :
      s.main ≢ exited
      → s.handler ≡ health_closed
      → Step closers s (record s { handler = metrics_closed; metrics_up = false })
  leave :
      s.main ≡ looping
      → s.context_cancelled ≡ true
      → Step closers s (record s { main = leaving closers })
  close :
      {a : Action} {rest : List Action}
      → s.main ≡ leaving (a ∷ rest)
      → Step closers s (record s {
        main = leaving rest;
        closed = a ∷ s.closed;
        context_cancelled = cancels a s.context_cancelled;
      })
  exit : s.main ≡ leaving [] → Step closers s (record s { main = exited })

-- The loop runs, with the readiness set.
abbrev pub start : Dict CheckFunc → System
start checks = record {
  readiness = record { checks = checks; ready = true };
  context_cancelled = false;
  health_up = true;
  metrics_up = true;
  handler = waiting;
  main = looping;
  closed = [];
}

-- The states after `n` steps; what the checks answer may change at any time.
pub data Run (closers : List Action) (checks : Dict CheckFunc) : ℕ → System → Type 0 where
  begin : Run closers checks 0 (start checks)
  answer :
      {n : ℕ} {s : System} (answers : Dict CheckFunc)
      → Run closers checks n s
      → Run closers checks n (record s { readiness = record s.readiness { checks = answers } })
  step :
      {n : ℕ} {s t : System}
      → Run closers checks n s
      → Step closers s t
      → Run closers checks (suc n) t
