-- ===== src/Serve/Shutdown/Invariant.antt =====
-- What holds in every state of the shutdown.
use hyperfleet_sentinel.Base.{
  ℕ, suc, ◌+◌, ◌≤◌, ◌<◌, ◌≡◌, refl, true, false, List, Dict, length, arith,
}
use hyperfleet_sentinel.Health.{CheckFunc, set_ready}
use hyperfleet_sentinel.Serve.Actions.{Action}
use hyperfleet_sentinel.Serve.Shutdown.{
  Handler, waiting, received, unready, cancelled, health_closed, metrics_closed, Main, looping,
  leaving, System, Step, signal, withdraw, cancel, close_health, close_metrics, leave, close, Run,
  exit, exited, begin, answer, step,
}

-- How many steps a goroutine has taken, or has left.
abbrev pub done : Handler → ℕ
done waiting = 0
done received = 1
done unready = 2
done cancelled = 3
done health_closed = 4
done metrics_closed = 5

abbrev pub left : List Action → Main → ℕ
left closers looping = suc (suc (length closers))
left closers (leaving rest) = suc (length rest)
left closers exited = 0

-- What each step of the handler has brought about, and the count of all steps.
pub record Inv (closers : List Action) (n : ℕ) (s : System) : Type 0 where
  pub in_loop : done s.handler < 3 → s.main ≡ looping
  pub withdrawn : 2 ≤ done s.handler → s.readiness.ready ≡ false
  pub cancelled_by : s.context_cancelled ≡ true → 3 ≤ done s.handler
  pub now_cancelled : 3 ≤ done s.handler → s.context_cancelled ≡ true
  pub health_down : 4 ≤ done s.handler → s.health_up ≡ false
  pub metrics_down : 5 ≤ done s.handler → s.metrics_up ≡ false
  pub count : n + left closers s.main ≡ done s.handler + suc (suc (length closers))

module _ {closers : List Action} where
  Step-Inv : {n : ℕ} {s t : System} → Inv closers n s → Step closers s t → Inv closers (suc n) t
  unfolding set_ready
  Step-Inv inv (signal running e) = record {
    in_loop = λ h. grind arith;
    withdrawn = λ h. absurd (omega (arith, h));
    cancelled_by = λ h. grind arith;
    now_cancelled = λ h. absurd (omega (arith, h));
    health_down = λ h. absurd (omega (arith, h));
    metrics_down = λ h. absurd (omega (arith, h));
    count = grind arith;
  }
  Step-Inv inv (withdraw running e) = record {
    in_loop = grind arith;
    withdrawn = grind arith;
    cancelled_by = grind arith;
    now_cancelled = grind arith;
    health_down = grind arith;
    metrics_down = grind arith;
    count = grind arith;
  }
  Step-Inv inv (cancel running e) = record {
    in_loop = grind arith;
    withdrawn = grind arith;
    cancelled_by = grind arith;
    now_cancelled = grind arith;
    health_down = grind arith;
    metrics_down = grind arith;
    count = grind arith;
  }
  Step-Inv inv (close_health running e) = record {
    in_loop = grind arith;
    withdrawn = grind arith;
    cancelled_by = grind arith;
    now_cancelled = grind arith;
    health_down = grind arith;
    metrics_down = grind arith;
    count = grind arith;
  }
  Step-Inv inv (close_metrics running e) = record {
    in_loop = grind arith;
    withdrawn = grind arith;
    cancelled_by = grind arith;
    now_cancelled = grind arith;
    health_down = grind arith;
    metrics_down = grind arith;
    count = grind arith;
  }
  Step-Inv inv (leave e c) = record {
    in_loop = grind arith;
    withdrawn = grind arith;
    cancelled_by = grind arith;
    now_cancelled = grind arith;
    health_down = grind arith;
    metrics_down = grind arith;
    count = grind arith;
  }
  Step-Inv inv (close e) = record {
    in_loop = grind arith;
    withdrawn = grind arith;
    cancelled_by = grind arith;
    now_cancelled = grind arith;
    health_down = grind arith;
    metrics_down = grind arith;
    count = grind arith;
  }
  Step-Inv inv (exit e) = record {
    in_loop = grind arith;
    withdrawn = grind arith;
    cancelled_by = grind arith;
    now_cancelled = grind arith;
    health_down = grind arith;
    metrics_down = grind arith;
    count = grind arith;
  }

  pub Run-Inv :
      {checks : Dict CheckFunc} {n : ℕ} {s : System} → Run closers checks n s → Inv closers n s
  Run-Inv begin = record {
    in_loop = λ h. refl;
    withdrawn = λ h. absurd (omega (arith, h));
    cancelled_by = λ h. absurd (ground (arith, h));
    now_cancelled = λ h. absurd (omega (arith, h));
    health_down = λ h. absurd (omega (arith, h));
    metrics_down = λ h. absurd (omega (arith, h));
    count = omega arith;
  }
  Run-Inv (answer answers r) =
      let inv = Run-Inv r in
      record {
        in_loop = inv.in_loop;
        withdrawn = inv.withdrawn;
        cancelled_by = inv.cancelled_by;
        now_cancelled = inv.now_cancelled;
        health_down = inv.health_down;
        metrics_down = inv.metrics_down;
        count = inv.count;
      }
  Run-Inv (step r st) = Step-Inv (Run-Inv r) st
