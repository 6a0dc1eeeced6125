-- ===== src/Sentinel/Cycle.antt =====
-- `trigger`, from the fetch to the metrics of the cycle, and the polling loop of `Start`.
use hyperfleet_sentinel.Base.{
  List, [], ◌∷◌, ◌++◌, map, Result, ok, err, pos, Host, Bool, true, false,
}
use hyperfleet_sentinel.Cel.{Cel}
use hyperfleet_sentinel.Config.Selector.{to_map}
use hyperfleet_sentinel.Client.{Resource, Error, wrapped}
use hyperfleet_sentinel.Client.Retry.{fetch_resources}
use hyperfleet_sentinel.Metrics.{
  update_pending_resources, update_poll_duration, update_api_errors,
  update_last_successful_poll_timestamp,
}
use hyperfleet_sentinel.Sentinel.{
  Sentinel, Loop, World, Call, metric, resource_type, resource_selector, process_resources,
}

-- What one cycle returns, the state that it leaves, and its calls in order.
pub record Cycle (cel : Cel) : Type 0 where
  pub result : Result Error (Unit {0})
  pub state : Sentinel cel
  pub calls : List Call

module _ (host : Host) (cel : Cel) where
  abbrev pub first_round : Sentinel cel → Loop cel
  first_round s = record {
    engine = s.decision_engine;
    calls = [];
    published = 0;
    skipped = 0;
    pending = 0;
  }

  unfoldable pub fetch : World → Sentinel cel → Result Error (List Resource)
  fetch w s =
      fetch_resources host w.backoff w.api s.config.resource_type
        (to_map s.config.resource_selector) []

  unfoldable pub cycle : World → Sentinel cel → Result Error (List Resource) → Cycle cel
  cycle w s (err e) = record {
    result = err (wrapped "failed to fetch resources" e);
    state = s;
    calls = map metric (
        update_api_errors (resource_type host cel w s) (resource_selector host cel w s)
          "fetch_error");
  }
  cycle w s (ok resources) =
      let l : Loop cel = process_resources host cel w s 0 resources (first_round s) in
      record {
        result = ok tt;
        state = record s { last_successful_poll = w.end_time; decision_engine = l.engine };
        calls =
            l.calls
            ++ map metric (
                update_pending_resources (resource_type host cel w s)
                  (resource_selector host cel w s) (pos l.pending)
                ++ (update_poll_duration (resource_type host cel w s)
                      (resource_selector host cel w s) w.duration
                    ++ update_last_successful_poll_timestamp));
      }

  unfoldable pub trigger : World → Sentinel cel → Cycle cel
  unfolding fetch cycle
  trigger w s = cycle w s (fetch w s)

  -- What the loop of `Start` waits for: a tick, with the world of its cycle, or the cancellation
  -- of the context.
  pub data Signal : Type 0 where
    tick : World → Signal
    done : Signal

  -- The state that the loop leaves, its calls, and whether it returned.
  pub record Run : Type 0 where
    pub state : Sentinel cel
    pub calls : List Call
    pub stopped : Bool

  unfoldable pub poll : List Signal → Run → Run
  poll [] r = r
  poll (done ∷ signals) r = record r { stopped = true }
  poll (tick w ∷ signals) r =
      let c : Cycle cel = trigger w r.state in
      poll signals (record r { state = c.state; calls = r.calls ++ c.calls })

  -- `Start`: one cycle at once, then one for each tick; errors are logged and do not stop it.
  unfoldable pub start : World → List Signal → Sentinel cel → Run
  unfolding poll
  start w signals s =
      let c : Cycle cel = trigger w s in
      poll signals (record { state = c.state; calls = c.calls; stopped = false })
