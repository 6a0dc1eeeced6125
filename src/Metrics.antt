-- ===== src/Metrics.antt =====
-- internal/metrics/metrics.go: the updates of the metrics. Prometheus is not modelled: an update
-- is the list of the calls that it makes on the registered collectors, none if its arguments are
-- refused. A duration is in nanoseconds; the code turns it into seconds, which keeps its sign.
pub mod Label
pub mod Registry
use hyperfleet_sentinel.Base.{
  ℕ, suc, String, Bool, true, false, not, ◌||◌, List, [], ◌∷◌, ◌==◌, if◌then◌else◌, ◌+++◌, Duration,
  ℤ, pos, negsuc, ltb,
}
use hyperfleet_sentinel.Config.{LabelSelector, LabelSelectorList}

pub data MetricCall : Type 0 where
  -- pendingResourcesGauge.With(labels).Set
  set_pending : String → String → ℕ → MetricCall
  -- eventsPublishedCounter.With(labels).Inc, and the other counters
  inc_published inc_skipped inc_api_errors inc_broker_errors : String → String → String → MetricCall
  -- pollDurationHistogram.With(labels).Observe
  observe_duration : String → String → ℕ → MetricCall
  -- lastSuccessfulPollTimestampGauge.SetToCurrentTime
  set_last_poll : MetricCall

-- A negative count is clamped to 0.
abbrev clamp : ℤ → ℕ
clamp (pos n) = n
clamp (negsuc n) = 0

unfoldable pub update_pending_resources : String → String → ℤ → List MetricCall
update_pending_resources resource_type resource_selector count =
    if resource_type == "" || resource_selector == ""
    then []
    else set_pending resource_type resource_selector (clamp count) ∷ []

-- The test on three labels that the counters share.
abbrev labelled :
    (String → String → String → MetricCall) → String → String → String → List MetricCall
labelled call resource_type resource_selector detail =
    if resource_type == "" || resource_selector == "" || detail == ""
    then []
    else call resource_type resource_selector detail ∷ []

unfoldable pub update_events_published : String → String → String → List MetricCall
update_events_published = labelled inc_published

unfoldable pub update_resources_skipped : String → String → String → List MetricCall
update_resources_skipped = labelled inc_skipped

abbrev observe : String → String → Duration → List MetricCall
observe resource_type resource_selector (pos n) =
    observe_duration resource_type resource_selector n ∷ []
observe resource_type resource_selector (negsuc n) = []

unfoldable pub update_poll_duration : String → String → Duration → List MetricCall
update_poll_duration resource_type resource_selector duration =
    if resource_type == "" || resource_selector == ""
    then []
    else observe resource_type resource_selector duration

unfoldable pub update_api_errors : String → String → String → List MetricCall
update_api_errors = labelled inc_api_errors

unfoldable pub update_broker_errors : String → String → String → List MetricCall
update_broker_errors = labelled inc_broker_errors

-- The collectors are registered, so the gauge is there.
unfoldable pub update_last_successful_poll_timestamp : List MetricCall
update_last_successful_poll_timestamp = set_last_poll ∷ []

-- The loop of `GetResourceSelectorLabel`, on the index and the text so far.
write_selectors : ℕ → String → LabelSelectorList → String
write_selectors i builder [] = builder
write_selectors i builder (selector ∷ selectors) =
    write_selectors (suc i)
      ((if ltb 0 i then builder +++ "," else builder) +++ selector.label +++ ":" +++ selector.value)
      selectors

unfoldable pub get_resource_selector_label : LabelSelectorList → String
unfolding write_selectors
get_resource_selector_label [] = "all"
get_resource_selector_label (selector ∷ selectors) = write_selectors 0 "" (selector ∷ selectors)
