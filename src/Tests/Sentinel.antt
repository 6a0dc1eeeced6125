-- ===== src/Tests/Sentinel.antt =====
-- The theorems of the cycle and the polling loop, for two clusters of which one has no id.
use hyperfleet_sentinel.Base.{
  ◌+◌, ◌≡◌, ◌≢◌, refl, true, List, [], ◌∷◌, ◌++◌, map, ok, arith, pos, In, eq_iff, lookup, merge,
  bool, insert,
}
use hyperfleet_sentinel.Config.Selector.{to_map, add_selectors, add_selector}
use hyperfleet_sentinel.Client.{Resource}
use hyperfleet_sentinel.Client.Fetch.{convert_cluster}
use hyperfleet_sentinel.Engine.Laws.{Matches, Evaluates}
use hyperfleet_sentinel.Metrics.{
  update_pending_resources, update_poll_duration, update_last_successful_poll_timestamp,
}
use hyperfleet_sentinel.Sentinel.{metric, publish, Event, resource_selector, topic, new_event}
use hyperfleet_sentinel.Sentinel.Cycle.{fetch, trigger, start, tick, done}
use hyperfleet_sentinel.Sentinel.Outcomes.{decision_of, calls_of, outcomes, is_pending, total}
use hyperfleet_sentinel.Sentinel.Laws.{trigger_fetched}
use hyperfleet_sentinel.Sentinel.Publications.{IsWanted, trigger-IsWanted}
use hyperfleet_sentinel.Sentinel.Delivery.{trigger_publishes}
use hyperfleet_sentinel.Sentinel.Accounting.{tally, is_publication, is_success, is_failure}
use hyperfleet_sentinel.Sentinel.Independence.{calls_of_cycles, start-calls}
use hyperfleet_sentinel.Sentinel.Totals.{is_api_error, count_failed, start-tally}
use hyperfleet_sentinel.Sentinel.Polling.{last_polled, start_lem}
use hyperfleet_sentinel.Tests.Client.{fetched, clusters_fetched}
use hyperfleet_sentinel.Tests.Data.{host, cel, world, sentinel, item}

abbrev rs : List Resource
rs = fetched

abbrev cluster : Resource
cluster = convert_cluster (item "c1")

rs_fetched : fetch host cel world sentinel ≡ ok rs
unfolding fetch to_map add_selectors add_selector insert
rs_fetched = clusters_fetched host

trigger_fetched_example :
    ((trigger host cel world sentinel).result ≡ ok tt)
    × ((trigger host cel world sentinel).state.last_successful_poll ≡ 13)
    × ((trigger host cel world sentinel).calls
        ≡ calls_of host cel world sentinel (outcomes host cel world sentinel 0 rs)
          ++ map metric (
              update_pending_resources "clusters"
                (resource_selector host cel world sentinel)
                (pos (total is_pending (outcomes host cel world sentinel 0 rs)))
              ++ (update_poll_duration "clusters"
                    (resource_selector host cel world sentinel)
                    (pos 3)
                  ++ update_last_successful_poll_timestamp)))
trigger_fetched_example = trigger_fetched host cel world sentinel rs rs_fetched

cluster-Matches : Matches host cel sentinel.decision_engine cluster 10
unfolding lookup merge insert
cluster-Matches = record {
  values = ("is_new", bool true) ∷ [];
  evaluates = Evaluates.next (bool true) refl Evaluates.done;
  result = refl;
}

abbrev event : Event
event =
    new_event host cel world sentinel 0 "uuid" cluster (decision_of host cel world sentinel cluster)

c1-ne-empty : cluster.id ≢ ""
unfolding convert_cluster
c1-ne-empty e = cc ((eq_iff "c1" "").1 e)

trigger_publishes_example :
    In (publish (topic host cel world sentinel) event) (trigger host cel world sentinel).calls
trigger_publishes_example =
    trigger_publishes host cel world sentinel [] (convert_cluster (item "") ∷ []) cluster "uuid"
      rs_fetched c1-ne-empty (omega arith) cluster-Matches refl refl

pub event_published :
    In (publish (topic host cel world sentinel) event) (trigger host cel world sentinel).calls
event_published =
    trigger_publishes host cel world sentinel [] (convert_cluster (item "") ∷ []) cluster "uuid"
      rs_fetched c1-ne-empty (omega arith) cluster-Matches refl refl

trigger-IsWanted_example : IsWanted host cel world sentinel rs (topic host cel world sentinel) event
trigger-IsWanted_example =
    trigger-IsWanted host cel world sentinel rs (topic host cel world sentinel) event rs_fetched
      event_published

start_lem_example :
    ((start host cel world (map tick (world ∷ []) ++ done ∷ tick world ∷ []) sentinel).stopped
      ≡ true)
    × (start host cel world (map tick (world ∷ []) ++ done ∷ tick world ∷ []) sentinel
        ≡ start host cel world (map tick (world ∷ []) ++ done ∷ []) sentinel)
    × ((start host cel world
          (map tick (world ∷ []) ++ done ∷ tick world ∷ [])
          sentinel).state.config
        ≡ sentinel.config)
    × ((start host cel world
          (map tick (world ∷ []) ++ done ∷ tick world ∷ [])
          sentinel).state.last_successful_poll
        ≡ last_polled host cel sentinel (world ∷ world ∷ []) 0)
start_lem_example = start_lem host cel world (world ∷ []) (tick world ∷ []) sentinel

clusters-ne-empty : sentinel.config.resource_type ≢ ""
clusters-ne-empty e = cc ((eq_iff "clusters" "").1 e)

start-calls_example :
    (start host cel world (map tick (world ∷ []) ++ done ∷ tick world ∷ []) sentinel).calls
    ≡ calls_of_cycles host cel sentinel (world ∷ world ∷ [])
start-calls_example = start-calls host cel sentinel world (world ∷ []) (tick world ∷ [])

start-tally_example :
    let calls = (start host cel world (map tick (world ∷ []) ++ done ∷ []) sentinel).calls in
    (tally is_publication calls ≡ tally is_success calls + tally is_failure calls)
    × (tally is_api_error calls ≡ count_failed host cel sentinel (world ∷ world ∷ []))
start-tally_example = start-tally host cel sentinel world (world ∷ []) [] clusters-ne-empty
