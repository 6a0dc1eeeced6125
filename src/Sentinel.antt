-- ===== src/Sentinel.antt =====
-- internal/sentinel/sentinel.go: one polling cycle, `trigger`, and the service's state. What the
-- cycle does outside is the list of its calls: metric updates and publications. Logging and spans
-- change no state and are left out, but for the trace context that a span adds to the event.
pub mod Cycle
pub mod Outcomes
pub mod Laws
pub mod Counts
pub mod Publications
pub mod Delivery
pub mod Polling
pub mod Accounting
pub mod Due
pub mod Independence
pub mod Totals
use hyperfleet_sentinel.Base.{
  ℕ, zero, suc, ◌+◌, String, Bool, true, false, Option, none, some, List, [], ◌∷◌, ◌++◌, map, Dict,
  Result, ok, err, map_err, ◌>>=◌, ◌==◌, if◌then◌else◌, ◌+++◌, Host, Time, Duration, ℤ, pos, negsuc,
  Fields, end, object, leb, ◌-◌, lookup,
}
use hyperfleet_sentinel.Telemetry.Span.{SpanContext, set_trace_context}
use hyperfleet_sentinel.Cel.{Cel}
use hyperfleet_sentinel.Config.{SentinelConfig, BrokerConfig}
use hyperfleet_sentinel.Config.Selector.{to_map}
use hyperfleet_sentinel.Client.{Resource, Error}
use hyperfleet_sentinel.Client.Fetch.{Api}
use hyperfleet_sentinel.Client.Retry.{Backoff, fetch_resources}
use hyperfleet_sentinel.Engine.{Decision, DecisionEngine, evaluate}
use hyperfleet_sentinel.Payload.{new_builder, build_payload}
use hyperfleet_sentinel.Payload.Tree.{Nodes}
use hyperfleet_sentinel.Metrics.{
  MetricCall, get_resource_selector_label, update_pending_resources, update_events_published,
  update_resources_skipped, update_poll_duration, update_api_errors, update_broker_errors,
  update_last_successful_poll_timestamp,
}

abbrev otel_messaging_system : Dict String
otel_messaging_system = ("googlepubsub", "gcp_pubsub") ∷ []

unfoldable pub broker_type_to_otel : String → String
unfolding lookup
broker_type_to_otel broker_type = elim (lookup broker_type otel_messaging_system) [
  | some v ↦ v
  | none ↦ broker_type
]

pub record Event : Type 0 where
  pub spec_version : String
  pub type : String
  pub source : String
  pub id : String
  pub event_data : Fields
  pub data_content_type : String
  pub extensions : Dict String

-- The extensions of a new event after the trace context of a valid span is set; it has none before.
abbrev traced : SpanContext → Dict String
unfolding set_trace_context
traced span =
    if span.is_valid
    then elim (set_trace_context (some []) (some span)) [ none ↦ [] | some extensions ↦ extensions ]
    else []

pub data Call : Type 0 where
  metric : MetricCall → Call
  publish : String → Event → Call

-- What one cycle meets outside: the clock after the fetch and at the end, and the duration; the API
-- and its retries; and for the resource at each index a new UUID, whether the event takes its
-- data, the context of the span that is started to publish it, and the broker's answer (the error's text, if it refuses).
pub record World : Type 0 where
  pub now : Time
  pub duration : Duration
  pub end_time : Time
  pub api : Api
  pub backoff : Backoff
  pub new_uuid : ℕ → Result String String
  pub set_data : ℕ → Fields → Result String (Unit {0})
  pub publish_span : ℕ → SpanContext
  pub publish : ℕ → String → Event → Option String

module _ (cel : Cel) where
  open cel use {Program}

  -- The fields that `trigger` uses; the client, the publisher and the logger have no state here.
  pub record Sentinel : Type 0 where
    pub last_successful_poll : Time
    pub config : SentinelConfig
    pub decision_engine : DecisionEngine cel
    pub payload_builder : Option (Nodes Program)

  -- The variables of the loop, and the engine, which each evaluation writes.
  pub record Loop : Type 0 where
    pub engine : DecisionEngine cel
    pub calls : List Call
    pub published : ℕ
    pub skipped : ℕ
    pub pending : ℕ

-- `s.config.Clients.Broker.Topic`, or "" without a broker
abbrev pub topic_of : Option BrokerConfig → String
topic_of none = ""
topic_of (some broker) = broker.topic

module _ (host : Host) (cel : Cel) where
  open cel use {Program}

  unfoldable pub new_sentinel : SentinelConfig → DecisionEngine cel → Result String (Sentinel cel)
  new_sentinel cfg decision_engine = elim cfg.message_data [
    | none ↦ ok (record {
      last_successful_poll = 0;
      config = cfg;
      decision_engine = decision_engine;
      payload_builder = none;
    })
    | some message_data ↦ (do
      builder ←
          map_err (λ e. "failed to create payload builder: " +++ e)
            (new_builder host cel (object message_data))
      ok (record {
        last_successful_poll = 0;
        config = cfg;
        decision_engine = decision_engine;
        payload_builder = some builder;
      }))
  ]

  unfoldable pub build_event_data : Option (Nodes Program) → Resource → Decision → Fields
  build_event_data none resource decision = end
  build_event_data (some builder) resource decision =
      build_payload host cel builder resource decision.reason

  module _ (w : World) (s : Sentinel cel) where
    abbrev pub resource_type : String
    resource_type = s.config.resource_type

    abbrev pub resource_selector : String
    resource_selector = get_resource_selector_label s.config.resource_selector

    abbrev pub topic : String
    topic = topic_of s.config.clients.broker

    abbrev add_calls : List MetricCall → Loop cel → Loop cel
    add_calls metrics l = record l { calls = l.calls ++ map metric metrics }

    unfoldable pub new_event : ℕ → String → Resource → Decision → Event
    unfolding build_event_data set_trace_context
    new_event i event_id resource decision = record {
      spec_version = "1.0";
      type = "com.redhat.hyperfleet." +++ host.to_lower resource.kind +++ ".reconcile";
      source = "hyperfleet-sentinel";
      id = event_id;
      event_data = build_event_data s.payload_builder resource decision;
      data_content_type = "application/json";
      extensions = traced (w.publish_span i);
    }

    -- The answer of the broker, after the call was made.
    after_publish : Option String → Decision → Loop cel → Loop cel
    after_publish (some e) decision l =
        add_calls (update_broker_errors resource_type resource_selector "publish_error") l
    after_publish none decision l =
        let l' : Loop cel =
          add_calls (update_events_published resource_type resource_selector decision.reason) l in
        record l' { published = suc l'.published }

    abbrev send_data : ℕ → Event → Decision → Result String (Unit {0}) → Loop cel → Loop cel
    send_data i event decision (err e) l = l
    send_data i event decision (ok _) l =
        after_publish (w.publish i topic event) decision
          (record l { calls = l.calls ++ publish topic event ∷ [] })

    abbrev send : ℕ → Resource → Decision → Result String String → Loop cel → Loop cel
    send i resource decision (err e) l = l
    send i resource decision (ok event_id) l =
        let event = new_event i event_id resource decision in
        send_data i event decision (w.set_data i event.event_data) l

    -- One round of the loop, once the resource is evaluated.
    pub act : ℕ → Resource → Decision → Loop cel → Loop cel
    unfolding after_publish new_event
    act i resource decision l =
        if decision.should_publish
        then send i resource decision (w.new_uuid i) (record l { pending = suc l.pending })
        else (let l' : Loop cel =
              add_calls (update_resources_skipped resource_type resource_selector decision.reason)
                l in
            record l' { skipped = suc l'.skipped })

    process_resource : ℕ → Resource → Loop cel → Loop cel
    unfolding act
    process_resource i resource l =
        if resource.id == ""
        then l
        else (let (decision, engine) = evaluate host cel l.engine (some resource) w.now in
            act i resource decision (record l { engine = engine }))

    pub process_resources : ℕ → List Resource → Loop cel → Loop cel
    unfolding process_resource
    process_resources i [] l = l
    process_resources i (resource ∷ resources) l =
        process_resources (suc i) resources (process_resource i resource l)
