-- ===== src/Metrics/Registry.antt =====
-- The collectors: `NewSentinelMetrics` over Prometheus registries, and `ResetSentinelMetrics`. What
-- the package keeps between calls is the state. What the registries take is a parameter, and a
-- collector that they do not take is a panic.
pub mod Laws
use hyperfleet_sentinel.Base.{
  String, ◌≡◌, refl, Bool, true, false, Option, none, some, List, [], ◌∷◌, ◌++◌, Dict, ℕ,
  if◌then◌else◌,
}

abbrev subsystem : String
subsystem = "hyperfleet_sentinel"

abbrev resource_type_label : String
resource_type_label = "resource_type"

abbrev resource_selector_label : String
resource_selector_label = "resource_selector"

abbrev metrics_labels : List String
metrics_labels = resource_type_label ∷ resource_selector_label ∷ []

abbrev metrics_labels_with_reason : List String
metrics_labels_with_reason = resource_type_label ∷ resource_selector_label ∷ "reason" ∷ []

abbrev metrics_labels_with_error_type : List String
metrics_labels_with_error_type = resource_type_label ∷ resource_selector_label ∷ "error_type" ∷ []

pub data Kind : Type 0 where
  gauge_vec counter_vec histogram_vec gauge : Kind

-- A collector, as its options and labels declare it.
pub record Collector : Type 0 where
  pub kind : Kind
  pub subsystem : String
  pub name : String
  pub help : String
  pub const_labels : Dict String
  pub labels : List String

pub record SentinelMetrics : Type 0 where
  pub pending_resources : Collector
  pub events_published : Collector
  pub resources_skipped : Collector
  pub poll_duration : Collector
  pub api_errors : Collector
  pub broker_errors : Collector
  pub last_successful_poll_timestamp : Collector

abbrev pub metrics_names : List String
metrics_names =
    "pending_resources" ∷ "events_published_total" ∷ "resources_skipped_total"
    ∷ "poll_duration_seconds" ∷ "api_errors_total" ∷ "broker_errors_total"
    ∷ "last_successful_poll_timestamp_seconds" ∷ []

-- The arguments of the collectors' constructors, with the standard labels.
module _ (version : String) where
  abbrev collector : Kind → String → String → List String → Collector
  collector kind name help labels = record {
    kind = kind;
    subsystem = subsystem;
    name = name;
    help = help;
    const_labels = ("component", "sentinel") ∷ ("version", version) ∷ [];
    labels = labels;
  }

  abbrev pub sentinel_metrics : SentinelMetrics
  sentinel_metrics = record {
    pending_resources =
        collector gauge_vec "pending_resources"
          "Number of resources pending reconciliation based on max age or generation change"
          metrics_labels;
    events_published =
        collector counter_vec "events_published_total"
          "Total number of reconciliation events published to the message broker"
          metrics_labels_with_reason;
    resources_skipped =
        collector counter_vec "resources_skipped_total"
          "Total number of resources skipped (preconditions not met or already reconciled)"
          metrics_labels_with_reason;
    poll_duration =
        collector histogram_vec "poll_duration_seconds" "Duration of each polling cycle in seconds"
          metrics_labels;
    api_errors =
        collector counter_vec "api_errors_total"
          "Total number of errors when calling the HyperFleet API" metrics_labels_with_error_type;
    broker_errors =
        collector counter_vec "broker_errors_total"
          "Total number of errors when publishing events to the message broker"
          metrics_labels_with_error_type;
    last_successful_poll_timestamp =
        collector gauge "last_successful_poll_timestamp_seconds"
          "Unix timestamp of the last successful poll cycle completion (dead man's switch)" [];
  }

-- The seven calls of `MustRegister`, in order.
abbrev pub registered : SentinelMetrics → List Collector
registered m =
    m.pending_resources ∷ m.events_published ∷ m.resources_skipped ∷ m.poll_duration ∷ m.api_errors
    ∷ m.broker_errors ∷ m.last_successful_poll_timestamp ∷ []

-- A registerer: the one that the caller passes, or the default one for nil.
pub data Registerer : Type 0 where
  default_registerer : Registerer
  registry : ℕ → Registerer

abbrev pub registerer_of : Option ℕ → Registerer
registerer_of none = default_registerer
registerer_of (some n) = registry n

-- What the package keeps: the instance, whether `registerOnce` is done, and the collectors of the
-- package's variables, which a reset keeps.
pub record Package : Type 0 where
  pub instance_of : Option SentinelMetrics
  pub once_done : Bool
  pub collectors : Option SentinelMetrics

abbrev pub initial : Package
initial = record { instance_of = none; once_done = false; collectors = none }

pub record Registration : Type 0 where
  pub registerer : Registerer
  pub collector : Collector

-- The library's registries: whether they take a collector after the registrations before it. Where
-- they do not, as where they hold such a collector already, `MustRegister` panics.
abbrev pub Registries : Type 0
Registries = List Registration → Registration → Bool

abbrev pub register_all : Registerer → List Collector → List Registration
register_all r [] = []
register_all r (c ∷ cs) = record { registerer = r; collector = c } ∷ register_all r cs

-- The registrations that are made, in order, until one of them panics, and whether one does.
unfoldable pub must_register :
    Registries → List Registration → List Registration → List Registration × Bool
must_register takes held [] = ([], false)
must_register takes held (x ∷ xs) =
    let rest = must_register takes (held ++ x ∷ []) xs in
    if takes held x then (x ∷ rest.0, rest.1) else ([], true)

-- A call: what the package keeps after it, the registrations that it makes, whether it panics, and
-- the instance that it returns otherwise.
pub record Registering : Type 0 where
  pub kept : Package
  pub registrations : List Registration
  pub panics : Bool
  pub result : Option SentinelMetrics

-- The body of the once; one that panics counts as done, and sets no instance.
abbrev register_metrics : SentinelMetrics → List Registration × Bool → Registering
register_metrics m (made, true) = record {
  kept = record { instance_of = none; once_done = true; collectors = some m };
  registrations = made;
  panics = true;
  result = none;
}
register_metrics m (made, false) = record {
  kept = record { instance_of = some m; once_done = true; collectors = some m };
  registrations = made;
  panics = false;
  result = some m;
}

-- The instance is nil where the once is not done.
unfoldable pub new_sentinel_metrics :
    Registries → List Registration → Package → Option ℕ → String → Registering
unfolding must_register
new_sentinel_metrics takes held p reg version =
    if p.once_done
    then record { kept = p; registrations = []; panics = false; result = p.instance_of }
    else (let m = sentinel_metrics version in
        register_metrics m
          (must_register takes held (register_all (registerer_of reg) (registered m))))

-- The collectors whose values are cleared are those that there are.
unfoldable pub reset_sentinel_metrics : Package → Package × Option SentinelMetrics
reset_sentinel_metrics p =
    (record { instance_of = none; once_done = false; collectors = p.collectors }, p.collectors)
