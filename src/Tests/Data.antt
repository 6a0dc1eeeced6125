-- ===== src/Tests/Data.antt =====
-- A small world: an API that times out once, a toy expression language, and two clusters.
use hyperfleet_sentinel.Base.{
  ℕ, zero, suc, ◌<◌, String, ◌≡◌, refl, true, none, some, List, [], ◌∷◌, Dict, sym, lookup, Result,
  ok, err, arith, ◌==◌, if◌then◌else◌, Host, Value, str, int32, bool, object, Fields, end, field,
  pos, second,
}
use hyperfleet_sentinel.Cel.{Cel}
use hyperfleet_sentinel.Client.{Resource, Error}
use hyperfleet_sentinel.Client.Fetch.{Api, Item, Response, CallError}
use hyperfleet_sentinel.Client.Retry.{
  Attempt, success, transient, permanent, Retried, Backoff, IsBackoff,
}
use hyperfleet_sentinel.Config.{
  SentinelConfig, MessageDecisionConfig, LabelSelectorList, new_sentinel_config,
}
use hyperfleet_sentinel.Engine.{DecisionEngine}
use hyperfleet_sentinel.Sentinel.{Sentinel, World}

abbrev pub host : Host
host = record {
  format_time = λ t. "2025-01-01T00:00:00Z";
  format_duration = λ d. "5s";
  to_lower = λ s. s;
  quote = λ s. s;
  type_name = λ v. "string";
}

-- A text is `true`, or a variable; the empty text does not compile.
abbrev pub evaluate_text : String → Dict Value → Result String Value
evaluate_text text activation =
    if text == "true"
    then ok (bool true)
    else elim (lookup text activation) [ none ↦ err "no such attribute" | some v ↦ ok v ]

abbrev pub cel : Cel
cel = record {
  Ast = String;
  Program = String;
  new_env = λ env. ok tt;
  compile = λ env text. if text == "" then err "empty" else ok text;
  program = λ env text. ok text;
  eval = λ text bindings activation. evaluate_text text activation;
}

-- The backoff makes a second attempt after a first that failed with a retriable error.
abbrev pub result_of : Attempt → Result Error (List Resource)
result_of (success rs) = ok rs
result_of (transient e) = err e
result_of (permanent e) = err e

abbrev pub retried : Attempt → Attempt → Retried
retried (success rs) second_attempt = record { last = 0; result = ok rs }
retried (transient e) second_attempt = record { last = 1; result = result_of second_attempt }
retried (permanent e) second_attempt = record { last = 0; result = err e }

abbrev pub twice : Backoff
twice = record { retry = λ op. retried (op 0) (op 1) }

first_attempt :
    (op : ℕ → Attempt) (e : Error) → op 0 ≡ transient e → (i : ℕ) → i < 1 → op i ≡ transient e
first_attempt op e h zero less = h
first_attempt op e h (suc i) less = absurd (omega arith)

last_attempt :
    (op : ℕ → Attempt) (a : Attempt)
    → op 0 ≡ a
    → (result_of (op (retried a (op 1)).last) ≡ (retried a (op 1)).result)
      × ((i : ℕ) → i < (retried a (op 1)).last → (e : Error) × (op i ≡ transient e))
last_attempt op (success rs) h = (rw h refl, λ i less. absurd (omega arith))
last_attempt op (permanent e) h = (rw h refl, λ i less. absurd (omega arith))
last_attempt op (transient e) h = (refl, λ i less. (e, first_attempt op e h i less))

pub twice-IsBackoff : IsBackoff twice
twice-IsBackoff = record {
  earlier = λ op. (last_attempt op (op 0) refl).1;
  on_success = λ op rs e. rw (sym (last_attempt op (op 0) refl).0) (rw e refl);
  on_permanent = λ op e h. (e, rw (sym (last_attempt op (op 0) refl).0) (rw h refl), refl);
  on_transient = λ op e h. (e, rw (sym (last_attempt op (op 0) refl).0) (rw h refl));
}

-- One cluster has an id, the other none.
abbrev pub item : String → Item
item id = record {
  id = some id;
  href = none;
  kind = some "Cluster";
  generation = pos 1;
  created_time = 1;
  updated_time = 2;
  labels = none;
  conditions = [];
  owner_references = record { id = some "c1"; href = none; kind = none };
}

abbrev pub answered : Response
answered = record { http_status = some 200; json200 = some (item "c1" ∷ item "" ∷ []) }

abbrev pub timed_out : CallError
timed_out = record { timeout = true; message = "deadline" }

abbrev pub clusters_answer : ℕ → Result CallError Response
clusters_answer zero = err timed_out
clusters_answer (suc n) = ok answered

abbrev pub api : Api
api = record {
  get_clusters = λ n q. clusters_answer n;
  get_node_pools = λ n q. err timed_out;
  clusters_status = λ q. ok (some 200);
}

abbrev pub selectors : LabelSelectorList
selectors =
    record { label = "region"; value = "us" } ∷ record { label = "tier"; value = "o'neil" } ∷ []

abbrev pub decision_config : MessageDecisionConfig
decision_config = record {
  result = "is_new";
  params = record { name = "is_new"; expr = "true" } ∷ [];
}

abbrev pub message_data : Fields
message_data =
    field "id" (str "resource") (field "nested" (object (field "count" (int32 (pos 3)) end)) end)

abbrev pub config : SentinelConfig
config = record new_sentinel_config {
  resource_type = "clusters";
  clients = record {
    hyperfleet_api =
        some (record { base_url = "https://api"; version = "v1"; timeout = pos second });
    broker = some (record { topic = "events" });
  };
  resource_selector = selectors;
  message_decision = some decision_config;
  message_data = some message_data;
}

abbrev pub engine : DecisionEngine cel
engine = record {
  result_prog = "is_new";
  conditions_lookup = [];
  params = record { name = "is_new"; prog = "true" } ∷ [];
}

abbrev pub sentinel : Sentinel cel
sentinel = record {
  last_successful_poll = 0;
  config = config;
  decision_engine = engine;
  payload_builder = none;
}

abbrev pub world : World
world = record {
  now = 10;
  duration = pos 3;
  end_time = 13;
  api = api;
  backoff = twice;
  new_uuid = λ i. ok "uuid";
  set_data = λ i fields. ok tt;
  publish_span = λ i. record {
    is_valid = true;
    trace_id = "4bf92f3577b34da6a3ce929d0e0e4736";
    span_id = "00f067aa0ba902b7";
    trace_flags = 1;
  };
  publish = λ i topic event. none;
}
