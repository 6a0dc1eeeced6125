-- ===== src/Tests/Engine.antt =====
-- The theorems of the decision engine, the payload builder and the health endpoints.
use hyperfleet_sentinel.Base.{
  refl, Value, int32, nil, lookup, ◌∷◌, ℕ, String, ◌≡◌, ◌≢◌, ◌↔◌, ◌⊎◌, true, none, some, [], ◌∷◌,
  ok, str, object, Fields, end, field, pos, All,
}
use hyperfleet_sentinel.Client.{Resource, Condition}
use hyperfleet_sentinel.Client.Fetch.{convert_cluster}
use hyperfleet_sentinel.Config.{MessageDecisionConfig}
use hyperfleet_sentinel.Config.Leaves.{At}
use hyperfleet_sentinel.Engine.{evaluate, new_decision_engine}
use hyperfleet_sentinel.Engine.Creation.{IsCreated, new_decision_engine-eq-ok_iff}
use hyperfleet_sentinel.Payload.Contents.{LeafAt, build_payload_lem}
use hyperfleet_sentinel.Payload.Building.{Builds, run, build_payload_iff}
use hyperfleet_sentinel.Engine.Maps.{Conditions, zero_condition}
use hyperfleet_sentinel.Engine.Laws.{Matches, evaluate-publishes_iff}
use hyperfleet_sentinel.Payload.{new_builder, payload_env, build_payload, payload_activation}
use hyperfleet_sentinel.Payload.Tree.{program, children, literal, Nodes, end_nodes, node}
use hyperfleet_sentinel.Payload.Laws.{AllCompile, new_builder-eq-ok_iff}
use hyperfleet_sentinel.Health.{ReadinessChecker, readyz_handler}
use hyperfleet_sentinel.Health.Laws.{Passes, readyz_handler-ok_iff}
use hyperfleet_sentinel.Tests.Data.{decision_config, host, cel, engine, item, message_data}

abbrev cluster : Resource
cluster = convert_cluster (item "c1")

evaluate-publishes_iff_example :
    ((evaluate host cel engine (some cluster) 10).0.should_publish ≡ true)
    ↔ ((r : Resource) × (some cluster ≡ some r) × (◌≢◌ {A = ℕ} 10 0) × Matches host cel engine r 10)
evaluate-publishes_iff_example = evaluate-publishes_iff host cel engine (some cluster) 10

abbrev ready_condition : String → Condition
ready_condition status = record {
  last_transition_time = 1;
  last_updated_time = 2;
  type = "Ready";
  status = status;
  reason = "";
  message = "";
  observed_generation = pos 1;
}

abbrev stale : Conditions
stale = ("Ready", zero_condition) ∷ []

new_builder-eq-ok_iff_example :
    ((compiled : Nodes String) × (new_builder host cel (object message_data) ≡ ok compiled))
    ↔ ((cel.new_env payload_env ≡ ok tt) × AllCompile host cel message_data)
new_builder-eq-ok_iff_example = new_builder-eq-ok_iff host cel message_data

abbrev checker : ReadinessChecker
checker = record { checks = ("api", none) ∷ ("broker", some "down") ∷ []; ready = true }

readyz_handler-ok_iff_example :
    (((readyz_handler checker).status_code ≡ 200)
      ↔ ((checker.ready ≡ true) × All Passes checker.checks))
    × (((readyz_handler checker).status_code ≡ 200) ⊎ ((readyz_handler checker).status_code ≡ 503))
readyz_handler-ok_iff_example = readyz_handler-ok_iff checker

new_decision_engine-eq-ok_iff_example :
    (new_decision_engine host cel (some decision_config) ≡ ok engine)
    ↔ ((cfg : MessageDecisionConfig) × (some decision_config ≡ some cfg) × IsCreated cel cfg engine)
new_decision_engine-eq-ok_iff_example =
    new_decision_engine-eq-ok_iff host cel (some decision_config) engine

-- The reason, and a nested map with a variable that does not exist and a literal.
abbrev compiled : Nodes String
compiled = node "why" (program "reason") (
    node "nested"
      (children
        (node "lost" (program "nothing") (node "count" (literal (int32 (pos 3))) end_nodes)))
      end_nodes)

reason_evaluates :
    cel.eval "reason" [] (payload_activation host cel cluster "matched") ≡ ok (str "matched")
unfolding lookup
reason_evaluates = refl

given : ◌≢◌ {A = Value} (str "matched") nil
given e = cc

build_payload_lem_example :
    At (build_payload host cel compiled cluster "matched") ("why" ∷ []) (str "matched")
build_payload_lem_example =
    build_payload_lem host cel cluster "matched" (str "matched") LeafAt.leaf_program
      reason_evaluates given

-- The reason is kept, and the nested map is left out, as its expression fails.
abbrev partial : Nodes String
partial =
    node "why" (program "reason")
      (node "nested" (children (node "lost" (program "nothing") end_nodes)) end_nodes)

abbrev reason_field : Fields
reason_field = field "why" (str "matched") end

build_payload_iff_example :
    (build_payload host cel partial cluster "matched" ≡ reason_field)
    ↔ Builds (run host cel (payload_activation host cel cluster "matched")) partial reason_field
build_payload_iff_example = build_payload_iff host cel partial cluster "matched" reason_field
