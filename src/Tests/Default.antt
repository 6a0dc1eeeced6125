-- ===== src/Tests/Default.antt =====
-- The default message decision's theorems on an evaluator of its expressions.
use hyperfleet_sentinel.Base.{
  ◌++◌, inl, inr, ℕ, ◌+◌, insert, zero, suc, ◌*◌, ◌<◌, String, ◌≡◌, ◌≢◌, refl, sym, ap, ◌∙◌, true,
  Option, none, some, List, [], ◌∷◌, Result, ok, err, arith, eq_iff, ◌==◌, if◌then◌else◌, Host,
  Value, pos, second, All, All-In, subst, map, decimal, Time, ok_inj, In,
}
use hyperfleet_sentinel.Cel.{Cel}
use hyperfleet_sentinel.Cel.Expr.{Expr, show}
use hyperfleet_sentinel.Cel.Meaning.{
  Outcome, value, error, unspecified, CelValue, plain, span, Conversions, denote, Means, IsCel,
  fits, less_int, eq_int,
}
use hyperfleet_sentinel.Client.{Resource, Condition}
use hyperfleet_sentinel.Client.Fetch.{convert_cluster, convert_conditions}
use hyperfleet_sentinel.Config.{default_message_decision}
use hyperfleet_sentinel.Engine.{engine_env, DecisionEngine, evaluate, new_decision_engine}
use hyperfleet_sentinel.Engine.Default.{default_params, default_result, default_expressions}
use hyperfleet_sentinel.Engine.Default.Due.{is_due, last_reconciled, in_range}
use hyperfleet_sentinel.Engine.Creation.{AreEntries, IsProgramOf, new_decision_engine-eq-ok_iff}
use hyperfleet_sentinel.Config.Decision.{
  IsWellFormed, validate_decision, validate_decision-eq-ok_iff,
}
use hyperfleet_sentinel.Engine.Default.Laws.{year_10000, IsConversions}
use hyperfleet_sentinel.Engine.Maps.{zero_condition}
use hyperfleet_sentinel.Engine.Default.Stays.{evaluate_later}
use hyperfleet_sentinel.Engine.Default.Publishes.{verdict_of, evaluate-is_due, evaluate-verdict_of}
use hyperfleet_sentinel.Config.Selector.{to_map, add_selectors, add_selector}
use hyperfleet_sentinel.Sentinel.{
  Sentinel, Call, World, publish, Event, topic, new_event, process_resources,
}
use hyperfleet_sentinel.Sentinel.Cycle.{fetch, first_round, tick, done, start}
use hyperfleet_sentinel.Sentinel.Counts.{count_named}
use hyperfleet_sentinel.Sentinel.Due.{count_due, AreEarly, process_resources-count_due}
use hyperfleet_sentinel.Sentinel.Due.Start.{start-is_due, start_publishes-is_due}
use hyperfleet_sentinel.Sentinel.Outcomes.{decision_of}
use hyperfleet_sentinel.Tests.Client.{fetched, clusters_fetched}
use hyperfleet_sentinel.Tests.Data.{host, item, config, world}

-- A time is as many strokes, and a text with a first character is a time.
abbrev strokes : ℕ → String
strokes zero = String.[]
strokes (suc n) = String.◌∷◌ "1" (strokes n)

abbrev length_of : String → ℕ
length_of String.[] = zero
length_of (String.◌∷◌ c s) = suc (length_of s)

abbrev read_time : String → Option Time
read_time String.[] = none
read_time (String.◌∷◌ c s) = some (length_of s)

length_of-strokes : (n : ℕ) → length_of (strokes n) ≡ n
length_of-strokes zero = refl
length_of-strokes (suc n) = ap suc (length_of-strokes n)

abbrev pub stroke_host : Host
stroke_host = record host { format_time = λ t. String.◌∷◌ "T" (strokes t) }

abbrev conversions : Conversions
conversions = record {
  timestamp = read_time;
  duration = λ s. if s == "30m" then some (pos (1800 * second)) else some (pos (10 * second));
}

conversions-IsConversions : IsConversions stroke_host conversions
conversions-IsConversions = record {
  format_given = λ t. cc;
  timestamp = λ t early. ap some (length_of-strokes t);
  minutes = refl;
  seconds = refl;
}

-- A text is compiled to the tree that it shows.
abbrev parse : String → List Expr → Result String Expr
parse text [] = err "syntax error"
parse text (x ∷ xs) = if show x == text then ok x else parse text xs

abbrev answer : Outcome CelValue → Result String Value
answer (value (plain v)) = ok v
answer _ = err "no such overload"

abbrev pub trees : Cel
trees = record {
  Ast = Expr;
  Program = Expr;
  new_env = λ env. ok tt;
  compile = λ env text. parse text default_expressions;
  program = λ env x. ok x;
  eval = λ x bindings activation. answer (denote conversions bindings activation x);
}

answer-Means : (o : Outcome CelValue) → Means o (answer o)
answer-Means (value (plain v)) = refl
answer-Means (value (span d)) = tt
answer-Means error = (_, refl)
answer-Means unspecified = tt

each_parsed : All (λ x. parse (show x) default_expressions ≡ ok x) default_expressions
unfolding show decimal
each_parsed = (refl, (refl, (refl, (refl, (refl, (refl, (refl, (refl, tt))))))))

trees-IsCel : IsCel trees conversions default_expressions
trees-IsCel = record {
  means = λ x known compiled planned bindings activation.
      let parsed =
        All-In (λ y. parse (show y) default_expressions ≡ ok y) x default_expressions each_parsed
          known in
      subst
        (λ y.
          Means (denote conversions bindings activation x)
            (answer (denote conversions bindings activation y)))
        (ok_inj (sym parsed ∙ compiled) ∙ ok_inj planned)
        (answer-Means (denote conversions bindings activation x));
}

-- Reconciled 3 nanoseconds after the zero time, and not since; the time is 20 seconds.
abbrev reconciled : String → Condition
reconciled status = record {
  last_transition_time = 1;
  last_updated_time = 3;
  type = "Reconciled";
  status = status;
  reason = "";
  message = "";
  observed_generation = pos 2;
}

abbrev resource : Resource
resource = record (convert_cluster (item "c1")) {
  generation = pos 2;
  status = record { conditions = reconciled "True" ∷ reconciled "False" ∷ [] };
}

abbrev pub created : DecisionEngine trees
created = record {
  result_prog = default_result;
  conditions_lookup = [];
  params = map (λ t. record { name = t.0; prog = t.1 }) default_params;
}

well_formed : IsWellFormed default_message_decision
unfolding validate_decision
well_formed = (validate_decision-eq-ok_iff stroke_host default_message_decision).0 refl

entries :
    AreEntries trees
      (engine_env default_message_decision.params)
      default_message_decision.params
      created.params
unfolding show decimal
entries = (
  refl,
  (_, refl, refl),
  (
    refl,
    (_, refl, refl),
    (
      refl,
      (_, refl, refl),
      (
        refl,
        (_, refl, refl),
        (refl, (_, refl, refl), (refl, (_, refl, refl), (refl, (_, refl, refl), tt))),
      ),
    ),
  ),
)

compiled_result :
    IsProgramOf trees
      (engine_env default_message_decision.params)
      default_message_decision.result
      created.result_prog
unfolding show decimal
compiled_result = (_, refl, refl)

pub new_decision_engine-default :
    new_decision_engine stroke_host trees (some default_message_decision) ≡ ok created
new_decision_engine-default =
    (new_decision_engine-eq-ok_iff stroke_host trees (some default_message_decision) created).1 (
      default_message_decision,
      refl,
      record {
        well_formed = well_formed;
        env = refl;
        entries = entries;
        result = compiled_result;
        no_conditions = refl;
      },
    )

early : All (λ c. c.last_updated_time < year_10000) resource.status.conditions
early = (omega arith, (omega arith, tt))

evaluate-is_due_example :
    (evaluate stroke_host trees created (some resource) (20 * second)).0.should_publish
    ≡ is_due resource (20 * second)
evaluate-is_due_example =
    evaluate-is_due stroke_host trees conversions trees-IsCel conversions-IsConversions created
      (new_decision_engine-default) [] resource (20 * second) (λ e. cc) early

resource_due : is_due resource (20 * second) ≡ true
unfolding is_due fits less_int eq_int
resource_due = refl

-- Two resources that the fetch returned, one of them due.
abbrev settled : Resource
settled = record resource { status = record { conditions = reconciled "True" ∷ [] } }

abbrev default_sentinel : Sentinel trees
default_sentinel = record {
  last_successful_poll = 0;
  config = config;
  decision_engine = created;
  payload_builder = none;
}

abbrev later_world : World
later_world = record world { now = 20 * second }

abbrev due_resources : List Resource
due_resources = settled ∷ resource ∷ []

late : later_world.now ≢ 0
late e = cc

due_early : All AreEarly due_resources
due_early = ((omega arith, tt), (early, tt))

process_resources-count_due_example :
    let l =
      process_resources stroke_host trees later_world default_sentinel 0 due_resources
        (first_round stroke_host trees default_sentinel) in
    (l.pending ≡ count_due (20 * second) due_resources)
    × (count_due (20 * second) due_resources + l.skipped ≡ count_named due_resources)
process_resources-count_due_example =
    process_resources-count_due stroke_host trees conversions later_world default_sentinel
      trees-IsCel conversions-IsConversions late new_decision_engine-default due_resources due_early

abbrev cluster : Resource
cluster = convert_cluster (item "c1")

rs_fetched : fetch stroke_host trees later_world default_sentinel ≡ ok fetched
unfolding fetch to_map add_selectors add_selector insert
rs_fetched = clusters_fetched stroke_host

cluster_given : cluster.id ≢ ""
unfolding convert_cluster
cluster_given e = cc ((eq_iff "c1" "").1 e)

cluster_due : is_due cluster (20 * second) ≡ true
unfolding is_due less_int convert_cluster convert_conditions
cluster_due = refl

no_conditions : AreEarly cluster
unfolding convert_cluster convert_conditions
no_conditions = tt

abbrev event : Event
event =
    new_event stroke_host trees later_world default_sentinel 0 "uuid" cluster
      (decision_of stroke_host trees later_world default_sentinel cluster)

abbrev run_calls : List Call
run_calls =
    (start stroke_host trees later_world (map tick (later_world ∷ []) ++ done ∷ [])
      default_sentinel).calls

start_publishes-is_due_example :
    In (publish (topic stroke_host trees later_world default_sentinel) event) run_calls
start_publishes-is_due_example =
    start_publishes-is_due stroke_host trees conversions default_sentinel trees-IsCel
      conversions-IsConversions new_decision_engine-default later_world (later_world ∷ []) []
      later_world [] (convert_cluster (item "") ∷ []) cluster "uuid" (inr (inl refl)) late
      rs_fetched no_conditions cluster_given cluster_due refl refl

event_published :
    In (publish (topic stroke_host trees later_world default_sentinel) event) run_calls
event_published =
    start_publishes-is_due stroke_host trees conversions default_sentinel trees-IsCel
      conversions-IsConversions new_decision_engine-default later_world (later_world ∷ []) []
      later_world [] (convert_cluster (item "") ∷ []) cluster "uuid" (inr (inl refl)) late
      rs_fetched no_conditions cluster_given cluster_due refl refl

fetched_early :
    (rs : List Resource)
    → fetch stroke_host trees later_world default_sentinel ≡ ok rs
    → All AreEarly rs
unfolding convert_cluster convert_conditions
fetched_early rs h = subst (All AreEarly) (ok_inj (sym rs_fetched ∙ h)) (tt, (tt, tt))

start-is_due_example :
    (w' : World) × In w' (later_world ∷ later_world ∷ [])
    × (rs : List Resource) × (fetch stroke_host trees w' default_sentinel ≡ ok rs)
    × ((r : Resource) × In r rs
        × (r.id ≢ "")
        × (is_due r w'.now ≡ true)
        × ((i : ℕ) × (event_id : String) × (event
              ≡ new_event stroke_host trees w' default_sentinel i event_id r
                  (decision_of stroke_host trees w' default_sentinel r))))
start-is_due_example =
    start-is_due stroke_host trees conversions default_sentinel trees-IsCel
      conversions-IsConversions new_decision_engine-default later_world (later_world ∷ []) []
      (topic stroke_host trees later_world default_sentinel) event (late, (late, tt))
      (fetched_early, (fetched_early, tt)) event_published

near : in_range (20 * second) (last_reconciled resource.status.conditions none) ≡ true
unfolding fits
near = refl

evaluate-verdict_of_example :
    (evaluate stroke_host trees
      (record created { conditions_lookup = [] })
      (some resource)
      (20 * second)).0
    ≡ verdict_of (is_due resource (20 * second))
evaluate-verdict_of_example =
    evaluate-verdict_of stroke_host trees conversions trees-IsCel conversions-IsConversions created
      new_decision_engine-default [] resource (20 * second) (λ e. cc) early near

later_near : in_range (25 * second) (last_reconciled resource.status.conditions none) ≡ true
unfolding fits
later_near = refl

first_due :
    (evaluate stroke_host trees
      (record created { conditions_lookup = [] })
      (some resource)
      (20 * second)).0.should_publish
    ≡ true
first_due =
    evaluate-is_due stroke_host trees conversions trees-IsCel conversions-IsConversions created
      new_decision_engine-default [] resource (20 * second) (λ e. cc) early
    ∙ resource_due

-- The same resource at 20 and at 25 seconds, the second evaluation after one that left conditions.
evaluate_later_example :
    (evaluate stroke_host trees
      (record created { conditions_lookup = ("Ready", zero_condition) ∷ [] })
      (some resource)
      (25 * second)).0.should_publish
    ≡ true
evaluate_later_example =
    evaluate_later stroke_host trees conversions trees-IsCel conversions-IsConversions created
      new_decision_engine-default [] (("Ready", zero_condition) ∷ []) resource (20 * second)
      (25 * second) (λ e. cc) (omega arith) early later_near first_due
