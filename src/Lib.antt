-- ===== src/Lib.antt =====
-- The HyperFleet Sentinel: a service that polls the HyperFleet API for resources, decides for each
-- by CEL expressions whether its reconciliation is due, and publishes an event for it if so.
--
-- The parts, and the files that model them. A Go name is spelt here in lower case with underscores,
-- as `FetchResources` is `fetch_resources`; a struct is a record, its nil pointers are `none`.
--   internal/client/client.go: Client (types, errors), Client/Search (the search parameter),
--     Client/Fetch (one fetch of clusters or node pools), Client/Retry (`fetch_resources`),
--     Client/Creation (`new_hyperfleet_client`).
--   internal/config/config.go: Config (types, defaults), Config/Selector (`to_map`),
--     Config/Decision, Config/Leaves and Config/Validation (the three validations), Config/Loading
--     (`load_config`), Config/Redaction (`redacted_copy`, on a store of cells).
--   internal/engine/decision.go: Engine (`new_decision_engine`, `evaluate`), Engine/Maps (what CEL
--     sees of a resource, and `condition()`). Cel is the parameter for the CEL library; Cel/Expr and
--     Cel/Meaning are the part of the language that the default message decision is written in, its
--     texts and what its documentation says of their values. Engine/Default reads the decision as
--     trees of that language; Engine/Default/Due says when a resource is due, without them.
--   internal/payload/builder.go: Payload (`new_builder`, `build_payload`), Payload/Tree (compiled
--     nodes), Payload/Maps (what CEL sees of a resource here). Payload/Building is the payload as a
--     relation.
--   internal/metrics/metrics.go: Metrics (the updates), Metrics/Registry (the collectors and their
--     registration).
--   internal/sentinel/sentinel.go: Sentinel (the round for one resource), Sentinel/Cycle (`trigger`
--     and the loop of `start`).
--   internal/health/health.go: Health.
--   cmd/sentinel/main.go: Serve (`init_logging`, `run_serve`), Serve/Actions (actions and deferred
--     calls), Serve/Shutdown (the end, as steps of two goroutines), Serve/Command (the commands),
--     Serve/Flags (the flags that they declare), Serve/Main (`main`), Serve/Default (the sentinel
--     of a configuration without a message decision).
--   pkg/logger/logger.go, pkg/logger/operationid_middleware.go: Logger (configuration, context),
--     Logger/Names, Logger/Entry, Logger/Stack, Logger/Output and Logger/Methods (the methods),
--     Logger/Mock (the mock logger).
--   internal/publisher/publisher.go: Publisher (the mock publisher).
--   pkg/logger/broker_adapter.go: Logger/Adapter.
--   pkg/telemetry/otel.go: Telemetry (`init_trace_provider`), Telemetry/Span.
-- The proofs stand in the other children: Laws, or what they prove. Client/Search/Reader is a reader
-- of the search parameter, to state what the parameter means; the program has none. Base holds what
-- all share; Tests applies the theorems to one concrete world.
--
-- How the parts interact: `start` runs `trigger` at once and at each tick. `trigger` fetches by
-- `fetch_resources`, asks the engine's `evaluate` for each resource with an id, and for a match
-- builds the payload and publishes. The engine keeps the conditions of the resource that it
-- evaluated last, so it is threaded through the loop. What a cycle does outside is the list of its
-- calls, in order: metric updates and publications. `serve_command` loads the configuration, sets
-- the logging up and runs `run_serve`, which connects the parts. What the loggers write is
-- modelled in Logger, and left out of the other parts: a `Process` of Serve/Main has the text and
-- the error line that the command and `main` print themselves.
--
-- Parameters, for code that the repository does not hold: `Cel` (the CEL library), `Backoff` (the
-- retry library, whose documented behaviour is `IsBackoff`), `Api` (the generated API client),
-- `Conversions` (CEL's timestamp and duration), `Host` (formatting, quoting and lower case of the
-- standard library), and `World` (the clock, the UUIDs, the encoding of events, the spans and the
-- broker, as one cycle meets them), `Viper` (the configuration library, whose documented behaviour
-- is `IsViper`), `Otel` (OpenTelemetry and floats), `Cobra` (the library of commands and flags,
-- whose documented behaviour is `IsCobra`), `Build` (what is set at the link), `Registries` (which
-- collectors the Prometheus registries take), `Printer` and `Moment` (what a log line meets outside)
-- and `Machine` (what the process meets). A CEL error is a text. What is said of the default message decision supposes `IsCel` (a program that is
-- compiled from one of its texts evaluates as the language's documentation says) and
-- `IsConversions` (times and the two delays are converted as documented). Each answer of the API
-- may depend on the number of the call.
--
-- Representation: maps with string keys are association lists, in one order in which `range` may
-- visit them, or `Fields` inside values; a nil slice or map is the empty one, but for the message
-- data, whose nil is `none`, and for Config/Redaction, where nil is the address `none`. A time is
-- its nanoseconds since the zero time. Every loop is a structural recursion, the retries are in
-- the backoff library, and the loop of `start` recurs on the signals it receives, so no fuel is
-- needed. The shutdown is a relation on states, with the number of steps as an index.
--
-- Not modelled: what the library of commands prints itself and the HTTP servers' addresses and
-- limits (cmd/sentinel/main.go), and the test programs (test), which are test support. Logging and
-- spans change no state that the program reads, and locks guard single reads and writes of fields.
pub mod Base
pub mod Client
pub mod Config
pub mod Cel
pub mod Engine
pub mod Payload
pub mod Publisher
pub mod Metrics
pub mod Sentinel
pub mod Health
pub mod Serve
pub mod Logger
pub mod Telemetry
pub mod Tests
