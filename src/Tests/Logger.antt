-- ===== src/Tests/Logger.antt =====
-- The theorems of the logger and of the tracing, for a logger that writes text to stdout.
use hyperfleet_sentinel.Base.{
  Environment, ◌⊎◌, ◌≤◌, ◌<◌, ◌≡◌, refl, true, false, Option, none, some, [], ◌∷◌, ok, pos, negsuc,
  ◌==◌, ltb, ℤ, if◌then◌else◌,
}
use hyperfleet_sentinel.Logger.{
  level_info, level_error, format_text, stdout, Context, Logger, active,
}
use hyperfleet_sentinel.Logger.Entry.{Printer}
use hyperfleet_sentinel.Logger.Output.{Moment, log_at}
use hyperfleet_sentinel.Logger.Laws.{IsWritten, log_at_lem}
use hyperfleet_sentinel.Telemetry.{
  Otel, TracerProvider, stdout_trace, trace_id_ratio_based, parent_based, choose_exporter,
  init_trace_provider,
}
use hyperfleet_sentinel.Telemetry.Laws.{HasRate, init_trace_provider-HasRate}
use hyperfleet_sentinel.Tests.Data.{host}

abbrev printer : Printer
printer = record { to_upper = λ s. s; format_value = λ value. "value"; marshal = λ entry. ok "{}" }

abbrev logger : Logger
logger = record {
  config = record {
    output = some stdout;
    component = "sentinel";
    version = "dev";
    hostname = "pod";
    level = level_info;
    format = format_text;
    otel_enabled = false;
  };
  extra = [];
  verbosity = pos 0;
}

abbrev moment : Moment
moment = record {
  timestamp = "2025-01-01T00:00:00Z";
  frames = some (record { function = "main.run"; file = "cmd/main.go"; line = 7 } ∷ []);
  write_error = λ w. none;
}

abbrev context : Option Context
context = some (record {
  op_id = some "op";
  tx_id = none;
  trace_id = some "trace";
  span_id = none;
  decision_reason = none;
  topic = some "events";
  subset = none;
})

log_at_lem_example :
    ((level_error < level_info)
      × ((log_at printer level_error (active logger) moment context "no").writes ≡ []))
    ⊎ ((level_info ≤ level_error)
        × IsWritten printer logger moment context level_error "no"
            (log_at printer level_error (active logger) moment context "no").writes)
log_at_lem_example = log_at_lem printer logger moment context level_error "no"

-- A float in tenths, of which one text is parsed.
abbrev pub otel : Otel
otel = record {
  Float = ℤ;
  one = pos 10;
  parse_float = λ s. if s == "0.5" then some (pos 5) else none;
  at_least_zero = λ x. elim x [ pos n ↦ true | negsuc n ↦ false ];
  at_most_one = λ x. elim x [ pos n ↦ ltb n 11 | negsuc n ↦ true ];
  new_exporter = λ e. none;
  new_resource = λ name version. none;
}

abbrev pub getenv : Environment
getenv name = if name == "OTEL_TRACES_SAMPLER_ARG" then "0.5" else ""

abbrev provider : TracerProvider ℤ
provider = record { exporter = stdout_trace; sampler = parent_based (trace_id_ratio_based (pos 5)) }

provider_made : init_trace_provider host otel getenv "sentinel" "dev" ≡ ok provider
unfolding init_trace_provider choose_exporter
provider_made = refl

init_trace_provider-HasRate_example :
    (otel.new_exporter stdout_trace ≡ none)
    × (stdout_trace ≡ choose_exporter host otel getenv)
    × HasRate otel provider.sampler
init_trace_provider-HasRate_example =
    init_trace_provider-HasRate host otel getenv "sentinel" "dev" provider (refl, refl)
      provider_made
