-- ===== src/Logger/Output.antt =====
-- What a logger writes: `logWithError`, the methods of the two loggers, `V` and `Extra`.
use hyperfleet_sentinel.Base.{
  String, Bool, true, false, Option, none, some, List, [], ◌∷◌, insert, Value, ℤ, ltb, leb, eqb,
  ◌==◌, ◌&&◌, is_positive, if◌then◌else◌, ◌+++◌,
}
use hyperfleet_sentinel.Logger.{
  LogLevel, level_debug, level_info, level_warn, level_error, LogFormat, format_text, format_json,
  Writer, stderr, LogConfig, Context, Logger, HyperFleetLogger, active, noop,
}
use hyperfleet_sentinel.Logger.Entry.{
  LogEntry, Printer, build_entry, format_entry_text, format_entry_json,
}
use hyperfleet_sentinel.Logger.Stack.{Frame, get_stack_trace}

pub record Write : Type 0 where
  pub writer : Writer
  pub output : String

-- What a call leaves outside: its writes in order, and whether it exits the process.
pub record Effect : Type 0 where
  pub writes : List Write
  pub exits : Bool

-- What a call meets outside: the time as it is printed, its stack, and the errors of the writers.
pub record Moment : Type 0 where
  pub timestamp : String
  pub frames : Option (List Frame)
  pub write_error : Writer → Option String

abbrev pub writer_of : LogConfig → Writer
writer_of cfg = elim cfg.output [ none ↦ stderr | some w ↦ w ]

unfoldable pub should_log : Logger → LogLevel → Bool
should_log l level = leb l.config.level level

abbrev error_of : String → String → String
error_of message error_msg = if error_msg == "" then message else error_msg

-- The error and the stack trace, at the error level only.
unfoldable pub add_error : Moment → LogLevel → String → LogEntry → LogEntry
add_error now level error_msg entry =
    if eqb level level_error
    then record entry {
      error = error_of entry.message error_msg;
      stack_trace = get_stack_trace now.frames;
    }
    else entry

module _ (printer : Printer) where
  unfoldable pub format_entry : LogFormat → LogEntry → String
  format_entry format_json entry = format_entry_json printer entry
  format_entry format_text entry = format_entry_text printer entry

  -- A write that fails is reported on stderr.
  unfoldable pub write_output : Moment → Writer → String → List Write
  write_output now w output = record { writer = w; output = output } ∷ (elim (now.write_error w) [
    | none ↦ []
    | some e ↦ record { writer = stderr; output = "logger: write failed: " +++ e +++ "\n" } ∷ []
  ])

  unfoldable pub log_with_error :
      Logger → Moment → Option Context → LogLevel → String → String → List Write
  unfolding should_log write_output format_entry add_error
  log_with_error l now ctx level message error_msg =
      if should_log l level
      then write_output now (writer_of l.config) (
          format_entry l.config.format
            (add_error now level error_msg (build_entry l now.timestamp ctx level message)))
      else []

  abbrev returns : List Write → Effect
  returns writes = record { writes = writes; exits = false }

  -- The methods of the two loggers at one level.
  unfoldable pub log_at : LogLevel → HyperFleetLogger → Moment → Option Context → String → Effect
  unfolding log_with_error
  log_at level (active l) now ctx message = returns (log_with_error l now ctx level message "")
  log_at level noop now ctx message = returns []

  unfoldable pub debug : HyperFleetLogger → Moment → Option Context → String → Effect
  debug = log_at level_debug

  unfoldable pub info : HyperFleetLogger → Moment → Option Context → String → Effect
  info = log_at level_info

  unfoldable pub warn : HyperFleetLogger → Moment → Option Context → String → Effect
  warn = log_at level_warn

  unfoldable pub error : HyperFleetLogger → Moment → Option Context → String → Effect
  error = log_at level_error

  unfoldable pub fatal : HyperFleetLogger → Moment → Option Context → String → Effect
  unfolding log_with_error
  fatal (active l) now ctx message = record {
    writes = log_with_error l now ctx level_error ("FATAL: " +++ message) "";
    exits = true;
  }
  fatal noop now ctx message = record {
    writes = record { writer = stderr; output = "FATAL: " +++ message +++ "\n" } ∷ [];
    exits = true;
  }

unfoldable pub v : HyperFleetLogger → ℤ → HyperFleetLogger
v (active l) level =
    if is_positive level && ltb level_debug l.config.level
    then noop
    else active (record { config = l.config; extra = l.extra; verbosity = level })
v noop level = noop

unfoldable pub extra : HyperFleetLogger → String → Value → HyperFleetLogger
extra (active l) key value =
    active (record { config = l.config; extra = insert key value l.extra; verbosity = l.verbosity })
extra noop key value = noop
