-- ===== src/Logger/Laws.antt =====
-- What is written, and where.
use hyperfleet_sentinel.Base.{
  ◌⊎◌, true, ◌≤◌, ◌<◌, String, ◌≡◌, refl, false, Option, none, some, List, [], inl, inr, ℤ, ltb,
  leb, eqb, ◌&&◌, Bool-cases, Option-cases, is_positive, length, arith, if◌then◌else◌, ◌∷◌, ◌+++◌,
}
use hyperfleet_sentinel.Logger.{
  LogLevel, level_debug, level_error, Context, Logger, active, LogFormat, format_text, format_json,
  Writer, stderr, LogConfig,
}
use hyperfleet_sentinel.Logger.Entry.{
  LogEntry, Printer, build_entry, format_entry_text, format_entry_json,
}
use hyperfleet_sentinel.Logger.Stack.{max_stack_frames, length-get_stack_trace}
use hyperfleet_sentinel.Logger.Output.{
  Write, Moment, writer_of, should_log, add_error, format_entry, write_output, log_with_error,
  log_at, v,
}

-- What an entry reads as in each format.
abbrev pub Reads : Printer → LogFormat → LogEntry → String → Type 0
Reads printer format_json entry text = text ≡ format_entry_json printer entry
Reads printer format_text entry text = text ≡ format_entry_text printer entry

-- Where a logger writes: to stderr if it has no output.
abbrev pub WritesTo : Option Writer → Writer → Type 0
WritesTo none w = w ≡ stderr
WritesTo (some output) w = w ≡ output

-- What follows the line of the entry: nothing, or a report of the error on stderr.
abbrev pub IsReport : Option String → List Write → Type 0
IsReport none rest = rest ≡ []
IsReport (some e) rest =
    rest ≡ record { writer = stderr; output = "logger: write failed: " +++ e +++ "\n" } ∷ []

-- The output of one entry: its own line, and one more on stderr if the writer failed.
pub record IsWritten (printer : Printer) (l : Logger) (now : Moment) (ctx : Option Context)
    (level : LogLevel) (message : String) (writes : List Write) : Type 0 where
  pub entry : LogEntry
  pub line : Write
  pub rest : List Write
  pub written : writes ≡ line ∷ rest
  pub reads : Reads printer l.config.format entry line.output
  pub writes_to : WritesTo l.config.output line.writer
  pub report : IsReport (now.write_error line.writer) rest
  pub says : entry.message ≡ message
  pub bounded : length entry.stack_trace ≤ max_stack_frames
  pub no_stack : (level ≡ level_error) ⊎ ((entry.stack_trace ≡ []) × (entry.error ≡ ""))
  pub no_trace : (l.config.otel_enabled ≡ true) ⊎ ((entry.trace_id ≡ "") × (entry.span_id ≡ ""))

-- What an entry has before the error and the stack trace are added.
build_entry_lem :
    (l : Logger) (timestamp : String) (ctx : Option Context) (level : LogLevel) (message : String)
    → let e = build_entry l timestamp ctx level message in
      (e.message ≡ message)
      × (e.stack_trace ≡ [])
      × (e.error ≡ "")
      × ((l.config.otel_enabled ≡ true) ⊎ ((e.trace_id ≡ "") × (e.span_id ≡ "")))
unfolding build_entry
build_entry_lem l timestamp none level message = (refl, refl, refl, inr (refl, refl))
build_entry_lem l timestamp (some ctx) level message = (
  refl,
  refl,
  refl,
  elim (Bool-cases l.config.otel_enabled) [ inl on ↦ inl on | inr off ↦ inr (rw off (refl, refl)) ],
)

build_entry_verbosity :
    (l : Logger) (n : ℤ) (timestamp : String) (ctx : Option Context) (level : LogLevel)
    (message : String)
    → build_entry (record l { verbosity = n }) timestamp ctx level message
      ≡ build_entry l timestamp ctx level message
unfolding build_entry
build_entry_verbosity l n timestamp none level message = refl
build_entry_verbosity l n timestamp (some ctx) level message = refl

format_entry-Reads :
    (printer : Printer) (format : LogFormat) (entry : LogEntry)
    → Reads printer format entry (format_entry printer format entry)
unfolding format_entry
format_entry-Reads printer format_json entry = refl
format_entry-Reads printer format_text entry = refl

writer_of-WritesTo : (cfg : LogConfig) → WritesTo cfg.output (writer_of cfg)
writer_of-WritesTo cfg = elim (Option-cases cfg.output) [
  | inl missing ↦ rw missing refl
  | inr (w, configured) ↦ rw configured refl
]

write_output-IsReport :
    (printer : Printer) (now : Moment) (w : Writer) (output : String)
    → (rest : List Write) × (write_output printer now w output
        ≡ record { writer = w; output = output } ∷ rest)
      × IsReport (now.write_error w) rest
unfolding write_output
write_output-IsReport printer now w output = elim (Option-cases (now.write_error w)) [
  | inl fine ↦ ([], rw fine refl, rw fine refl)
  | inr (e, failed) ↦ (
    record { writer = stderr; output = "logger: write failed: " +++ e +++ "\n" } ∷ [],
    rw failed refl,
    rw failed refl,
  )
]

module _ (printer : Printer) (l : Logger) (now : Moment) (ctx : Option Context) where
  add_error-IsWritten :
      (level : LogLevel) (message : String)
      → IsWritten printer l now ctx level message (
          write_output printer now (writer_of l.config) (
            format_entry printer l.config.format
              (add_error now level "" (build_entry l now.timestamp ctx level message))))
  unfolding add_error build_entry
  add_error-IsWritten level message =
      let e = build_entry l now.timestamp ctx level message in
      let (says, no_stack, no_error, no_trace) =
        build_entry_lem l now.timestamp ctx level message in
      let entry = add_error now level "" e in
      let output = format_entry printer l.config.format entry in
      let (rest, written, report) = write_output-IsReport printer now (writer_of l.config) output in
      record {
        entry = entry;
        line = record { writer = writer_of l.config; output = output };
        rest = rest;
        written = written;
        reads = format_entry-Reads printer l.config.format entry;
        writes_to = writer_of-WritesTo l.config;
        report = report;
        says = elim (Bool-cases (eqb level level_error)) [
          | inl same ↦ rw same says
          | inr other ↦ rw other says
        ];
        bounded = elim (Bool-cases (eqb level level_error)) [
          | inl same ↦ rw same (length-get_stack_trace now.frames)
          | inr other ↦ rw (other, no_stack) (omega arith)
        ];
        no_stack = elim (Bool-cases (eqb level level_error)) [
          | inl same ↦ inl (ground arith)
          | inr other ↦ inr (rw other (no_stack, no_error))
        ];
        no_trace = elim (Bool-cases (eqb level level_error)) [
          | inl same ↦ rw same no_trace
          | inr other ↦ rw other no_trace
        ];
      }

  -- A logger writes nothing below its configured level, and from it on one entry, in its format
  -- and to its output (stderr without one), followed by a report on stderr if that write failed.
  -- The entry has the message, at most 15 stack frames, none of them and no error but at the error
  -- level, and no trace or span where tracing is disabled.
  pub log_at_lem :
      (level : LogLevel) (message : String)
      → ((level < l.config.level) × ((log_at printer level (active l) now ctx message).writes ≡ []))
        ⊎ ((l.config.level ≤ level)
            × IsWritten printer l now ctx level message
                (log_at printer level (active l) now ctx message).writes)
  unfolding log_at log_with_error should_log
  log_at_lem level message =
      let w = add_error-IsWritten level message in
      elim (Bool-cases (leb l.config.level level)) [
        | inl high ↦ inr (ground arith, rw high w)
        | inr low ↦ inl (ground arith, rw low refl)
      ]

  -- V of a positive level writes what the logger itself writes where the debug level is enabled,
  -- and nothing otherwise; V of 0 or less changes nothing that is written.
  pub log_at-v :
      (n : ℤ) (level : LogLevel) (message : String)
      → log_at printer level (v (active l) n) now ctx message ≡ (
          if is_positive n && ltb level_debug l.config.level
          then record { writes = []; exits = false }
          else log_at printer level (active l) now ctx message)
  unfolding log_at v log_with_error
  log_at-v n level message = elim (Bool-cases (is_positive n && ltb level_debug l.config.level)) [
    | inl off ↦ rw off refl
    | inr on ↦ rw (on, build_entry_verbosity l n now.timestamp ctx level message) refl
  ]
