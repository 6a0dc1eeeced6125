-- ===== src/Logger/Entry.antt =====
-- An entry of the log: how it is built from a context, and its text. The functions of the
-- standard library that its text is made with are the parameter `Printer`.
use hyperfleet_sentinel.Base.{
  Result, ok, err, String, Bool, Option, none, some, List, [], ◌∷◌, Dict, Value, ℤ, pos, zero, suc,
  negsuc, decimal, ◌==◌, ◌&&◌, not, if◌then◌else◌, ◌+++◌,
}
use hyperfleet_sentinel.Logger.{Logger, LogLevel, Context}
use hyperfleet_sentinel.Logger.Names.{level_string}

pub record LogEntry : Type 0 where
  pub extra : Dict Value
  pub trace_id : String
  pub timestamp : String
  pub component : String
  pub version : String
  pub hostname : String
  pub error : String
  pub message : String
  pub level : String
  pub subset : String
  pub op_id : String
  pub span_id : String
  pub decision_reason : String
  pub topic : String
  pub stack_trace : List String
  pub tx_id : ℤ

-- `strings.ToUpper`, `fmt.Sprintf("%v")`, and `json.Marshal` of an entry, which may fail.
pub record Printer : Type 0 where
  pub to_upper : String → String
  pub format_value : Value → String
  pub marshal : LogEntry → Result String String

abbrev text_value : Option String → String
text_value none = ""
text_value (some s) = s

abbrev number_value : Option ℤ → ℤ
number_value none = pos 0
number_value (some n) = n

abbrev when : Bool → Option String → String
when b o = if b then text_value o else ""

-- The context that is not nil, or none; and the time as it is printed.
unfoldable pub build_entry : Logger → String → Option Context → LogLevel → String → LogEntry
unfolding level_string
build_entry l timestamp none level message = record {
  extra = l.extra;
  trace_id = "";
  timestamp = timestamp;
  component = l.config.component;
  version = l.config.version;
  hostname = l.config.hostname;
  error = "";
  message = message;
  level = level_string level;
  subset = "";
  op_id = "";
  span_id = "";
  decision_reason = "";
  topic = "";
  stack_trace = [];
  tx_id = pos 0;
}
build_entry l timestamp (some ctx) level message = record {
  extra = l.extra;
  trace_id = when l.config.otel_enabled ctx.trace_id;
  timestamp = timestamp;
  component = l.config.component;
  version = l.config.version;
  hostname = l.config.hostname;
  error = "";
  message = message;
  level = level_string level;
  subset = text_value ctx.subset;
  op_id = text_value ctx.op_id;
  span_id = when l.config.otel_enabled ctx.span_id;
  decision_reason = text_value ctx.decision_reason;
  topic = text_value ctx.topic;
  stack_trace = [];
  tx_id = number_value ctx.tx_id;
}

abbrev text_field : String → String → String
text_field key value = if value == "" then "" else " " +++ key +++ "=" +++ value

abbrev tx_field : ℤ → String
tx_field (pos zero) = ""
tx_field (pos (suc n)) = " tx_id=" +++ decimal (suc n)
tx_field (negsuc n) = " tx_id=-" +++ decimal (suc n)

module _ (printer : Printer) where
  extra_fields : Dict Value → String
  extra_fields [] = ""
  extra_fields ((k, v) ∷ extra) =
      " " +++ k +++ "=" +++ printer.format_value v +++ extra_fields extra

  stack_lines : List String → String
  stack_lines [] = ""
  stack_lines (frame ∷ frames) = "    " +++ frame +++ "\n" +++ stack_lines frames

  unfoldable pub format_entry_text : LogEntry → String
  unfolding extra_fields stack_lines
  format_entry_text entry =
      entry.timestamp
      +++ " "
      +++ printer.to_upper entry.level
      +++ " ["
      +++ entry.component
      +++ "] ["
      +++ entry.version
      +++ "] ["
      +++ entry.hostname
      +++ "] "
      +++ entry.message
      +++ text_field "trace_id" entry.trace_id
      +++ text_field "span_id" entry.span_id
      +++ text_field "op_id" entry.op_id
      +++ tx_field entry.tx_id
      +++ text_field "decision_reason" entry.decision_reason
      +++ text_field "topic" entry.topic
      +++ text_field "subset" entry.subset
      +++ extra_fields entry.extra
      +++ (if not (entry.error == "") && not (entry.error == entry.message)
          then " error=\"" +++ entry.error +++ "\""
          else "")
      +++ "\n"
      +++ stack_lines entry.stack_trace

  unfoldable pub format_entry_json : LogEntry → String
  format_entry_json entry = elim (printer.marshal entry) [
    | err e ↦ "{\"error\":\"failed to marshal log entry: " +++ e +++ "\"}" +++ "\n"
    | ok data_text ↦ data_text +++ "\n"
  ]
