-- ===== src/Logger/Names.antt =====
-- The names of levels, formats and outputs: parsing and printing. `strings.TrimSpace` is an
-- argument.
use hyperfleet_sentinel.Base.{String, Result, ok, err, eqb, ◌==◌, ◌||◌, if◌then◌else◌, ◌+++◌, Host}
use hyperfleet_sentinel.Logger.{
  LogLevel, level_debug, level_info, level_warn, level_error, LogFormat, format_text, format_json,
  Writer, stdout, stderr,
}

module _ (host : Host) (trim_space : String → String) where
  unfoldable pub parse_log_level : String → Result String LogLevel
  parse_log_level level =
      let name = host.to_lower (trim_space level) in
      if name == "debug"
      then ok level_debug
      else if name == "info"
      then ok level_info
      else if name == "warn" || name == "warning"
      then ok level_warn
      else if name == "error"
      then ok level_error
      else err ("unknown log level: " +++ level +++ " (valid: debug, info, warn, error)")

  unfoldable pub parse_log_format : String → Result String LogFormat
  parse_log_format format =
      let name = host.to_lower (trim_space format) in
      if name == "text"
      then ok format_text
      else if name == "json"
      then ok format_json
      else err ("unknown log format: " +++ format +++ " (valid: text, json)")

  unfoldable pub parse_log_output : String → Result String Writer
  parse_log_output output =
      let name = host.to_lower (trim_space output) in
      if name == "stdout" || name == ""
      then ok stdout
      else if name == "stderr"
      then ok stderr
      else err ("unknown log output: " +++ output +++ " (valid: stdout, stderr)")

unfoldable pub level_string : LogLevel → String
level_string l =
    if eqb l level_debug
    then "debug"
    else if eqb l level_info
    then "info"
    else if eqb l level_warn
    then "warn"
    else if eqb l level_error
    then "error"
    else "unknown"

unfoldable pub format_string : LogFormat → String
format_string format_json = "json"
format_string format_text = "text"
