-- ===== src/Telemetry/Span.antt =====
-- Spans: `StartSpan`'s context, and the `traceparent` of an event. A span of the library is what it
-- answers as its context.
use Prim.Native.Nat.{◌/◌}
use hyperfleet_sentinel.Base.{
  ℕ, zero, suc, ◌%◌, ◌-◌, ltb, String, Bool, Option, none, some, Dict, insert, decimal,
  if◌then◌else◌, ◌+++◌,
}
use hyperfleet_sentinel.Logger.{Context, with_trace_id, with_span_id}

pub record SpanContext : Type 0 where
  pub is_valid : Bool
  pub trace_id : String
  pub span_id : String
  pub trace_flags : ℕ

-- The context is enriched for the log only by a valid span.
unfoldable pub start_span : Context → SpanContext → Context
start_span ctx span =
    if span.is_valid then with_span_id (with_trace_id ctx span.trace_id) span.span_id else ctx

-- A digit in base 16, of a number below it, and `%02x` of a byte.
letter_from_a : ℕ → String
letter_from_a zero = "a"
letter_from_a (suc zero) = "b"
letter_from_a (suc (suc zero)) = "c"
letter_from_a (suc (suc (suc zero))) = "d"
letter_from_a (suc (suc (suc (suc zero)))) = "e"
letter_from_a (suc (suc (suc (suc (suc n))))) = "f"

hex_digit : ℕ → String
unfolding letter_from_a
hex_digit n = if ltb n 10 then decimal n else letter_from_a (n - 10)

trace_parent : SpanContext → String
unfolding hex_digit
trace_parent span =
    "00-"
    +++ span.trace_id
    +++ "-"
    +++ span.span_id
    +++ "-"
    +++ hex_digit (span.trace_flags / 16)
    +++ hex_digit (span.trace_flags % 16)

-- The extensions of an event after the call, which a nil event has none of; a nil span is `none`.
unfoldable pub set_trace_context : Option (Dict String) → Option SpanContext → Option (Dict String)
unfolding trace_parent
set_trace_context none span = none
set_trace_context (some event) none = some event
set_trace_context (some event) (some span) =
    if span.is_valid then some (insert "traceparent" (trace_parent span) event) else some event
