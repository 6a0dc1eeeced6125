-- ===== src/Publisher.antt =====
-- internal/publisher/publisher.go: the publisher that only prints its events.
pub mod Laws
use hyperfleet_sentinel.Base.{String, Option, none, some, Result, ok, err, map_err, ◌+++◌}
use hyperfleet_sentinel.Sentinel.{Event, World}

pub record MockPublisher : Type 0 where
  pub broker_type : String

unfoldable pub new_mock_publisher : MockPublisher
new_mock_publisher = record { broker_type = "mock" }

abbrev printed_event : String → String → String
printed_event topic data_text =
    "[MOCK PUBLISH] topic=" +++ topic +++ " event=" +++ data_text +++ "\n"

-- What it prints, with `json.MarshalIndent` of the event.
unfoldable pub publish :
    (Event → Result String String) → MockPublisher → String → Event → Result String String
publish marshal p topic event = elim (marshal event) [
  | err e ↦ err ("failed to marshal event: " +++ e)
  | ok data_text ↦ ok (printed_event topic data_text)
]

unfoldable pub close : MockPublisher → Option String
close p = none

unfoldable pub health : MockPublisher → Option String
health p = none

abbrev pub answer_of : Result String String → Option String
answer_of (err e) = some e
answer_of (ok text) = none

-- The world of a cycle whose publisher is the mock.
abbrev pub with_mock : (Event → Result String String) → World → World
with_mock marshal w = record w {
  publish = λ i topic event. answer_of (publish marshal new_mock_publisher topic event);
}
