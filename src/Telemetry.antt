-- ===== src/Telemetry.antt =====
-- pkg/telemetry/otel.go: which exporter, sampler and sampling rate the tracing is set up with.
-- The OpenTelemetry library and the floating-point numbers are the parameter `Otel`; the process's
-- environment is an argument.
pub mod Laws
pub mod Span
use hyperfleet_sentinel.Base.{
  String, Bool, true, false, ◌&&◌, Option, none, some, Result, ok, err, ◌==◌, ◌||◌, if◌then◌else◌,
  ◌+++◌, Host, Environment,
}

pub data Exporter : Type 0 where
  otlp_http otlp_grpc stdout_trace : Exporter

pub data Sampler (Float : Type 0) : Type 0 where
  always_sample never_sample : Sampler Float
  trace_id_ratio_based : Float → Sampler Float
  parent_based : Sampler Float → Sampler Float

-- The errors of the library's calls, as their texts, `strconv.ParseFloat`, and the comparisons
-- of a float with 0.0 and 1.0.
pub record Otel : Type 1 where
  pub Float : Type 0
  pub one : Float
  pub parse_float : String → Option Float
  pub at_least_zero : Float → Bool
  pub at_most_one : Float → Bool
  pub new_exporter : Exporter → Option String
  pub new_resource : String → String → Option String

pub record TracerProvider (Float : Type 0) : Type 0 where
  pub exporter : Exporter
  pub sampler : Sampler Float

abbrev parent_based_trace_id_ratio : String
parent_based_trace_id_ratio = "parentbased_traceidratio"

module _ (host : Host) (otel : Otel) (getenv : Environment) where
  open otel use {Float, one, parse_float, at_least_zero, at_most_one, new_exporter, new_resource}

  abbrev default_sampling_rate : Float
  default_sampling_rate = one

  abbrev accept_rate : Option Float → Float
  accept_rate none = default_sampling_rate
  accept_rate (some parsed_rate) =
      if at_least_zero parsed_rate && at_most_one parsed_rate
      then parsed_rate
      else default_sampling_rate

  unfoldable pub parse_sampling_rate : Float
  parse_sampling_rate =
      if getenv "OTEL_TRACES_SAMPLER_ARG" == ""
      then default_sampling_rate
      else accept_rate (parse_float (getenv "OTEL_TRACES_SAMPLER_ARG"))

  -- The switch on the protocol, for an endpoint that is set; gRPC is the default.
  unfoldable pub choose_exporter : Exporter
  choose_exporter =
      if getenv "OTEL_EXPORTER_OTLP_ENDPOINT" == ""
      then stdout_trace
      else (let protocol = host.to_lower (getenv "OTEL_EXPORTER_OTLP_PROTOCOL") in
          if protocol == "http" || protocol == "http/protobuf" then otlp_http else otlp_grpc)

  abbrev exporter_error : Exporter → String → String
  exporter_error stdout_trace e = "failed to create OpenTelemetry stdout exporter: " +++ e
  exporter_error _ e =
      "failed to create OTLP exporter (protocol="
      +++ getenv "OTEL_EXPORTER_OTLP_PROTOCOL"
      +++ "): "
      +++ e

  unfoldable pub choose_sampler : String → Sampler Float
  unfolding parse_sampling_rate
  choose_sampler sampler_type =
      if sampler_type == "always_on"
      then always_sample
      else if sampler_type == "always_off"
      then never_sample
      else if sampler_type == "traceidratio"
      then trace_id_ratio_based parse_sampling_rate
      else if sampler_type == parent_based_trace_id_ratio || sampler_type == ""
      then parent_based (trace_id_ratio_based parse_sampling_rate)
      else if sampler_type == "parentbased_always_on"
      then parent_based always_sample
      else if sampler_type == "parentbased_always_off"
      then parent_based never_sample
      else parent_based (trace_id_ratio_based parse_sampling_rate)

  unfoldable pub init_trace_provider : String → String → Result String (TracerProvider Float)
  unfolding choose_sampler
  init_trace_provider service_name service_version = elim (new_exporter choose_exporter) [
    | some e ↦ err (exporter_error choose_exporter e)
    | none ↦ elim (new_resource service_name service_version) [
      | some e ↦ err ("failed to create OTel resource: " +++ e)
      | none ↦ ok (record {
        exporter = choose_exporter;
        sampler = choose_sampler (host.to_lower (getenv "OTEL_TRACES_SAMPLER"));
      })
    ]
  ]

-- The error of `Shutdown`, with what the library's shutdown of a provider answers.
unfoldable pub shutdown {ℓ} : {A : Type ℓ} → (A → Option String) → Option A → Option String
shutdown close none = none
shutdown close (some tp) = close tp
