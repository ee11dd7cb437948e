-- ===== src/Telemetry/Provider.antt =====
-- telemetry.go: setting up OpenTelemetry, whose exporters and providers are parameters.
use aelora.Prelude.{
  ℕ, ◌/◌, ◌%◌, String, ◌==◌, not, Option, none, some, List, [], ◌∷◌, char_at, if◌then◌else◌,
}
use aelora.Call.{Call, pure, fail, handle, modify, ◌>>=◌, ◌>>◌}

pub record NewProviderConfig : Type 0 where
  pub trace_endpoint : String
  pub metric_endpoint : String

pub data NewProviderOption : Type 0 where
  with_trace_endpoint : String → NewProviderOption
  with_metric_endpoint : String → NewProviderOption

abbrev pub default_provider_config : NewProviderConfig
default_provider_config = record { trace_endpoint = ""; metric_endpoint = "" }

unfoldable pub apply : NewProviderOption → NewProviderConfig → NewProviderConfig
apply (with_trace_endpoint endpoint) cfg = record cfg { trace_endpoint = endpoint }
apply (with_metric_endpoint endpoint) cfg = record cfg { metric_endpoint = endpoint }

apply_all : List NewProviderOption → NewProviderConfig → NewProviderConfig
unfolding apply
apply_all [] cfg = cfg
apply_all (o ∷ rest) cfg = apply_all rest (apply o cfg)

-- What the code calls of OpenTelemetry: an exporter is made for an endpoint, and a provider with an
-- exporter or without one for a service. `install` are the three `otel.Set…`.
pub record Otel (S TracerProvider MeterProvider Exporter : Type 0) : Type 0 where
  pub trace_exporter : String → Call S Exporter
  pub metric_exporter : String → Call S Exporter
  pub tracer_provider : String → Option Exporter → TracerProvider
  pub meter_provider : String → Option Exporter → MeterProvider
  pub shutdown_tracer : TracerProvider → Call S (Unit {0})
  pub shutdown_meter : MeterProvider → Call S (Unit {0})
  pub install : TracerProvider → MeterProvider → S → S
  pub int64_counter : String → Call S String

pub record Telemetry (TracerProvider MeterProvider : Type 0) : Type 0 where
  pub tracer_provider : TracerProvider
  pub meter_provider : MeterProvider

module _ {S TP MP X : Type 0} (otel : Otel S TP MP X) where
  make_tracer : String → String → Call S TP
  make_tracer service endpoint =
      if endpoint == "" then pure (otel.tracer_provider service none) else do
        exporter ← otel.trace_exporter endpoint
        pure (otel.tracer_provider service (some exporter))

  -- Where the exporter fails, the tracer's provider is shut down, and what that answers is dropped.
  make_meter : String → String → TP → Call S MP
  make_meter service endpoint tp =
      if not (endpoint == "")
      then handle (otel.metric_exporter endpoint)
          (λ e. handle (otel.shutdown_tracer tp) (λ e2. fail e) (λ done. fail e))
          (λ exporter. pure (otel.meter_provider service (some exporter)))
      else pure (otel.meter_provider service none)

  unfoldable pub new_provider : String → List NewProviderOption → Call S (Telemetry TP MP)
  unfolding apply_all make_tracer make_meter
  new_provider service opts =
      let cfg = apply_all opts default_provider_config in
      do
        tp ← make_tracer service cfg.trace_endpoint
        mp ← make_meter service cfg.metric_endpoint tp
        modify (otel.install tp mp)
        pure (record { tracer_provider = tp; meter_provider = mp })

  unfoldable pub shutdown : Telemetry TP MP → Call S (Unit {0})
  shutdown t = do otel.shutdown_tracer t.tracer_provider; otel.shutdown_meter t.meter_provider

  -- `init`: an error is a panic.
  unfoldable pub init : Call S (List String)
  init = do
    appends ← otel.int64_counter "aelora.stream.append.failures"
    publishes ← otel.int64_counter "aelora.event.publish.failures"
    enqueued ← otel.int64_counter "aelora.outbox.enqueued.total"
    failures ← otel.int64_counter "aelora.outbox.enqueue.failures"
    pure (appends ∷ publishes ∷ enqueued ∷ failures ∷ [])

-- `hex.EncodeToString`
unfoldable pub encode_to_string : List ℕ → String
encode_to_string [] = ""
encode_to_string (b ∷ rest) =
    String.◌∷◌ (char_at "0123456789abcdef" (b / 16 % 16))
      (String.◌∷◌ (char_at "0123456789abcdef" (b % 16)) (encode_to_string rest))

-- `random` is what rand.Read fills the buffer of 16 bytes with, and `nanos_text` the time in
-- nanoseconds, as FormatInt writes it to the base 16.
unfoldable pub new_trace_id : Option (List ℕ) → String → String
unfolding encode_to_string
new_trace_id none nanos_text = nanos_text
new_trace_id (some random) nanos_text = encode_to_string random

-- The trace id of a request: the span's, where that has a text.
unfoldable pub request_trace_id : String → Option (List ℕ) → String → String
unfolding new_trace_id
request_trace_id span_id random nanos_text =
    if span_id == "" then new_trace_id random nanos_text else span_id

-- `span_id` is the trace id of the context's span, where it has one, and `stored` the value under
-- `traceKey`.
unfoldable pub trace_id_from_context : Option String → Option String → String
trace_id_from_context (some span_id) stored = span_id
trace_id_from_context none (some stored) = stored
trace_id_from_context none none = ""
