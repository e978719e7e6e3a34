-- ===== src/Propagation/Durable.antt =====
-- The carrier of durable work: `validate_durable_context` of
-- libs/playground-telemetry/src/propagation.rs.
use parallax_telemetry_playg.Prelude.{Text, codes, Result, ok_or, ◌>>=◌, ◌>>◌}
use parallax_telemetry_playg.Propagation.Headers.{HeaderApi, single_header, joined_header}
use parallax_telemetry_playg.Propagation.Traceparent.{validate_traceparent_header}
use parallax_telemetry_playg.Propagation.Tracestate.{validate_tracestate_header}
use parallax_telemetry_playg.Propagation.Baggage.{validate_baggage_header}

module _ {H V : Type 0} (api : HeaderApi H V) where
  unfoldable pub validate_durable_context : H → Result Text (Unit {0})
  unfolding single_header joined_header
  validate_durable_context headers = do
    found_traceparent ← single_header api headers (codes "traceparent")
    traceparent ← ok_or found_traceparent (codes "durable W3C carrier is missing traceparent")
    found_tracestate ← single_header api headers (codes "tracestate")
    tracestate ← ok_or found_tracestate (codes "durable W3C carrier is missing tracestate")
    found_baggage ← joined_header api headers (codes "baggage")
    baggage ← ok_or found_baggage (codes "durable W3C carrier is missing baggage")
    validate_traceparent_header traceparent
    validate_tracestate_header tracestate
    validate_baggage_header baggage
