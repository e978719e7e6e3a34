-- ===== src/Checkout/Broker.antt =====
-- Publishing an event: `publish_outbox_message`, `stored_carrier_context` and
-- `require_routed_confirmation` of services/checkout/src/infrastructure.rs. RabbitMQ is reached
-- through lapin, and JSON through serde_json.
use parallax_telemetry_playg.Prelude.{
  Option, none, some, [], ◌∷◌, ◌++◌, Text, codes, Result, ok, err, ok_or, ◌>>=◌, ◌>>◌,
}
use parallax_telemetry_playg.Propagation.Headers.{HeaderApi}
use parallax_telemetry_playg.Propagation.Durable.{validate_durable_context}
use parallax_telemetry_playg.Propagation.Headers.{HeaderBuild}
use parallax_telemetry_playg.Checkout.Errors.{ApiError, api_error, ApiResult}
use parallax_telemetry_playg.Checkout.Outbox.{OutboxEvent}

abbrev pub error_with : Text → Text → ApiError
error_with code message = record { status = 500; code = code; message = message }

abbrev pub unavailable : Text → Text → ApiError
unavailable code message = record { status = 503; code = code; message = message }

-- An error of another library as an error of the service.
abbrev pub map_err : {A : Type 0} → (Text → ApiError) → Result Text A → ApiResult A
map_err f (ok a) = ok a
map_err f (err e) = err (f e)

-- `lapin::Confirmation`: an acknowledgement, with the message when it was returned.
pub data Confirmation : Type 0 where
  ack ack_returned nack not_requested : Confirmation

-- What becomes of a publication within `OUTBOX_PUBLISH_TIMEOUT`.
pub data Publication : Type 0 where
  not_sent not_confirmed : Text → Publication
  timed_out : Publication
  confirmed : Confirmation → Publication

unfoldable pub require_routed_confirmation : Confirmation → ApiResult (Unit {0})
require_routed_confirmation ack = ok tt
require_routed_confirmation ack_returned = err (
    api_error 503 "messaging_unroutable"
      "RabbitMQ returned the published event because no route accepted it")
require_routed_confirmation nack =
    err (api_error 503 "messaging_rejected" "RabbitMQ negatively acknowledged the published event")
require_routed_confirmation not_requested = err (
    api_error 503 "messaging_confirm_unavailable"
      "RabbitMQ publisher confirmation was not requested")

unfoldable pub confirm : Publication → ApiResult (Unit {0})
unfolding require_routed_confirmation
confirm (not_sent message) = err (unavailable (codes "messaging_unavailable") message)
confirm (not_confirmed message) = err (unavailable (codes "messaging_rejected") message)
confirm timed_out =
    err (api_error 503 "messaging_timeout" "RabbitMQ publish confirmation timed out")
confirm (confirmed confirmation) = require_routed_confirmation confirmation

-- The other libraries: the JSON that the payload is, a channel of the broker, the encoding of the
-- envelope, and the publication.
pub record Exchange : Type 0 where
  pub parse : Text → Result Text (Unit {0})
  pub channel : Result Text (Unit {0})
  pub encode : OutboxEvent → Result Text (Unit {0})
  pub publication : OutboxEvent → Publication

module _ {H V : Type 0} (api : HeaderApi H V) (build : HeaderBuild H V) where
  abbrev nonempty : Option Text → Option Text
  nonempty none = none
  nonempty (some []) = none
  nonempty (some (b ∷ bs)) = some (b ∷ bs)

  -- The message of the error of `HeaderValue::from_str` is `reason`.
  unfoldable pub insert_w3c_header : Text → H → Text → Option Text → ApiResult H
  insert_w3c_header reason headers key value = do
    text ← ok_or (nonempty value) (
        error_with (codes "stored_propagation_invalid")
          (codes "stored propagation field " ++ (key ++ codes " is missing")))
    header ← ok_or (build.try_from text) (
        error_with (codes "stored_propagation_invalid")
          (codes "stored propagation field " ++ (key ++ (codes " is invalid: " ++ reason))))
    ok (build.insert headers key header)

  -- The verdict on the stored carrier; the context is extracted from the headers.
  unfoldable pub stored_carrier_context :
      Text → Option Text → Option Text → Option Text → ApiResult (Unit {0})
  unfolding insert_w3c_header validate_durable_context
  stored_carrier_context reason traceparent tracestate baggage = do
    with_traceparent ← insert_w3c_header reason build.new (codes "traceparent") traceparent
    with_tracestate ← insert_w3c_header reason with_traceparent (codes "tracestate") tracestate
    headers ← insert_w3c_header reason with_tracestate (codes "baggage") baggage
    map_err (error_with (codes "stored_propagation_invalid")) (validate_durable_context api headers)

  unfoldable pub publish_outbox_message : Text → Exchange → OutboxEvent → ApiResult (Unit {0})
  unfolding stored_carrier_context confirm
  publish_outbox_message reason x event = do
    stored_carrier_context reason event.traceparent event.tracestate event.baggage
    map_err (error_with (codes "event_protocol_error")) (x.parse event.payload)
    map_err (unavailable (codes "messaging_unavailable")) x.channel
    map_err (error_with (codes "event_encode_failed")) (x.encode event)
    confirm (x.publication event)
