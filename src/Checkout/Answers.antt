-- ===== src/Checkout/Answers.antt =====
-- What the broker's answers make of an event in services/checkout/src/infrastructure.rs.
use parallax_telemetry_playg.Prelude.{◌≡◌, ◌↔◌, refl, true, Text, codes, Result, ok, err, ◌>>◌}
use parallax_telemetry_playg.Propagation.Headers.{HeaderApi, HeaderBuild}
use parallax_telemetry_playg.Checkout.Errors.{ApiError, ApiResult}
use parallax_telemetry_playg.Checkout.Outbox.{OutboxEvent, is_transient_outbox_error}
use parallax_telemetry_playg.Checkout.Broker.{
  error_with, unavailable, map_err, ack, ack_returned, nack, not_requested, Publication, not_sent,
  not_confirmed, timed_out, confirmed, require_routed_confirmation, confirm, Exchange,
  stored_carrier_context, publish_outbox_message,
}

confirm_iff : (p : Publication) → (confirm p ≡ ok tt) ↔ (p ≡ confirmed ack)
unfolding confirm require_routed_confirmation
confirm_iff (not_sent m) = (λ h. absurd (cc), λ h. absurd (cc))
confirm_iff (not_confirmed m) = (λ h. absurd (cc), λ h. absurd (cc))
confirm_iff timed_out = (λ h. absurd (cc), λ h. absurd (cc))
confirm_iff (confirmed ack) = (λ h. refl, λ h. refl)
confirm_iff (confirmed ack_returned) = (λ h. absurd (cc), λ h. absurd (cc))
confirm_iff (confirmed nack) = (λ h. absurd (cc), λ h. absurd (cc))
confirm_iff (confirmed not_requested) = (λ h. absurd (cc), λ h. absurd (cc))

map_err_iff :
    (f : Text → ApiError) (r : Result Text (Unit {0})) → (map_err f r ≡ ok tt) ↔ (r ≡ ok tt)
map_err_iff f (ok u) = (λ h. refl, λ h. refl)
map_err_iff f (err e) = (λ h. absurd (cc), λ h. absurd (cc))

then_iff :
    (r : ApiResult (Unit {0})) (m : ApiResult (Unit {0}))
    → ((r >> m) ≡ ok tt) ↔ ((r ≡ ok tt) × (m ≡ ok tt))
then_iff (ok u) m = (λ h. (refl, h), λ h. h.1)
then_iff (err e) m = (λ h. absurd (cc), λ h. absurd (cc))

-- An event counts as published exactly when its stored carrier is valid, its payload is JSON, there
-- is a channel, its envelope is encoded, and the broker acknowledges the message without
-- returning it.
pub publish_outbox_message_iff :
    {H V : Type 0} (api : HeaderApi H V) (build : HeaderBuild H V) (reason : Text) (x : Exchange)
    (event : OutboxEvent)
    → (publish_outbox_message api build reason x event ≡ ok tt) ↔ (
        (stored_carrier_context api build reason event.traceparent event.tracestate event.baggage
          ≡ ok tt)
        × (x.parse event.payload ≡ ok tt)
        × (x.channel ≡ ok tt)
        × (x.encode event ≡ ok tt)
        × (x.publication event ≡ confirmed ack))
unfolding publish_outbox_message
publish_outbox_message_iff api build reason x event =
    let carrier =
      stored_carrier_context api build reason event.traceparent event.tracestate event.baggage in
    let payload = map_err_iff (error_with (codes "event_protocol_error")) (x.parse event.payload) in
    let channel = map_err_iff (unavailable (codes "messaging_unavailable")) x.channel in
    let envelope = map_err_iff (error_with (codes "event_encode_failed")) (x.encode event) in
    let answer = confirm_iff (x.publication event) in
    (
      λ h.
          let (a, h1) = (then_iff carrier _).0 h in
          let (b, h2) =
            (then_iff (map_err (error_with (codes "event_protocol_error")) (x.parse event.payload))
                _).0
              h1 in
          let (c, h3) =
            (then_iff (map_err (unavailable (codes "messaging_unavailable")) x.channel) _).0 h2 in
          let (d, h4) =
            (then_iff (map_err (error_with (codes "event_encode_failed")) (x.encode event)) _).0
              h3 in
          (a, payload.0 b, channel.0 c, envelope.0 d, answer.0 h4),
      λ h. (then_iff carrier _).1 (
        h.0,
        (then_iff (map_err (error_with (codes "event_protocol_error")) (x.parse event.payload)) _).1
            (
              payload.1 h.1,
              (then_iff (map_err (unavailable (codes "messaging_unavailable")) x.channel) _).1 (
                channel.1 h.2,
                (then_iff (map_err (error_with (codes "event_encode_failed")) (x.encode event)) _).1
                    (envelope.1 h.3, answer.1 h.4),
              ),
            ),
      ),
    )

-- The broker may take the message at another time.
abbrev pub MayRetry : Publication → Type 0
MayRetry (confirmed nack) = Unit {0}
MayRetry (confirmed _) = ⊥
MayRetry _ = Unit {0}

IsRetried : Type 0 → ApiError → Type 0
IsRetried T e = (is_transient_outbox_error e.code ≡ true) ↔ T
