-- ===== src/Checkout/Examples.antt =====
-- The properties of the outbox at a sample event, and runs of the publisher.
use parallax_telemetry_playg.Prelude.{
  inl, ◌*◌, ◌≤◌, ◌≡◌, ◌↔◌, refl, some, [], ◌∷◌, codes, ok, length, text_eq, text_Eq, arith,
}
use parallax_telemetry_playg.Table.{find}
use parallax_telemetry_playg.Notifications.Samples.{map_api, map_build}
use parallax_telemetry_playg.Checkout.Outbox.{outbox_max_attempts, publish_one_outbox}
use parallax_telemetry_playg.Checkout.Broker.{
  ack, confirmed, stored_carrier_context, publish_outbox_message,
}
use parallax_telemetry_playg.Checkout.Refinement.{AllFollow, publish_one_outbox-Follow}
use parallax_telemetry_playg.Checkout.Budget.{sends, run_publisher-bounded}
use parallax_telemetry_playg.Checkout.Due.{IsDue}
use parallax_telemetry_playg.Checkout.Sending.{Published, publish_one_outbox-Published}
use parallax_telemetry_playg.Checkout.Answers.{publish_outbox_message_iff}
use parallax_telemetry_playg.Checkout.Samples.{event, outbox, unlocked, deliver, turn, exchange}

due : IsDue 6 event
due = record { budget = omega arith; waiting = inl (refl, omega arith) }

publish_one_outbox-Follow_example :
    AllFollow outbox (publish_one_outbox unlocked 6 7 (codes "t1") deliver outbox).1
publish_one_outbox-Follow_example =
    publish_one_outbox-Follow unlocked 6 7 (codes "t1") deliver outbox (tt, tt)

run_publisher-bounded_example :
    sends (turn ∷ turn ∷ []) outbox ≤ outbox_max_attempts * length outbox
run_publisher-bounded_example = run_publisher-bounded (turn ∷ turn ∷ []) outbox (tt, tt)

row : find (λ e. e.id) event.id outbox ≡ some event
unfolding find text_eq
row = refl

publish_one_outbox-Published_example :
    Published 6 7
      (publish_one_outbox unlocked 6 7 (codes "t1") deliver outbox).0
      outbox
      (publish_one_outbox unlocked 6 7 (codes "t1") deliver outbox).1
publish_one_outbox-Published_example =
    publish_one_outbox-Published unlocked 6 7 (codes "t1") deliver outbox event (tt, tt) row due
      refl (λ e. refl) (omega arith)

publish_outbox_message_iff_example :
    (publish_outbox_message map_api map_build (codes "failed to parse header value") exchange event
      ≡ ok tt)
    ↔ ((stored_carrier_context map_api map_build
            (codes "failed to parse header value")
            event.traceparent
            event.tracestate
            event.baggage
          ≡ ok tt)
        × (exchange.parse event.payload ≡ ok tt)
        × (exchange.channel ≡ ok tt)
        × (exchange.encode event ≡ ok tt)
        × (exchange.publication event ≡ confirmed ack))
publish_outbox_message_iff_example =
    publish_outbox_message_iff map_api map_build (codes "failed to parse header value") exchange
      event
