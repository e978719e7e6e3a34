-- ===== src/Checkout/Samples.antt =====
-- An outbox and a broker for the examples.
use parallax_telemetry_playg.Prelude.{Bool, false, none, some, List, [], ◌∷◌, Text, codes, ok}
use parallax_telemetry_playg.Checkout.Errors.{ApiResult}
use parallax_telemetry_playg.Checkout.Outbox.{OutboxEvent, queued, Turn}
use parallax_telemetry_playg.Checkout.Broker.{Exchange, confirmed, ack}

abbrev pub event : OutboxEvent
event = record {
  id = codes "e1";
  tenant_id = codes "acme";
  event_key = codes "order:1";
  aggregate_type = codes "order";
  aggregate_id = codes "1";
  event_type = codes "order.paid";
  schema_version = 1;
  occurred_at = codes "2026-01-01T00:00:00.000Z";
  payload = codes "{}";
  traceparent = some (codes "00-4bf92f3577b34da6a3ce929d0e0e4736-00f067aa0ba902b7-01");
  tracestate = some (codes "playground=commerce");
  baggage = some (codes "tenant.id=acme");
  status = queued;
  attempts = 0;
  available_at = 5;
  published_at = none;
  created_at = 5;
  failure_code = none;
  failure_message = none;
  failed_at = none;
  claim_token = none;
  claim_expires_at = none;
}

abbrev pub outbox : List OutboxEvent
outbox = event ∷ []

abbrev pub unlocked : Text → Bool
unlocked id = false

abbrev pub deliver : OutboxEvent → ApiResult (Unit {0})
deliver e = ok tt

abbrev pub turn : Turn
turn = record { locked = unlocked; now = 6; later = 7; token = codes "t1"; send = deliver }

abbrev pub exchange : Exchange
exchange = record {
  parse = λ t. ok tt;
  channel = ok tt;
  encode = λ e. ok tt;
  publication = λ e. confirmed ack;
}
