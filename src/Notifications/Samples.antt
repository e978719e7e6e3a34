-- ===== src/Notifications/Samples.antt =====
-- Sample queues and requests for the tests of the notifications service. A JSON value is a number
-- here, and every number is an object without entries.
use parallax_telemetry_playg.Prelude.{
  if◌then◌else◌, text_eq, text_eq_refl, join, List, [], ◌∷◌, Text, codes, some, refl,
}
use parallax_telemetry_playg.Propagation.Headers.{HeaderApi}
use parallax_telemetry_playg.Notifications.Schema.{Carrier}
use parallax_telemetry_playg.Propagation.Headers.{HeaderBuild}
use parallax_telemetry_playg.Notifications.Stored.{BuildLaws}
use parallax_telemetry_playg.Prelude.{
  refl, Option, some, arith, ℕ, Bool, true, false, none, [], ◌∷◌, Text, codes, text_le, Result, ok,
  err,
}
use parallax_telemetry_playg.Notifications.Schema.{
  DeliveryStatus, queued, processing, Delivery, Json, Config, Carrier, Db,
}
use parallax_telemetry_playg.Notifications.Enqueue.{NotificationRequest, notify_inner}
use parallax_telemetry_playg.Notifications.Claim.{DeliveryJob, claim_next}
use parallax_telemetry_playg.Notifications.Worker.{Exchange}
use parallax_telemetry_playg.Notifications.Advance.{Valid}

abbrev pub numbers : Json ℕ
numbers = record {
  get = λ v key. none;
  as_str = λ v. none;
  is_object = λ v. true;
  of_value = λ v. v;
}

abbrev pub unset : Config
unset = record { webhook_url = none; email_url = none }

abbrev pub no_headers : Carrier
no_headers = record { traceparent = none; tracestate = none; baggage = none }

abbrev pub empty_queue : Db ℕ
empty_queue = record {
  deliveries = [];
  attempts = [];
  messages = [];
  orders = (record { tenant_id = codes "acme"; name = codes "o1" }) ∷ [];
}

pub empty_queue-Valid : Valid empty_queue
empty_queue-Valid = record { distinct = tt; sane = tt }

abbrev pub paid : NotificationRequest ℕ
paid = record {
  tenant_id = none;
  event_key = codes "o1:paid";
  order_id = codes "o1";
  channel = codes "in_app";
  payload = 0;
}

abbrev pub mailed : NotificationRequest ℕ
mailed = record paid { event_key = codes "o1:mail"; channel = codes "email" }

abbrev pub accept_all : Carrier → Result Text (Unit {0})
accept_all c = ok tt

abbrev pub encode_all : Text → Bool
encode_all t = true

abbrev pub all_well : Exchange
all_well = record {
  send = λ url. err (codes "no endpoint");
  takes_message = true;
  takes_mark = true;
}

abbrev pub none_locked : Text → Bool
none_locked id = false

abbrev pub queue : Db ℕ
queue =
    (notify_inner numbers unset 5 (codes "n1") (codes "acme") paid (ok no_headers) empty_queue).1

abbrev pub claimed_queue : Db ℕ
claimed_queue = (claim_next text_le none_locked 6 (codes "w1") queue).1

-- The job of the first claim.
abbrev pub first_job : DeliveryJob ℕ
first_job = record {
  id = codes "n1";
  tenant_id = codes "acme";
  event_key = codes "o1:paid";
  order_id = codes "o1";
  channel = codes "in_app";
  payload = 0;
  attempt = 1;
  lease_token = codes "w1";
  carrier = no_headers;
}

-- The row of that delivery, with a status, attempts and a lease.
abbrev pub row_at : DeliveryStatus → ℕ → Option ℕ → Option Text → Delivery ℕ
row_at status attempts lease_until lease_token = record {
  id = codes "n1";
  tenant_id = codes "acme";
  event_key = codes "o1:paid";
  order_id = codes "o1";
  channel = codes "in_app";
  status = status;
  payload = 0;
  attempts = attempts;
  delivered_at = none;
  created_at = 5;
  next_attempt_at = 5;
  lease_until = lease_until;
  lease_token = lease_token;
  last_error = none;
  dead_lettered_at = none;
  acknowledged_at = none;
  updated_at = 5;
  carrier = no_headers;
}

abbrev pub due_row : Delivery ℕ
due_row = row_at queued 0 none none

abbrev pub leased_row : Delivery ℕ
leased_row = row_at processing 1 (some 30_000_006) (some (codes "w1"))

abbrev pub due_queue : Db ℕ
due_queue = record empty_queue { deliveries = due_row ∷ [] }

abbrev pub leased_queue : Db ℕ
leased_queue = record empty_queue { deliveries = leased_row ∷ [] }

pub due_queue-Valid : Valid due_queue
due_queue-Valid = record {
  distinct = (tt, tt);
  sane = (
    record {
      bounded = omega arith;
      has_token = refl;
      has_until = refl;
      attempted = λ p. absurd (cc);
      sent = λ p. absurd (cc);
      acknowledged = λ p. absurd (cc);
    },
    tt,
  );
}

-- The job of a worker that has lost its lease.
abbrev pub old_job : DeliveryJob ℕ
old_job = record first_job { lease_token = codes "w0" }

-- A header map as a function from names to values.
abbrev pub HeaderMap : Type 0
HeaderMap = Text → List Text

abbrev pub map_api : HeaderApi HeaderMap Text
map_api = record { get_all = λ h name. h name; to_str = λ v. some v }

abbrev pub map_build : HeaderBuild HeaderMap Text
map_build = record {
  new = λ name. [];
  insert = λ h key value name. if text_eq key name then value ∷ [] else h name;
  try_from = λ t. some t;
}

pub map_laws : BuildLaws map_api map_build
map_laws = record {
  get_insert = λ h name v. rw (text_eq_refl name) refl;
  get_other = λ h name other v e. rw e refl;
  text_IsHeaderText = λ v t e. record { value = t; made = refl; read = refl };
  join_IsHeaderText = λ t ts h. record { value = join b',' (t ∷ ts); made = refl; read = refl };
}

-- The headers of a request with its baggage in two headers.
abbrev pub request_headers : HeaderMap
request_headers name =
    if text_eq name (codes "traceparent")
    then codes "00-4bf92f3577b34da6a3ce929d0e0e4736-00f067aa0ba902b7-01" ∷ []
    else if text_eq name (codes "tracestate")
    then codes "playground=commerce" ∷ []
    else if text_eq name (codes "baggage")
    then codes "tenant.id=acme" ∷ codes "region=eu" ∷ []
    else []

abbrev pub request_carrier : Carrier
request_carrier = record {
  traceparent = some (codes "00-4bf92f3577b34da6a3ce929d0e0e4736-00f067aa0ba902b7-01");
  tracestate = some (codes "playground=commerce");
  baggage = some (codes "tenant.id=acme,region=eu");
}
