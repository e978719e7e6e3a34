-- ===== src/Notifications/Schema.antt =====
-- The tables of the notifications service, as services/notifications/src/store.rs sees them
-- (deploy/postgres/migrations/001 and 013). Times count microseconds. A JSON value is of a type
-- `J`, since serde_json is another library.
use parallax_telemetry_playg.Prelude.{
  ℕ, ◌≡◌, ◌↔◌, Bool, true, false, ◌&&◌, Option, List, Text, Eq, text_eq, text_eq_iff, ◌==◌, ==_iff,
  arith,
}

-- A key of two texts: (tenant_id, event_key), or (tenant_id, order_id).
pub record Scoped : Type 0 where
  pub tenant_id : Text
  pub name : Text

-- The key (delivery_id, attempt) of `notification_delivery_attempts`.
pub record AttemptKey : Type 0 where
  pub delivery_id : Text
  pub attempt : ℕ

unfoldable pub scoped_eq : Scoped → Scoped → Bool
scoped_eq a b = text_eq a.tenant_id b.tenant_id && text_eq a.name b.name

unfoldable pub attempt_key_eq : AttemptKey → AttemptKey → Bool
attempt_key_eq a b = text_eq a.delivery_id b.delivery_id && a.attempt == b.attempt

pub scoped_eq_iff : (a b : Scoped) → (scoped_eq a b ≡ true) ↔ (a ≡ b)
unfolding scoped_eq
scoped_eq_iff a b = ground (arith, text_eq_iff a.tenant_id b.tenant_id, text_eq_iff a.name b.name)

pub attempt_key_eq_iff : (a b : AttemptKey) → (attempt_key_eq a b ≡ true) ↔ (a ≡ b)
unfolding attempt_key_eq
attempt_key_eq_iff a b =
    ground (arith, text_eq_iff a.delivery_id b.delivery_id, ==_iff a.attempt b.attempt)

instance abbrev pub scoped_Eq : Eq Scoped
scoped_Eq = record { beq = scoped_eq; beq_iff = scoped_eq_iff }

instance abbrev pub attempt_key_Eq : Eq AttemptKey
attempt_key_Eq = record { beq = attempt_key_eq; beq_iff = attempt_key_eq_iff }

-- The statuses that the constraint of the column allows.
pub data DeliveryStatus : Type 0 where
  accepted queued processing delivered failed dead_lettered : DeliveryStatus

abbrev pub is_waiting : DeliveryStatus → Bool
is_waiting accepted = true
is_waiting queued = true
is_waiting _ = false

abbrev pub is_processing : DeliveryStatus → Bool
is_processing processing = true
is_processing _ = false

-- The W3C headers that a delivery keeps.
pub record Carrier : Type 0 where
  pub traceparent : Option Text
  pub tracestate : Option Text
  pub baggage : Option Text

-- A row of `notification_deliveries`.
pub record Delivery (J : Type 0) : Type 0 where
  pub id : Text
  pub tenant_id : Text
  pub event_key : Text
  pub order_id : Text
  pub channel : Text
  pub status : DeliveryStatus
  pub payload : J
  pub attempts : ℕ
  pub delivered_at : Option ℕ
  pub created_at : ℕ
  pub next_attempt_at : ℕ
  pub lease_until : Option ℕ
  pub lease_token : Option Text
  pub last_error : Option Text
  pub dead_lettered_at : Option ℕ
  pub acknowledged_at : Option ℕ
  pub updated_at : ℕ
  pub carrier : Carrier

pub data Outcome : Type 0 where
  processing delivered retry dead_lettered : Outcome

-- A row of `notification_delivery_attempts`.
pub record Attempt : Type 0 where
  pub delivery_id : Text
  pub tenant_id : Text
  pub attempt : ℕ
  pub outcome : Outcome
  pub error : Option Text
  pub started_at : ℕ
  pub completed_at : Option ℕ

-- A row of `notification_channel_messages`.
pub record Message (J : Type 0) : Type 0 where
  pub delivery_id : Text
  pub tenant_id : Text
  pub order_id : Text
  pub channel : Text
  pub payload : J
  pub acknowledged_at : ℕ
  pub acknowledgement_reference : Text

-- The tables, with the keys of the rows of `orders`, which a delivery refers to.
pub record Db (J : Type 0) : Type 0 where
  pub deliveries : List (Delivery J)
  pub attempts : List Attempt
  pub messages : List (Message J)
  pub orders : List Scoped

module _ {J : Type 0} where
  abbrev pub delivery_id : Delivery J → Text
  delivery_id d = d.id

  abbrev pub event_of : Delivery J → Scoped
  event_of d = record { tenant_id = d.tenant_id; name = d.event_key }

  abbrev pub message_id : Message J → Text
  message_id m = m.delivery_id

abbrev pub attempt_key : Attempt → AttemptKey
attempt_key a = record { delivery_id = a.delivery_id; attempt = a.attempt }

-- What serde_json does: `get`, `as_str`, `is_object`, and `json!({"value": v})`.
pub record Json (J : Type 0) : Type 0 where
  pub get : J → Text → Option J
  pub as_str : J → Option Text
  pub is_object : J → Bool
  pub of_value : J → J

-- The URLs of the environment, NOTIFICATIONS_WEBHOOK_URL and NOTIFICATIONS_EMAIL_URL.
pub record Config : Type 0 where
  pub webhook_url : Option Text
  pub email_url : Option Text

-- `MAX_ATTEMPTS`, `MAX_ERROR_LENGTH`, and the lease of a claim: 30 seconds.
abbrev pub max_attempts : ℕ
max_attempts = 4

abbrev pub max_error_length : ℕ
max_error_length = 512

abbrev pub lease_time : ℕ
lease_time = 30_000_000
