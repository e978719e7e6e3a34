-- ===== src/Notifications/Enqueue.antt =====
-- How a notification enters the queue: `record_delivery` of services/notifications/src/store.rs,
-- and `notify_inner` of api.rs from the point where the tenant is resolved.
use parallax_telemetry_playg.Prelude.{
  ℕ, Bool, not, ◌&&◌, ◌||◌, Option, none, some, ◌∷◌, ◌++◌, Text, codes, String, text_eq, text_Eq,
  trim, is_empty, any, Result, ok, err, if◌then◌else◌,
}
use parallax_telemetry_playg.Table.{find, alter}
use parallax_telemetry_playg.Notifications.Schema.{
  scoped_eq, scoped_Eq, DeliveryStatus, Carrier, Delivery, Db, event_of, Json, Config,
}
use parallax_telemetry_playg.Notifications.Channel.{channel_provider}

pub record NotificationRequest (J : Type 0) : Type 0 where
  pub tenant_id : Option Text
  pub event_key : Text
  pub order_id : Text
  pub channel : Text
  pub payload : J

pub record DeliveryRecord : Type 0 where
  pub id : Text
  pub attempts : ℕ
  pub status : DeliveryStatus
  pub channel : Text
  pub provider : String

pub data StoreError : Type 0 where
  timeout conflict database : StoreError
  invalid : Text → StoreError

abbrev pub is_channel : Text → Bool
is_channel c =
    text_eq c (codes "email") || text_eq c (codes "webhook") || text_eq c (codes "in_app")

-- The status of the response, and its body: the record under its event key, or an error.
pub record NotifyResponse : Type 0 where
  pub status : ℕ
  pub body : Result Text (Text × DeliveryRecord)

abbrev pub notify_response : Text → Result StoreError DeliveryRecord → NotifyResponse
notify_response event_key (ok r) = record { status = 202; body = ok (event_key, r) }
notify_response event_key (err StoreError.timeout) = record {
  status = 503;
  body = err (codes "database_timeout");
}
notify_response event_key (err (StoreError.invalid e)) = record { status = 400; body = err e }
notify_response event_key (err StoreError.conflict) = record {
  status = 409;
  body = err (codes "notification_identity_conflict");
}
notify_response event_key (err StoreError.database) = record {
  status = 503;
  body = err (codes "notification_store_unavailable");
}

module _ {J : Type 0} where
  unfoldable pub new_delivery :
      ℕ → Text → Text → Text → NotificationRequest J → J → Carrier → Delivery J
  new_delivery now id tenant_id event_key request payload carrier = record {
    id = id;
    tenant_id = tenant_id;
    event_key = event_key;
    order_id = request.order_id;
    channel = request.channel;
    status = DeliveryStatus.queued;
    payload = payload;
    attempts = 0;
    delivered_at = none;
    created_at = now;
    next_attempt_at = now;
    lease_until = none;
    lease_token = none;
    last_error = none;
    dead_lettered_at = none;
    acknowledged_at = none;
    updated_at = now;
    carrier = carrier;
  }

  unfoldable pub touch : ℕ → Delivery J → Delivery J
  touch now d = record d { updated_at = now }

module _ {J : Type 0} (json : Json J) where
  -- The constraints of the table: the channel, an object for a payload, an order that is there,
  -- and a primary key that is not.
  unfoldable pub can_insert : Db J → Delivery J → Bool
  can_insert db d =
      is_channel d.channel
      && json.is_object d.payload
      && any (scoped_eq (record { tenant_id = d.tenant_id; name = d.order_id })) db.orders
      && not (any (λ x. text_eq x.id d.id) db.deliveries)

  -- The row that the statement returns, against the request.
  unfoldable pub answer :
      Config → NotificationRequest J → J → Delivery J → Result StoreError DeliveryRecord
  answer config request payload row =
      if not (text_eq row.order_id request.order_id) || not (text_eq row.channel request.channel)
      then err StoreError.conflict
      else ok (record {
        id = row.id;
        attempts = row.attempts;
        status = row.status;
        channel = row.channel;
        provider = channel_provider json request.channel payload config;
      })

  -- `INSERT … ON CONFLICT (tenant_id, event_key) DO UPDATE SET updated_at … RETURNING …`.
  unfoldable pub upsert_delivery :
      ℕ → Delivery J → Db J → Option (Delivery J) → Result StoreError (Delivery J) × Db J
  upsert_delivery now d db (some row) = (
    ok (touch now row),
    record db { deliveries = alter event_of (event_of d) (touch now) db.deliveries },
  )
  upsert_delivery now d db none =
      if can_insert db d
      then (ok d, record db { deliveries = d ∷ db.deliveries })
      else (err StoreError.database, db)

  -- The statement has committed before its row is compared with the request.
  unfoldable pub answer_row :
      Config
      → NotificationRequest J
      → J
      → Result StoreError (Delivery J) × Db J
      → Result StoreError DeliveryRecord × Db J
  answer_row config request payload (ok row, db) = (answer config request payload row, db)
  answer_row config request payload (err e, db) = (err e, db)

  unfoldable pub insert_delivery :
      Config
      → ℕ
      → NotificationRequest J
      → J
      → Delivery J
      → Db J
      → Result StoreError DeliveryRecord × Db J
  unfolding upsert_delivery answer_row
  insert_delivery config now request payload d db =
      answer_row config request payload
        (upsert_delivery now d db (find event_of (event_of d) db.deliveries))

  unfoldable pub record_for :
      Config
      → ℕ
      → Text
      → NotificationRequest J
      → Text
      → J
      → Carrier
      → Option Text
      → Db J
      → Result StoreError DeliveryRecord × Db J
  record_for config now id request event_key payload carrier none db =
      (err (StoreError.invalid (codes "tenant identity is required")), db)
  record_for config now id request event_key payload carrier (some tenant_id) db =
      insert_delivery config now request payload
        (new_delivery now id tenant_id event_key request payload carrier) db

  -- `id` is the fresh identity; `context` is the verdict on the headers and what they carry.
  unfoldable pub record_delivery :
      Config
      → ℕ
      → Text
      → NotificationRequest J
      → Text
      → J
      → Result Text Carrier
      → Db J
      → Result StoreError DeliveryRecord × Db J
  record_delivery config now id request event_key payload (err e) db =
      (err (StoreError.invalid (codes "invalid W3C propagation: " ++ e)), db)
  record_delivery config now id request event_key payload (ok carrier) db =
      record_for config now id request event_key payload carrier request.tenant_id db

  unfoldable pub event_key_of : NotificationRequest J → Text
  event_key_of request =
      if is_empty (trim request.event_key)
      then codes "notification:" ++ request.order_id ++ codes ":" ++ request.channel
      else request.event_key

  unfoldable pub payload_of : NotificationRequest J → J
  payload_of request =
      if json.is_object request.payload then request.payload else json.of_value request.payload

  unfoldable pub notify_inner :
      Config
      → ℕ
      → Text
      → Text
      → NotificationRequest J
      → Result Text Carrier
      → Db J
      → NotifyResponse × Db J
  unfolding event_key_of payload_of
  notify_inner config now id tenant_id request0 context db =
      let request : NotificationRequest J = record request0 { tenant_id = some tenant_id } in
      let recorded =
        record_delivery config now id request (event_key_of request) (payload_of request) context
          db in
      if is_empty (trim request.order_id) || not (is_channel request.channel)
      then (record { status = 400; body = err (codes "invalid_notification") }, db)
      else (notify_response (event_key_of request) recorded.0, recorded.1)
