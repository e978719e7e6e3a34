-- ===== src/Notifications/Repeat.antt =====
-- A notification sent again: `notify_inner` of services/notifications/src/api.rs.
use parallax_telemetry_playg.Prelude.{
  ℕ, ◌≡◌, refl, ap, true, false, some, Text, text_eq_iff, is_empty, trim, ok,
}
use parallax_telemetry_playg.Table.{find, alter}
use parallax_telemetry_playg.Table.Replaces.{Replaces, alter-Replaces}
use parallax_telemetry_playg.Notifications.Schema.{
  Scoped, scoped_Eq, Delivery, event_of, Db, Carrier, Json, Config,
}
use parallax_telemetry_playg.Notifications.Channel.{channel_provider}
use parallax_telemetry_playg.Notifications.Enqueue.{
  NotificationRequest, is_channel, new_delivery, touch, upsert_delivery, answer, answer_row,
  insert_delivery, record_for, record_delivery, NotifyResponse, notify_response, event_key_of,
  payload_of, notify_inner,
}

-- The tables after a notification that is there already.
touched : {J : Type 0} → ℕ → Scoped → Db J → Db J
touched now k db = record db { deliveries = alter event_of k (touch now) db.deliveries }

-- One row of the deliveries has another time of its last update; all else is as it was.
pub record Refreshed {J : Type 0} (now : ℕ) (row : Delivery J) (db db' : Db J) : Type 0 where
  pub deliveries : Replaces row (record row { updated_at = now }) db.deliveries db'.deliveries
  pub same_attempts : db'.attempts ≡ db.attempts
  pub same_messages : db'.messages ≡ db.messages
  pub same_orders : db'.orders ≡ db.orders

touched-Refreshed :
    {J : Type 0} (now : ℕ) (k : Scoped) (db : Db J) (row : Delivery J)
    → find event_of k db.deliveries ≡ some row
    → Refreshed now row db (touched now k db)
unfolding touched touch
touched-Refreshed now k db row there = record {
  deliveries = alter-Replaces event_of k (touch now) db.deliveries there;
  same_attempts = refl;
  same_messages = refl;
  same_orders = refl;
}

-- The answer to a notification whose row is there.
abbrev pub told :
    {J : Type 0} → Json J → Config → NotificationRequest J → J → Delivery J → NotifyResponse
told json config request payload row = record {
  status = 202;
  body = ok (
    event_key_of json request,
    record {
      id = row.id;
      attempts = row.attempts;
      status = row.status;
      channel = row.channel;
      provider = channel_provider json request.channel payload config;
    },
  );
}

module _ {J : Type 0} (json : Json J) (config : Config) (now : ℕ) (id tenant_id : Text)
    (request : NotificationRequest J) (carrier : Carrier) (db : Db J) (row : Delivery J) where
  insert_delivery-row :
      (asked : NotificationRequest J) (payload : J) (d : Delivery J)
      → find event_of (event_of d) db.deliveries ≡ some row
      → insert_delivery json config now asked payload d db
        ≡ (answer json config asked payload (touch now row), touched now (event_of d) db)
  unfolding touched insert_delivery upsert_delivery answer_row
  insert_delivery-row asked payload d there = rw there refl

  record_delivery-row :
      (k : Text) (payload : J)
      → find event_of (record { tenant_id = tenant_id; name = k }) db.deliveries ≡ some row
      → record_delivery json config now id
          (record request { tenant_id = some tenant_id })
          k
          payload
          (ok carrier)
          db
        ≡ (
          answer json config
              (record request { tenant_id = some tenant_id })
              payload
              (touch now row),
          touched now (record { tenant_id = tenant_id; name = k }) db,
        )
  unfolding record_delivery record_for new_delivery
  record_delivery-row k payload there =
      insert_delivery-row (record request { tenant_id = some tenant_id }) payload
        (new_delivery now id tenant_id k (record request { tenant_id = some tenant_id }) payload
          carrier)
        there

  answer-same :
      (payload : J)
      → row.order_id ≡ request.order_id
      → row.channel ≡ request.channel
      → notify_response (event_key_of json request) (
          answer json config
            (record request { tenant_id = some tenant_id })
            payload
            (touch now row))
        ≡ told json config request payload row
  unfolding answer touch
  answer-same payload same_order same_channel =
      rw
        (
          (text_eq_iff row.order_id request.order_id).1 same_order,
          (text_eq_iff row.channel request.channel).1 same_channel,
        )
        refl

  notify-touched :
      is_empty (trim request.order_id) ≡ false
      → is_channel request.channel ≡ true
      → find event_of
          (record { tenant_id = tenant_id; name = event_key_of json request })
          db.deliveries
        ≡ some row
      → row.order_id ≡ request.order_id
      → row.channel ≡ request.channel
      → notify_inner json config now id tenant_id request (ok carrier) db ≡ (
        told json config request (payload_of json request) row,
        touched now (record { tenant_id = tenant_id; name = event_key_of json request }) db,
      )
  unfolding notify_inner event_key_of payload_of
  notify-touched ordered known there same_order same_channel =
      let recorded =
        record_delivery-row (event_key_of json request) (payload_of json request) there in
      let said = answer-same (payload_of json request) same_order same_channel in
      rw (ordered, known)
        (rw recorded (
          ap
            (λ r. (
              r,
              touched now (record { tenant_id = tenant_id; name = event_key_of json request }) db,
            ))
            said))

  -- Sending a valid notification again, under the event key of a delivery that is there for the
  -- same order and channel, is accepted and answered with that delivery as it stands: no delivery
  -- is added, whatever the new identity, and only the time of the last update of that row changes.
  pub notify-repeats :
      is_empty (trim request.order_id) ≡ false
      → is_channel request.channel ≡ true
      → find event_of
          (record { tenant_id = tenant_id; name = event_key_of json request })
          db.deliveries
        ≡ some row
      → row.order_id ≡ request.order_id
      → row.channel ≡ request.channel
      → (db' : Db J) × (notify_inner json config now id tenant_id request (ok carrier) db
          ≡ (told json config request (payload_of json request) row, db'))
        × Refreshed now row db db'
  notify-repeats ordered known there same_order same_channel = (
    touched now (record { tenant_id = tenant_id; name = event_key_of json request }) db,
    notify-touched ordered known there same_order same_channel,
    touched-Refreshed now _ db row there,
  )
