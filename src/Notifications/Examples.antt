-- ===== src/Notifications/Examples.antt =====
-- Tests of the notifications service: its theorems at sample queues.
use parallax_telemetry_playg.Prelude.{text_eq, join, tails}
use parallax_telemetry_playg.Propagation.Bytes.{is_lower_hex, all_zero_hex}
use parallax_telemetry_playg.Propagation.Traceparent.{validate_traceparent_header}
use parallax_telemetry_playg.Propagation.Tracestate.{validate_tracestate_header}
use parallax_telemetry_playg.Propagation.Baggage.{validate_baggage_header}
use parallax_telemetry_playg.Propagation.Durable.{validate_durable_context}
use parallax_telemetry_playg.Notifications.Carriers.{
  carrier_of, verdict, header_value, header_values,
}
use parallax_telemetry_playg.Notifications.Stored.{carrier_of-verdict}
use parallax_telemetry_playg.Notifications.Samples.{
  map_api, map_build, map_laws, request_headers, request_carrier,
}
use parallax_telemetry_playg.Prelude.{
  codes, drop_spaces, false, is_empty, ok, refl, some, text_Eq, text_eq, text_le, trim, true, ℕ,
  ◌≡◌, ◌≤◌,
}
use parallax_telemetry_playg.Notifications.Schema.{Db}
use parallax_telemetry_playg.Notifications.Advance.{Advance}
use parallax_telemetry_playg.Notifications.Worker.{process_job}
use parallax_telemetry_playg.Notifications.System.{
  Reach, here, next, notified, claimed, processed, reach-Advance,
}
use parallax_telemetry_playg.Table.{find}
use parallax_telemetry_playg.Notifications.Schema.{delivery_id, event_of, scoped_eq, scoped_Eq}
use parallax_telemetry_playg.Notifications.Claim.{DeliveryJob, is_claimable, claim_next}
use parallax_telemetry_playg.Notifications.Claims.{Claimed, claim_next-Claimed}
use parallax_telemetry_playg.Notifications.Marks.{has_lease, backoff}
use parallax_telemetry_playg.Notifications.Retry.{backoff_lem}
use parallax_telemetry_playg.Notifications.Leases.{SameQueue, process_job-lost}
use parallax_telemetry_playg.Notifications.Enqueue.{
  is_channel, event_key_of, payload_of, notify_inner,
}
use parallax_telemetry_playg.Notifications.Repeat.{told, Refreshed, notify-repeats}
use parallax_telemetry_playg.Notifications.Samples.{
  due_row, due_queue, due_queue-Valid, leased_row, leased_queue, old_job, first_job, numbers, unset,
  no_headers, empty_queue, empty_queue-Valid, paid, accept_all, encode_all, all_well, none_locked,
  claimed_queue, first_job,
}

abbrev delivered_queue : Db ℕ
delivered_queue = process_job numbers accept_all encode_all unset all_well 7 first_job claimed_queue

-- A request, a claim, and the delivery.
abbrev story : Reach numbers empty_queue delivered_queue
story =
    next
      (next (next here (notified unset 5 (codes "n1") (codes "acme") paid (ok no_headers) refl))
        (claimed text_le none_locked 6 (codes "w1") refl))
      (processed accept_all encode_all unset all_well 7 first_job refl)

reach-Advance_example : Advance empty_queue delivered_queue
reach-Advance_example = reach-Advance numbers story empty_queue-Valid

due_found : find delivery_id (codes "n1") due_queue.deliveries ≡ some due_row
unfolding find text_eq
due_found = refl

due_now : is_claimable 6 due_row ≡ true
unfolding is_claimable
due_now = refl

claim_next-Claimed_example :
    (job : DeliveryJob ℕ) × (db' : Db ℕ) × (claim_next text_le none_locked 6 (codes "w1") due_queue
      ≡ (some job, db'))
    × Claimed none_locked 6 (codes "w1") due_queue db' job
claim_next-Claimed_example =
    claim_next-Claimed text_le none_locked 6 (codes "w1") due_queue (codes "n1") due_row
      due_queue-Valid due_found due_now refl

leased_found : find delivery_id first_job.id leased_queue.deliveries ≡ some leased_row
unfolding find text_eq
leased_found = refl

backoff_lem_example : (backoff 3 ≡ 4) × (1 ≤ backoff 2) × (backoff 2 ≤ 16)
backoff_lem_example = backoff_lem 2

lost_now : has_lease old_job leased_row ≡ false
unfolding has_lease text_eq
lost_now = refl

process_job-lost_example :
    SameQueue leased_queue
      (process_job numbers accept_all encode_all unset all_well 9 old_job leased_queue)
process_job-lost_example =
    process_job-lost old_job leased_row lost_now numbers accept_all encode_all unset all_well 9
      leased_queue leased_found

known_event :
    find event_of
      (record { tenant_id = codes "acme"; name = event_key_of numbers paid })
      due_queue.deliveries
    ≡ some due_row
unfolding find text_eq scoped_eq event_key_of trim drop_spaces
known_event = refl

ordered : is_empty (trim paid.order_id) ≡ false
unfolding trim drop_spaces
ordered = refl

in_app_known : is_channel paid.channel ≡ true
unfolding text_eq
in_app_known = refl

notify-repeats_example :
    (db' : Db ℕ) × (notify_inner numbers unset 9
        (codes "n2")
        (codes "acme")
        paid
        (ok no_headers)
        due_queue
      ≡ (told numbers unset paid (payload_of numbers paid) due_row, db'))
    × Refreshed 9 due_row due_queue db'
notify-repeats_example =
    notify-repeats numbers unset 9 (codes "n2") (codes "acme") paid no_headers due_queue due_row
      ordered in_app_known known_event refl refl

stored : carrier_of map_api request_headers ≡ ok request_carrier
unfolding carrier_of validate_traceparent_header validate_tracestate_header validate_baggage_header
    text_eq is_lower_hex all_zero_hex join tails header_value header_values validate_durable_context
stored = refl

carrier_of-verdict_example : verdict map_api map_build request_carrier ≡ ok tt
carrier_of-verdict_example =
    carrier_of-verdict map_api map_build map_laws request_headers request_carrier stored
