-- ===== src/Notifications/Marks.antt =====
-- How a delivery ends or is put back: `mark_delivered`, `mark_failed_or_dead_letter`,
-- `dead_letter_invalid_propagation`, `backoff` and `truncate_error` of
-- services/notifications/src/store.rs.
use parallax_telemetry_playg.Prelude.{
  ℕ, ◌+◌, ◌*◌, ◌-◌, ◌^◌, min, Bool, ◌&&◌, none, some, List, ◌++◌, Text, codes, text_eq, text_Eq,
  is_text, leb, take_chars, Result, ok, ◌>>=◌, ok_or, if◌then◌else◌,
}
use parallax_telemetry_playg.Table.{update, alter}
use parallax_telemetry_playg.Notifications.Schema.{
  attempt_key_Eq, DeliveryStatus, is_processing, Delivery, Outcome, Attempt, Db, delivery_id,
  attempt_key, max_attempts, max_error_length,
}
use parallax_telemetry_playg.Notifications.Claim.{DeliveryJob}

abbrev i32_max : ℕ
i32_max = 2_147_483_647

-- `2_i32.saturating_pow(attempt.saturating_sub(1).clamp(0, 4)).min(30)`.
unfoldable pub backoff : ℕ → ℕ
backoff attempt = min (min (2 ^ min (attempt - 1) 4) i32_max) 30

unfoldable pub truncate_error : Text → Text
unfolding take_chars
truncate_error error = take_chars max_error_length error

abbrev pub end_with : ℕ → Outcome → Text → Attempt → Attempt
end_with now outcome error a = record a {
  outcome = outcome;
  error = some error;
  completed_at = some now;
}

module _ {J : Type 0} where
  -- `WHERE id = $1 AND tenant_id = $2 AND status = 'processing' AND lease_token = $3`.
  unfoldable pub has_lease : DeliveryJob J → Delivery J → Bool
  has_lease job d =
      text_eq d.tenant_id job.tenant_id
      && is_processing d.status
      && is_text d.lease_token job.lease_token

  -- The UPDATE of the attempt, which need not find one.
  unfoldable pub update_attempt : DeliveryJob J → (Attempt → Attempt) → List Attempt → List Attempt
  update_attempt job f rows =
      alter attempt_key (record { delivery_id = job.id; attempt = job.attempt })
        (λ a. if text_eq a.tenant_id job.tenant_id then f a else a) rows

  -- The transaction that the three share: the delivery under its lease, then the attempt.
  unfoldable pub mark :
      DeliveryJob J
      → (Delivery J → Delivery J)
      → (Attempt → Attempt)
      → Text
      → Db J
      → Result Text (Db J)
  unfolding has_lease update_attempt
  mark job f g lost db = do
    (d, deliveries) ← ok_or (update delivery_id job.id (has_lease job) f db.deliveries) lost
    ok (record db { deliveries = deliveries; attempts = update_attempt job g db.attempts })

  unfoldable pub deliver : ℕ → Delivery J → Delivery J
  deliver now d = record d {
    status = DeliveryStatus.delivered;
    delivered_at = some now;
    acknowledged_at = some now;
    lease_until = none;
    lease_token = none;
    last_error = none;
    updated_at = now;
  }

  unfoldable pub mark_delivered : ℕ → DeliveryJob J → Db J → Result Text (Db J)
  unfolding mark deliver
  mark_delivered now job db =
      mark job (deliver now)
        (λ a. record a { outcome = Outcome.delivered; completed_at = some now; error = none })
        (codes "notification delivery lease was lost before acknowledgement") db

  unfoldable pub bury : ℕ → Text → Delivery J → Delivery J
  bury now error d = record d {
    status = DeliveryStatus.dead_lettered;
    dead_lettered_at = some now;
    lease_until = none;
    lease_token = none;
    last_error = some error;
    updated_at = now;
  }

  unfoldable pub requeue : ℕ → ℕ → Text → Delivery J → Delivery J
  requeue now seconds error d = record d {
    status = DeliveryStatus.queued;
    next_attempt_at = now + seconds * 1_000_000;
    lease_until = none;
    lease_token = none;
    last_error = some error;
    updated_at = now;
  }

  unfoldable pub mark_failed_or_dead_letter : ℕ → DeliveryJob J → Text → Db J → Result Text (Db J)
  unfolding mark bury requeue truncate_error backoff
  mark_failed_or_dead_letter now job error db =
      let stored_error = truncate_error error in
      let lost = codes "notification delivery lease was lost before retry state update" in
      if leb max_attempts job.attempt
      then mark job (bury now stored_error) (end_with now Outcome.dead_lettered stored_error) lost
          db
      else mark job (requeue now (backoff job.attempt) stored_error)
          (end_with now Outcome.retry stored_error) lost db

  unfoldable pub dead_letter_invalid_propagation :
      ℕ → DeliveryJob J → Text → Db J → Result Text (Db J)
  unfolding mark bury truncate_error
  dead_letter_invalid_propagation now job error db =
      let stored_error = truncate_error (codes "invalid W3C propagation: " ++ error) in
      mark job (bury now stored_error) (end_with now Outcome.dead_lettered stored_error)
        (codes "notification delivery lease was lost before propagation quarantine") db
