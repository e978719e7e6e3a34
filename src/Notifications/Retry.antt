-- ===== src/Notifications/Retry.antt =====
-- A failed attempt: `mark_failed_or_dead_letter` and `backoff` of
-- services/notifications/src/store.rs.
use parallax_telemetry_playg.Prelude.{
  ℕ, zero, suc, ◌+◌, ◌*◌, ◌-◌, ◌^◌, ◌≡◌, ◌≤◌, ◌<◌, ◌↔◌, min, refl, none, some, Text, codes, leb,
  text_Eq, count_chars, arith, if◌then◌else◌,
}
use parallax_telemetry_playg.Table.{find}
use parallax_telemetry_playg.Notifications.Schema.{
  DeliveryStatus, Delivery, delivery_id, Db, max_attempts, max_error_length,
}
use parallax_telemetry_playg.Notifications.Claim.{DeliveryJob}
use parallax_telemetry_playg.Notifications.Marks.{backoff, truncate_error, bury, requeue}

small_power :
    (k : ℕ) → k ≤ 4 → (min (min (2 ^ k) 2_147_483_647) 30 ≡ 2 ^ k) × (1 ≤ 2 ^ k) × (2 ^ k ≤ 16)
small_power zero h = (refl, omega arith, omega arith)
small_power (suc zero) h = (refl, omega arith, omega arith)
small_power (suc (suc zero)) h = (refl, omega arith, omega arith)
small_power (suc (suc (suc zero))) h = (refl, omega arith, omega arith)
small_power (suc (suc (suc (suc zero)))) h = (refl, omega arith, omega arith)
small_power (suc (suc (suc (suc (suc k))))) h = absurd (omega arith)

-- The delay before a retry, in seconds, is one after the first attempt, doubles with each further
-- attempt up to the fifth, and stays at sixteen then; the bounds of the source's arithmetic are
-- never reached.
pub backoff_lem :
    (attempt : ℕ)
    → (backoff (suc attempt) ≡ 2 ^ min attempt 4) × (1 ≤ backoff attempt) × (backoff attempt ≤ 16)
unfolding backoff
backoff_lem attempt =
    let next = small_power (min attempt 4) (omega arith) in
    let this = small_power (min (attempt - 1) 4) (omega arith) in
    let same : backoff attempt ≡ 2 ^ min (attempt - 1) 4 = this.0 in
    let before : suc attempt - 1 ≡ attempt = omega arith in
    (rw before next.0, rw same this.1, rw same this.2)

-- What is recorded of a failed attempt.
pub record Recorded {J : Type 0} (now : ℕ) (job : DeliveryJob J) (error : Text) (db' : Db J)
    (d' : Delivery J) : Type 0 where
  pub row : find delivery_id job.id db'.deliveries ≡ some d'
  pub unleased : d'.lease_token ≡ none
  pub kept : d'.last_error ≡ some (truncate_error error)
  pub cut : count_chars (truncate_error error) ≤ max_error_length
  pub ended : (d'.status ≡ DeliveryStatus.dead_lettered) ↔ (max_attempts ≤ job.attempt)
  pub again :
      job.attempt < max_attempts
      → (d'.status ≡ DeliveryStatus.queued)
        × (d'.next_attempt_at ≡ now + backoff job.attempt * 1_000_000)

abbrev lost_retry : Text
lost_retry = codes "notification delivery lease was lost before retry state update"

module _ {J : Type 0} (now : ℕ) (job : DeliveryJob J) (error : Text) (db : Db J)
    (d : Delivery J) where
  -- What the row of a failed attempt becomes.
  abbrev pub after_failure : Delivery J
  after_failure =
      if leb max_attempts job.attempt
      then bury now (truncate_error error) d
      else requeue now (backoff job.attempt) (truncate_error error) d
