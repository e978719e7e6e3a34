-- ===== src/Notifications/System.antt =====
-- The notification queue in its surroundings: requests, the steps of workers, workers that stop
-- half-way, and jobs that are carried out after their lease has gone to another worker.
use parallax_telemetry_playg.Prelude.{ℕ, ◌≡◌, Bool, Text, text_Eq, Result}
use parallax_telemetry_playg.Notifications.Schema.{scoped_Eq, Db, Carrier, Json, Config}
use parallax_telemetry_playg.Notifications.Advance.{
  Valid, Advance, Advance-refl, Advance-trans, reclaim-Advance, claim_next-Advance,
}
use parallax_telemetry_playg.Notifications.Arrival.{notify-Advance}
use parallax_telemetry_playg.Notifications.Process.{process_job-Advance}
use parallax_telemetry_playg.Notifications.Enqueue.{NotificationRequest, notify_inner}
use parallax_telemetry_playg.Notifications.Claim.{DeliveryJob, claim_next, reclaim_exhausted}
use parallax_telemetry_playg.Notifications.Worker.{Exchange, process_job}

-- What happens to the queue. A worker that claims a delivery may never process it, or may process
-- it when another worker has claimed it again.
pub data Step {J : Type 0} (json : Json J) (db db' : Db J) : Type 0 where
  notified :
      (config : Config) (now : ℕ) (id tenant_id : Text) (request : NotificationRequest J)
      (headers : Result Text Carrier)
      → db' ≡ (notify_inner json config now id tenant_id request headers db).1
      → Step json db db'
  reclaimed : (now : ℕ) → db' ≡ reclaim_exhausted now db → Step json db db'
  claimed :
      (collate : Text → Text → Bool) (locked : Text → Bool) (now : ℕ) (token : Text)
      → db' ≡ (claim_next collate locked now token db).1
      → Step json db db'
  processed :
      (headers : Carrier → Result Text (Unit {0})) (encodes : Text → Bool) (config : Config)
      (x : Exchange) (now : ℕ) (job : DeliveryJob J)
      → db' ≡ process_job json headers encodes config x now job db
      → Step json db db'

pub data Reach {J : Type 0} (json : Json J) (db : Db J) : Db J → Type 0 where
  here : Reach json db db
  next : {db' db'' : Db J} → Reach json db db' → Step json db' db'' → Reach json db db''

module _ {J : Type 0} (json : Json J) where
  Step-Advance : {db db' : Db J} → Step json db db' → Valid db → Advance db db'
  Step-Advance {db} (notified config now id tenant_id request headers e) v =
      rw e (notify-Advance json config now id tenant_id request headers db v)
  Step-Advance {db} (reclaimed now e) v = rw e (reclaim-Advance now db v)
  Step-Advance {db} (claimed collate locked now token e) v =
      rw e (claim_next-Advance collate locked now token db v)
  Step-Advance {db} (processed headers encodes config x now job e) v =
      rw e (process_job-Advance json headers encodes config x now job db v)

  -- However requests, reclaims, claims and processed jobs interleave, with jobs abandoned or
  -- carried out after their lease was lost, from a valid queue the queue stays valid: the
  -- identities are distinct, no delivery is attempted more than four times, a delivery has a lease
  -- exactly while it is processing, and a delivered one has its message persisted. And every
  -- delivery that was there is still there with its tenant, event, order, channel and payload, has
  -- not fewer attempts, and, once delivered or dead-lettered, keeps that status and its attempts.
  pub reach-Advance : {db db' : Db J} → Reach json db db' → Valid db → Advance db db'
  reach-Advance {db} here v = Advance-refl db v
  reach-Advance {db} (next {db'} {db''} r s) v =
      let before = reach-Advance r v in
      Advance-trans db db' db'' before (Step-Advance s before.valid)
