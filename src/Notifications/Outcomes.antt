-- ===== src/Notifications/Outcomes.antt =====
-- The queue of services/notifications/src/store.rs under the three marks of a job.
use parallax_telemetry_playg.Prelude.{
  ℕ, ◌≡◌, sym, subst, inl, inr, true, some, List, Text, Option-cases, arith, text_Eq, leb, ok,
  Ensures, Ensures-if,
}
use parallax_telemetry_playg.Table.{find, alter, update, update-inv, find-key}
use parallax_telemetry_playg.Notifications.Schema.{Delivery, delivery_id, Attempt, Db, max_attempts}
use parallax_telemetry_playg.Notifications.Progress.{Progress}
use parallax_telemetry_playg.Notifications.Invariant.{
  Sane, has_message, deliver-Sane, bury-Sane, requeue-Sane, deliver-Progress, bury-Progress,
  requeue-Progress,
}
use parallax_telemetry_playg.Notifications.Advance.{Valid, Advance, Advance-alter}
use parallax_telemetry_playg.Notifications.Claim.{DeliveryJob}
use parallax_telemetry_playg.Notifications.Marks.{
  has_lease, update_attempt, mark, mark_delivered, bury, mark_failed_or_dead_letter,
  dead_letter_invalid_propagation,
}

module _ {J : Type 0} where
  -- What a transaction under the lease of a job has done.
  mark-inv :
      (job : DeliveryJob J) (f : Delivery J → Delivery J) (g : Attempt → Attempt) (lost : Text)
      (db : Db J) {db' : Db J}
      → mark job f g lost db ≡ ok db'
      → (d : Delivery J) × (attempts : List Attempt) × (find delivery_id job.id db.deliveries
          ≡ some d)
        × (has_lease job d ≡ true)
        × (db' ≡ record db {
          deliveries = alter delivery_id job.id f db.deliveries;
          attempts = attempts;
        })
  unfolding mark
  mark-inv job f g lost db {db'} h =
      elim (Option-cases (update delivery_id job.id (has_lease job) f db.deliveries)) [
        | inl e ↦ absurd (ground (arith, e))
        | inr (p, e) ↦
            let row = update-inv delivery_id job.id (has_lease job) f db.deliveries e in
            (row.0, update_attempt job g db.attempts, row.1, row.2, ground (arith, e, row.4))
      ]

  mark-Advance :
      (job : DeliveryJob J) (f : Delivery J → Delivery J) (g : Attempt → Attempt) (lost : Text)
      (db : Db J)
      → Valid db
      → ((d : Delivery J)
          → has_lease job d ≡ true
          → find delivery_id job.id db.deliveries ≡ some d
          → Sane db.messages d
          → Progress d (f d) × Sane db.messages (f d))
      → Ensures (Advance db) (mark job f g lost db)
  mark-Advance job f g lost db v step = record {
    at = λ db' h.
        let done = mark-inv job f g lost db h in
        subst (Advance db) (cc (done.4)) (
          Advance-alter job.id f done.1 db v λ d row s.
            step d (subst (λ x. has_lease job x ≡ true) (cc (row, done.2)) done.3) row s);
  }

  pub delivered-Advance :
      (now : ℕ) (job : DeliveryJob J) (db : Db J)
      → Valid db
      → has_message db.messages job.id ≡ true
      → Ensures (Advance db) (mark_delivered now job db)
  unfolding mark_delivered
  delivered-Advance now job db v there = mark-Advance job _ _ _ db v λ d leased row s. (
    deliver-Progress job d leased now,
    deliver-Sane db.messages d s now (row_message d row there),
  )
    where
      row_message :
          (d : Delivery J)
          → find delivery_id job.id db.deliveries ≡ some d
          → has_message db.messages job.id ≡ true
          → has_message db.messages d.id ≡ true
      row_message d row there =
          subst (λ id. has_message db.messages id ≡ true)
            (sym (find-key delivery_id job.id db.deliveries row)) there

  bury-Advance :
      (now : ℕ) (error : Text) (g : Attempt → Attempt) (lost : Text) (job : DeliveryJob J)
      (db : Db J)
      → Valid db
      → Ensures (Advance db) (mark job (bury now error) g lost db)
  bury-Advance now error g lost job db v =
      mark-Advance job _ _ _ db v λ d leased row s.
        (bury-Progress job d leased now error, bury-Sane db.messages d s now error)

  pub failed-Advance :
      (now : ℕ) (job : DeliveryJob J) (error : Text) (db : Db J)
      → Valid db
      → Ensures (Advance db) (mark_failed_or_dead_letter now job error db)
  unfolding mark_failed_or_dead_letter
  failed-Advance now job error db v =
      Ensures-if (leb max_attempts job.attempt) _ _ (λ _. bury-Advance now _ _ _ job db v)
        (λ _. mark-Advance job _ _ _ db v λ d leased row s.
          (requeue-Progress job d leased now _ _, requeue-Sane db.messages d s now _ _))

  pub quarantined-Advance :
      (now : ℕ) (job : DeliveryJob J) (error : Text) (db : Db J)
      → Valid db
      → Ensures (Advance db) (dead_letter_invalid_propagation now job error db)
  unfolding dead_letter_invalid_propagation
  quarantined-Advance now job error db v = bury-Advance now _ _ _ job db v
