-- ===== src/Notifications/Claims.antt =====
-- What `claim_next` of services/notifications/src/store.rs takes.
use parallax_telemetry_playg.Prelude.{
  ℕ, ◌+◌, ◌≡◌, ◌≤◌, refl, Bool, true, false, not, ◌&&◌, some, List, [], ◌∷◌, Text, text_eq_refl,
  text_Eq, arith, keep, is_empty, sort_by-is_empty,
}
use parallax_telemetry_playg.Table.{find, find-keep, find-alter_self}
use parallax_telemetry_playg.Notifications.Schema.{Delivery, delivery_id, Db, max_attempts}
use parallax_telemetry_playg.Notifications.Invariant.{candidate-inv}
use parallax_telemetry_playg.Notifications.Advance.{Valid}
use parallax_telemetry_playg.Notifications.Claim.{
  DeliveryJob, is_claimable, by_turn, candidate, first, lease, job_of, claim_candidate, claim_next,
}
use parallax_telemetry_playg.Notifications.Marks.{has_lease}

-- A claim: a delivery that was due or whose lease had run out, with attempts left, and that no
-- one else had locked, is leased to the new token, and the job carries its row.
pub record Claimed {J : Type 0} (locked : Text → Bool) (now : ℕ) (token : Text) (db db' : Db J)
    (job : DeliveryJob J) : Type 0 where
  pub taken : Delivery J
  pub row : find delivery_id job.id db.deliveries ≡ some taken
  pub due : is_claimable now taken ≡ true
  pub unlocked : locked job.id ≡ false
  pub leased_row : find delivery_id job.id db'.deliveries ≡ some (lease now token taken)
  pub carried : job ≡ job_of token (lease now token taken)
  pub holds : has_lease job (lease now token taken) ≡ true
  pub counted : job.attempt ≡ taken.attempts + 1
  pub within_budget : job.attempt ≤ max_attempts

module _ {J : Type 0} where
  lease-id : (now : ℕ) (token : Text) (d : Delivery J) → (lease now token d).id ≡ d.id
  unfolding lease
  lease-id now token d = refl

  claim_candidate-Claimed :
      (locked : Text → Bool) (now : ℕ) (token : Text) (db : Db J) (d : Delivery J)
      → find delivery_id d.id db.deliveries ≡ some d
      → is_claimable now d ≡ true
      → locked d.id ≡ false
      → (job : DeliveryJob J) × (db' : Db J) × (claim_candidate now token db (some d)
          ≡ (some job, db'))
        × Claimed locked now token db db' job
  unfolding claim_candidate job_of lease has_lease is_claimable
  claim_candidate-Claimed locked now token db d row due unlocked = (
    job_of token (lease now token d),
    _,
    refl,
    record {
      taken = d;
      row = row;
      due = due;
      unlocked = unlocked;
      leased_row =
          find-alter_self delivery_id d.id (lease now token) (lease-id now token) db.deliveries row;
      carried = refl;
      holds = rw (text_eq_refl d.tenant_id, text_eq_refl token) refl;
      counted = refl;
      within_budget = ground arith;
    },
  )

  first-some :
      (ds : List (Delivery J)) → is_empty ds ≡ false → (d : Delivery J) × (first ds ≡ some d)
  first-some [] h = absurd (cc)
  first-some (d ∷ ds) h = (d, refl)

  candidate-some :
      (collate : Text → Text → Bool) (locked : Text → Bool) (now : ℕ) (ds : List (Delivery J))
      (id : Text) (x : Delivery J)
      → find delivery_id id ds ≡ some x
      → is_claimable now x ≡ true
      → locked x.id ≡ false
      → (d : Delivery J) × (candidate collate locked now ds ≡ some d)
  unfolding candidate
  candidate-some collate locked now ds id x row due unlocked = first-some _ (
      rw
        (sort_by-is_empty (by_turn collate)
          (keep (λ d. is_claimable now d && not (locked d.id)) ds))
        (find-keep delivery_id id (λ d. is_claimable now d && not (locked d.id)) ds row
          (rw (due, unlocked) refl)))

  -- When some delivery of a valid queue may be claimed and is not locked, a claim succeeds: it
  -- takes a delivery that may be claimed and is not locked, leases it to the new token, and counts
  -- the attempt, which is the fourth at most.
  pub claim_next-Claimed :
      (collate : Text → Text → Bool) (locked : Text → Bool) (now : ℕ) (token : Text) (db : Db J)
      (id : Text) (x : Delivery J)
      → Valid db
      → find delivery_id id db.deliveries ≡ some x
      → is_claimable now x ≡ true
      → locked x.id ≡ false
      → (job : DeliveryJob J) × (db' : Db J) × (claim_next collate locked now token db
          ≡ (some job, db'))
        × Claimed locked now token db db' job
  unfolding claim_next
  claim_next-Claimed collate locked now token db id x v row due unlocked =
      let found = candidate-some collate locked now db.deliveries id x row due unlocked in
      let picked = candidate-inv collate locked now db.deliveries v.distinct found.1 in
      rw found.1 (claim_candidate-Claimed locked now token db found.0 picked.0 picked.1 picked.2)
