-- ===== src/Notifications/Advance.antt =====
-- The queue of services/notifications/src/store.rs under rows rewritten in place, claims and reclaims.
use parallax_telemetry_playg.Prelude.{
  ℕ, ◌≡◌, refl, inl, inr, Bool, true, Option, none, some, List, Text, Bool-cases, All, All-map,
  text_Eq,
}
use parallax_telemetry_playg.Table.{find, alter, All-alter, All-find, Distinct}
use parallax_telemetry_playg.Notifications.Schema.{scoped_Eq, Delivery, delivery_id, Attempt, Db}
use parallax_telemetry_playg.Notifications.Progress.{
  Pointwise, Pointwise-map, Pointwise-alter, Progress, Progress-refl, Progress-trans,
  Pointwise-find, Pointwise-Distinct,
}
use parallax_telemetry_playg.Notifications.Invariant.{
  Sane, lease-Sane, exhaust-Sane, lease-Progress, exhaust-Progress, candidate-inv,
}
use parallax_telemetry_playg.Notifications.Claim.{
  is_claimable, lease, claim_candidate, claim_next, is_exhausted, exhaust_if, reclaim_exhausted,
}

module _ {J : Type 0} where
  -- The identities of the deliveries are distinct, and each delivery is sane.
  pub record Valid (db : Db J) : Type 0 where
    pub distinct : Distinct delivery_id db.deliveries
    pub sane : All (Sane db.messages) db.deliveries

  -- The tables stay valid, and every delivery progresses.
  pub record Advance (db db' : Db J) : Type 0 where
    pub valid : Valid db'
    pub progress :
        (id : Text) (d : Delivery J)
        → find delivery_id id db.deliveries ≡ some d
        → (d' : Delivery J) × (find delivery_id id db'.deliveries ≡ some d') × Progress d d'

  pub Advance-refl : (db : Db J) → Valid db → Advance db db
  Advance-refl db v = record { valid = v; progress = λ id d row. (d, row, Progress-refl d) }

  pub Advance-trans : (a b c : Db J) → Advance a b → Advance b c → Advance a c
  Advance-trans a b c p q = record {
    valid = q.valid;
    progress = λ id d row.
        let there = p.progress id d row in
        let further = q.progress id there.0 there.1 in
        (further.0, further.1, Progress-trans d there.0 further.0 there.2 further.2);
  }

  -- Rows rewritten in place.
  pub Advance-rows :
      (db db' : Db J)
      → Valid db
      → Pointwise Progress db.deliveries db'.deliveries
      → All (Sane db'.messages) db'.deliveries
      → Advance db db'
  Advance-rows db db' v rows sane = record {
    valid = record { distinct = Pointwise-Distinct _ _ rows v.distinct; sane = sane };
    progress = λ id d row. Pointwise-find id _ _ rows row;
  }

  -- One row rewritten in place.
  pub Advance-alter :
      (k : Text) (f : Delivery J → Delivery J) (attempts : List Attempt) (db : Db J)
      → Valid db
      → ((d : Delivery J)
          → find delivery_id k db.deliveries ≡ some d
          → Sane db.messages d
          → Progress d (f d) × Sane db.messages (f d))
      → Advance db
          (record db { deliveries = alter delivery_id k f db.deliveries; attempts = attempts })
  Advance-alter k f attempts db v step =
      let sane_at = λ (d : Delivery J) (row : find delivery_id k db.deliveries ≡ some d).
        step d row (row_Sane k db v row) in
      Advance-rows db _ v
        (Pointwise-alter delivery_id Progress k f db.deliveries Progress-refl
          (λ d row. (sane_at d row).0))
        (All-alter delivery_id (Sane db.messages) k f db.deliveries v.sane
          (λ d row s. (sane_at d row).1))
    where
      row_Sane :
          (k : Text) (db : Db J) (v : Valid db) {d : Delivery J}
          → find delivery_id k db.deliveries ≡ some d
          → Sane db.messages d
      row_Sane k db v row = All-find delivery_id (Sane db.messages) k db.deliveries v.sane row

  pub reclaim-Advance : (now : ℕ) (db : Db J) → Valid db → Advance db (reclaim_exhausted now db)
  unfolding reclaim_exhausted
  reclaim-Advance now db v =
      Advance-rows db _ v
        (Pointwise-map Progress (exhaust_if now) (exhaust_if-Progress now) db.deliveries)
        (All-map (Sane db.messages) (exhaust_if now) (exhaust_if-Sane now) db.deliveries v.sane)
    where
      exhaust_if-Progress : (now : ℕ) (d : Delivery J) → Progress d (exhaust_if now d)
      exhaust_if-Progress now d = elim (Bool-cases (is_exhausted now d)) [
        | inl over ↦ rw over (exhaust-Progress d now over)
        | inr not_over ↦ rw not_over (Progress-refl d)
      ]

      exhaust_if-Sane :
          (now : ℕ) (d : Delivery J) → Sane db.messages d → Sane db.messages (exhaust_if now d)
      exhaust_if-Sane now d s = elim (Bool-cases (is_exhausted now d)) [
        | inl over ↦ rw over (exhaust-Sane db.messages d s now)
        | inr not_over ↦ rw not_over s
      ]

  claim_candidate-Advance :
      (now : ℕ) (token : Text) (db : Db J) (o : Option (Delivery J))
      → Valid db
      → ((d : Delivery J)
          → o ≡ some d
          → (find delivery_id d.id db.deliveries ≡ some d) × (is_claimable now d ≡ true))
      → Advance db (claim_candidate now token db o).1
  unfolding claim_candidate
  claim_candidate-Advance now token db none v own = Advance-refl db v
  claim_candidate-Advance now token db (some d) v own =
      Advance-alter d.id (lease now token) _ db v λ x row s.
        let mine = own d refl in
        let there = mine.0 in
        let claimable = mine.1 in
        let turn : is_claimable now x ≡ true = cc (there, row, claimable) in
        (lease-Progress x now token turn, lease-Sane db.messages x s now token turn)

  pub claim_next-Advance :
      (collate : Text → Text → Bool) (locked : Text → Bool) (now : ℕ) (token : Text) (db : Db J)
      → Valid db
      → Advance db (claim_next collate locked now token db).1
  unfolding claim_next
  claim_next-Advance collate locked now token db v = claim_candidate-Advance now token db _ v λ d e.
      let picked = candidate-inv collate locked now db.deliveries v.distinct e in
      (picked.0, picked.1)
