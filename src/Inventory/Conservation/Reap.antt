-- ===== src/Inventory/Conservation/Reap.antt =====
-- The stock ledger under the reaper.
use parallax_telemetry_playg.Prelude.{
  ℕ, ◌+◌, ◌≡◌, refl, Bool, List, [], ◌∷◌, Text, leb, All, All-imp, All-take, All-keep, sort_by-All,
  ok, Ensures-ok, Ensures-bind, Ensures-ensure, arith,
}
use parallax_telemetry_playg.Table.{update-inv, Distinct, Distinct-find}
use parallax_telemetry_playg.Inventory.Schema.{
  Cell, Slot, slot_Eq, Stock, Reservation, slot_of, cell_of, Db,
}
use parallax_telemetry_playg.Inventory.Ledger.{Ledger}
use parallax_telemetry_playg.Inventory.Soundness.{
  Holding, Holding-update, Sound, update_both-Sound, update_both-inv,
}
use parallax_telemetry_playg.Inventory.Transitions.{
  expire-IsEdit, drop_reserved-cell, drop-Balances,
}
use parallax_telemetry_playg.Inventory.Consume.{u32_max}
use parallax_telemetry_playg.Inventory.Reap.{
  is_expired, by_expiry, batch, reaper_batch_size, expire, reap_one, reap_rows,
  reap_expired_reservations,
}
use parallax_telemetry_playg.Inventory.Conservation.Shared.{Conserves, Keeps}

-- Every row of the batch is still the reservation of its slot.
abbrev pub Pending : Db → List Reservation → Type 0
Pending db = All (λ r. Holding (slot_of r) r db)

reap_one-Pending :
    (now : ℕ) (r : Reservation) (db : Db) {s : Stock} {db' : Db} (rows : List Reservation)
    → reap_one now r db ≡ ok (s, db')
    → Pending db rows
    → Pending db' rows
unfolding reap_one
reap_one-Pending now r db {s} {db'} rows e =
    let (x, _, done, tables) =
      update_both-inv (cell_of r) _ _ _ (slot_of r) (is_expired now) (expire now) db e in
    let (_, _, _, _, rs_eq) =
      update-inv slot_of (slot_of r) (is_expired now) (expire now) db.reservations done in
    All-imp _ _
      (λ y h.
        rw (tables, rs_eq)
          (Holding-update (slot_of y) (slot_of r) y (expire now) (expire-IsEdit now) db db'.stocks
            h))
      rows

batch-All :
    (P : Reservation → Type 0) (collate : Text → Text → Bool) (locked : Slot → Bool) (now : ℕ)
    (rs : List Reservation)
    → All P rs
    → All P (batch collate locked now rs)
unfolding batch
batch-All P collate locked now rs h =
    All-take P reaper_batch_size _ (sort_by-All (by_expiry collate) P _ (All-keep P _ rs h))

Distinct-Pending : (db : Db) → Distinct slot_of db.reservations → Pending db db.reservations
Distinct-Pending db d =
    All-imp _ _ (λ r row. record { current = r; row = row; same_cell = refl; same_quantity = refl })
      db.reservations (Distinct-find slot_of db.reservations d)

module _ (base supply : Cell → ℕ) where
  reap_one-Sound :
      (now : ℕ) (r : Reservation) (db : Db)
      → Sound base supply (slot_of r) r db
      → Keeps base supply (slot_of r) r (reap_one now r db)
  unfolding reap_one expire
  reap_one-Sound now r db v =
      update_both-Sound base supply (slot_of r) r (expire now) (expire-IsEdit now) _ _ _ _ db v
        (drop_reserved-cell now r.quantity)
        λ x s amount enough fits expired.
          drop-Balances now r.quantity (expire now) (expire-IsEdit now) x s amount fits refl
            (ground arith) enough

  reap_rows-Conserves :
      (now count : ℕ) (rows : List Reservation) (db : Db)
      → Ledger base supply db
      → Pending db rows
      → Conserves base supply (reap_rows now count rows db)
  unfolding reap_rows
  reap_rows-Conserves now count [] db v pending = Ensures-ok _ v
  reap_rows-Conserves now count (r ∷ rows) db v pending =
      Ensures-bind (reap_one now r db) _ λ (s, db') e.
        Ensures-ensure (leb (count + 1) u32_max) _ _ λ _.
          reap_rows-Conserves now (count + 1) rows db'
            ((reap_one-Sound now r db (record { ledger = v; holding = pending.0 })).at (s, db')
              e).ledger
            (reap_one-Pending now r db rows e pending.1)

  -- A run of the reaper that succeeds leaves the stock ledger as it was, whichever rows are locked
  -- by others.
  pub reap-Conserves :
      (collate : Text → Text → Bool) (locked : Slot → Bool) (now : ℕ) (db : Db)
      → Ledger base supply db
      → Conserves base supply (reap_expired_reservations collate locked now db)
  unfolding reap_expired_reservations
  reap-Conserves collate locked now db v =
      reap_rows-Conserves now 0 _ db v
        (batch-All _ collate locked now db.reservations (Distinct-Pending db v.distinct))
