-- ===== src/Inventory/Reap.antt =====
-- `reap_expired_reservations` of services/inventory/src/infrastructure.rs.
use parallax_telemetry_playg.Prelude.{
  ℕ, ◌+◌, Bool, true, false, not, ◌&&◌, none, some, List, [], ◌∷◌, Text, text_eq, leb, ltb, ◌==◌,
  ok, ◌>>=◌, ◌>>◌, ensure, if◌then◌else◌, sort_by, take, keep,
}
use parallax_telemetry_playg.Inventory.Domain.{ledger_inconsistent, quantity_overflow}
use parallax_telemetry_playg.Inventory.Schema.{
  Slot, cell_Eq, slot_Eq, Stock, released, is_reserved, Reservation, slot_of, cell_of, Db, Tx,
  drop_reserved,
}
use parallax_telemetry_playg.Inventory.Statements.{update_both}
use parallax_telemetry_playg.Inventory.Consume.{u32_max}

abbrev pub reaper_batch_size : ℕ
reaper_batch_size = 100

-- `status='reserved' AND expires_at <= CURRENT_TIMESTAMP`.
abbrev pub is_expired : ℕ → Reservation → Bool
is_expired now r = is_reserved r.status && leb r.expires_at now

-- `ORDER BY expires_at, tenant_id, reservation_id`.
unfoldable pub by_expiry : (Text → Text → Bool) → Reservation → Reservation → Bool
by_expiry collate a b =
    if ltb a.expires_at b.expires_at
    then true
    else if not (a.expires_at == b.expires_at)
    then false
    else if text_eq a.tenant_id b.tenant_id
    then collate a.reservation_id b.reservation_id
    else collate a.tenant_id b.tenant_id

-- The rows of a batch: `FOR UPDATE SKIP LOCKED` passes over those that others have locked.
unfoldable pub batch :
    (Text → Text → Bool) → (Slot → Bool) → ℕ → List Reservation → List Reservation
unfolding by_expiry
batch collate locked now rs =
    take reaper_batch_size
      (sort_by (by_expiry collate) (keep (λ r. is_expired now r && not (locked (slot_of r))) rs))

unfoldable pub expire : ℕ → Reservation → Reservation
expire now r = record r {
  status = released;
  released_at = some now;
  consumed_at = none;
  updated_at = now;
}

-- One round of the loop: the stock, then the reservation.
unfoldable pub reap_one : ℕ → Reservation → Db → Tx Stock
unfolding expire
reap_one now r db =
    update_both (cell_of r) (λ s. leb r.quantity s.reserved_quantity) (drop_reserved now r.quantity)
      ledger_inconsistent (slot_of r) (is_expired now) (expire now) db

unfoldable pub reap_rows : ℕ → ℕ → List Reservation → Db → Tx ℕ
reap_rows now count [] db = ok (count, db)
reap_rows now count (r ∷ rs) db = do
  (reaped, db') ← reap_one now r db
  ensure (leb (count + 1) u32_max) quantity_overflow
  reap_rows now (count + 1) rs db'

unfoldable pub reap_expired_reservations : (Text → Text → Bool) → (Slot → Bool) → ℕ → Db → Tx ℕ
reap_expired_reservations collate locked now db =
    reap_rows now 0 (batch collate locked now db.reservations) db
