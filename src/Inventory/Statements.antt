-- ===== src/Inventory/Statements.antt =====
-- The pairs of UPDATE statements that the operations of services/inventory/src/infrastructure.rs
-- share. `execute` and `query_opt` tell how many rows a statement reached; an operation fails if
-- there was none.
use parallax_telemetry_playg.Prelude.{Bool, ok, ◌>>=◌, ok_or}
use parallax_telemetry_playg.Table.{update}
use parallax_telemetry_playg.Inventory.Domain.{OperationError, reservation_changed}
use parallax_telemetry_playg.Inventory.Schema.{
  Cell, Slot, cell_Eq, slot_Eq, Stock, stock_cell, Reservation, slot_of, Db, Tx,
}

-- `UPDATE inventory SET f WHERE tenant_id, variant_id, location_id AND guard RETURNING *`.
unfoldable pub update_stock :
    Cell → (Stock → Bool) → (Stock → Stock) → OperationError → Db → Tx Stock
update_stock c guard f e db = do
  (s, stocks) ← ok_or (update stock_cell c guard f db.stocks) e
  ok (s, record db { stocks = stocks })

-- `UPDATE inventory_reservations SET g WHERE tenant_id, reservation_id AND guard`.
unfoldable pub update_reservation :
    Slot → (Reservation → Bool) → (Reservation → Reservation) → Db → Tx Reservation
update_reservation k guard g db = do
  (r, reservations) ← ok_or (update slot_of k guard g db.reservations) reservation_changed
  ok (r, record db { reservations = reservations })

-- The one and then the other; the row of stock is handed on.
unfoldable pub update_both :
    Cell
    → (Stock → Bool)
    → (Stock → Stock)
    → OperationError
    → Slot
    → (Reservation → Bool)
    → (Reservation → Reservation)
    → Db
    → Tx Stock
unfolding update_stock update_reservation
update_both c stock_guard f e k guard g db = do
  (s, db') ← update_stock c stock_guard f e db
  (r, db'') ← update_reservation k guard g db'
  ok (s, db'')
