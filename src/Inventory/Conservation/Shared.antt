-- ===== src/Inventory/Conservation/Shared.antt =====
-- The stock ledger under one operation: the parts that the operations share.
use parallax_telemetry_playg.Prelude.{ℕ, ◌≡◌, refl, some, Result, Ensures, arith}
use parallax_telemetry_playg.Table.{find}
use parallax_telemetry_playg.Inventory.Domain.{OperationError}
use parallax_telemetry_playg.Inventory.Schema.{
  Cell, Slot, cell_Eq, slot_Eq, Stock, stock_cell, Reservation, slot_of, cell_of, Db, find_joined,
}
use parallax_telemetry_playg.Inventory.Statements.{update_reservation}
use parallax_telemetry_playg.Inventory.Ledger.{Ledger}
use parallax_telemetry_playg.Inventory.Soundness.{Sound, update_reservation-Sound}
use parallax_telemetry_playg.Inventory.Transitions.{renew-IsEdit, rebind-IsEdit, touch-amounts}
use parallax_telemetry_playg.Inventory.Reserve.{Claim, renew, is_held_by}
use parallax_telemetry_playg.Inventory.Release.{rebind}

pub find_joined-inv :
    (k : Slot) (db : Db) {r : Reservation} {s : Stock}
    → find_joined k db ≡ some (r, s)
    → (find slot_of k db.reservations ≡ some r) × (find stock_cell (cell_of r) db.stocks ≡ some s)
unfolding find_joined
find_joined-inv k db h = ground arith

module _ (base supply : Cell → ℕ) where
  -- After a successful transaction the ledger holds.
  abbrev pub Conserves {ℓ} : {A : Type ℓ} → Result OperationError (A × Db) → Type ℓ
  Conserves = Ensures (λ p. Ledger base supply p.1)

  -- It holds, and the reservation that was read is still there.
  abbrev pub Keeps {ℓ} : Slot → Reservation → {A : Type ℓ} → Result OperationError (A × Db) → Type ℓ
  Keeps k r = Ensures (λ p. Sound base supply k r p.1)

  pub Sound-read :
      (k : Slot) (r : Reservation) (s : Stock) (db : Db)
      → Ledger base supply db
      → find_joined k db ≡ some (r, s)
      → Sound base supply k r db
  Sound-read k r s db v found = record {
    ledger = v;
    holding = record {
      current = r;
      row = (find_joined-inv k db found).0;
      same_cell = refl;
      same_quantity = refl;
    };
  }

  module _ (c : Claim) (r : Reservation) where
    pub renew-Sound :
        (db : Db)
        → Sound base supply c.slot r db
        → Keeps c.slot r (update_reservation c.slot (is_held_by c.request_id) (renew c) db)
    unfolding renew
    renew-Sound db v =
        update_reservation-Sound base supply c.slot r (renew c) (renew-IsEdit c) _ db v
          λ x held. touch-amounts (renew c) (renew-IsEdit c) x refl

    pub rebind-Sound :
        (db : Db)
        → Sound base supply c.slot r db
        → Keeps c.slot r (update_reservation c.slot (is_held_by c.request_id) (rebind c) db)
    unfolding rebind
    rebind-Sound db v =
        update_reservation-Sound base supply c.slot r (rebind c) (rebind-IsEdit c) _ db v
          λ x held. touch-amounts (rebind c) (rebind-IsEdit c) x refl
