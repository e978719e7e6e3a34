-- ===== src/Inventory/Schema.antt =====
-- The tables that the inventory service reads and writes, as services/inventory/src/infrastructure.rs
-- sees them (deploy/postgres/migrations/001, 002 and 011). Times count microseconds.
-- A transaction that fails is rolled back, so a failed operation returns no tables.
use parallax_telemetry_playg.Prelude.{
  ℕ, ◌+◌, ◌-◌, ◌≡◌, ◌↔◌, Bool, true, false, ◌&&◌, Option, none, some, List, Text, Eq, text_eq,
  text_eq_iff, leb, if◌then◌else◌, Result, arith,
}
use parallax_telemetry_playg.Table.{find}
use parallax_telemetry_playg.Inventory.Domain.{OperationError}

-- `inventory` has one row for each of these.
pub record Cell : Type 0 where
  pub tenant_id : Text
  pub variant_id : Text
  pub location_id : Text

-- The primary key of `inventory_reservations`, and of `checkout_attempts`.
pub record Slot : Type 0 where
  pub tenant_id : Text
  pub id : Text

unfoldable pub cell_eq : Cell → Cell → Bool
cell_eq a b =
    text_eq a.tenant_id b.tenant_id
    && text_eq a.variant_id b.variant_id
    && text_eq a.location_id b.location_id

unfoldable pub slot_eq : Slot → Slot → Bool
slot_eq a b = text_eq a.tenant_id b.tenant_id && text_eq a.id b.id

pub cell_eq_iff : (a b : Cell) → (cell_eq a b ≡ true) ↔ (a ≡ b)
unfolding cell_eq
cell_eq_iff a b = ground (
  arith,
  text_eq_iff a.tenant_id b.tenant_id,
  text_eq_iff a.variant_id b.variant_id,
  text_eq_iff a.location_id b.location_id,
)

pub slot_eq_iff : (a b : Slot) → (slot_eq a b ≡ true) ↔ (a ≡ b)
unfolding slot_eq
slot_eq_iff a b = ground (arith, text_eq_iff a.tenant_id b.tenant_id, text_eq_iff a.id b.id)

instance abbrev pub cell_Eq : Eq Cell
cell_Eq = record { beq = cell_eq; beq_iff = cell_eq_iff }

instance abbrev pub slot_Eq : Eq Slot
slot_Eq = record { beq = slot_eq; beq_iff = slot_eq_iff }

-- A row of `inventory`. The columns are `INTEGER`s, which its checks keep non-negative.
pub record Stock : Type 0 where
  pub id : Text
  pub tenant_id : Text
  pub variant_id : Text
  pub location_id : Text
  pub on_hand_quantity : ℕ
  pub reserved_quantity : ℕ
  pub updated_at : ℕ

abbrev pub stock_cell : Stock → Cell
stock_cell s = record {
  tenant_id = s.tenant_id;
  variant_id = s.variant_id;
  location_id = s.location_id;
}

-- The generated column `available_quantity`.
abbrev pub available_quantity : Stock → ℕ
available_quantity s = s.on_hand_quantity - s.reserved_quantity

pub data HoldStatus : Type 0 where
  reserved released consumed : HoldStatus
  unknown : Text → HoldStatus

-- `status = 'reserved'`, `status = 'released'`.
abbrev pub is_reserved : HoldStatus → Bool
is_reserved reserved = true
is_reserved _ = false

abbrev pub is_released : HoldStatus → Bool
is_released released = true
is_released _ = false

-- A row of `inventory_reservations`.
pub record Reservation : Type 0 where
  pub reservation_id : Text
  pub tenant_id : Text
  pub sku : Text
  pub variant_id : Text
  pub location_id : Text
  pub quantity : ℕ
  pub status : HoldStatus
  pub expires_at : ℕ
  pub released_at : Option ℕ
  pub consumed_at : Option ℕ
  pub owner_request_id : Option Text
  pub owner_lease_token : Option Text
  pub updated_at : ℕ

abbrev pub slot_of : Reservation → Slot
slot_of r = record { tenant_id = r.tenant_id; id = r.reservation_id }

abbrev pub cell_of : Reservation → Cell
cell_of r = record {
  tenant_id = r.tenant_id;
  variant_id = r.variant_id;
  location_id = r.location_id;
}

-- The columns of `product_variants` and `inventory_locations` that the service reads.
pub record Variant : Type 0 where
  pub id : Text
  pub tenant_id : Text
  pub sku : Text
  pub is_active : Bool

pub record Location : Type 0 where
  pub id : Text
  pub tenant_id : Text
  pub code : Text
  pub is_active : Bool

pub data AttemptStatus : Type 0 where
  started pending paid degraded failed : AttemptStatus

-- The columns of `checkout_attempts` that decide whether a checkout fence is current.
pub record Attempt : Type 0 where
  pub tenant_id : Text
  pub request_id : Text
  pub status : AttemptStatus
  pub lease_token : Text
  pub lease_expires_at : Option ℕ

abbrev pub attempt_slot : Attempt → Slot
attempt_slot a = record { tenant_id = a.tenant_id; id = a.request_id }

-- The columns of `checkout_payment_reconciliations` that it reads.
pub record Reconciliation : Type 0 where
  pub tenant_id : Text
  pub request_id : Text
  pub checkout_lease_token : Text
  pub is_processing : Bool
  pub lease_token : Option Text
  pub lease_expires_at : Option ℕ

pub record Db : Type 0 where
  pub stocks : List Stock
  pub reservations : List Reservation
  pub variants : List Variant
  pub locations : List Location
  pub attempts : List Attempt
  pub reconciliations : List Reconciliation

-- The result of an operation in its transaction.
abbrev pub Tx : Type 0 → Type 0
Tx A = Result OperationError (A × Db)

-- `SELECT … FROM inventory_reservations r JOIN inventory i … WHERE r.tenant_id = $1 AND
-- r.reservation_id = $2`.
unfoldable pub find_joined : Slot → Db → Option (Reservation × Stock)
find_joined k db = elim (find slot_of k db.reservations) [
  | none ↦ none
  | some r ↦ elim (find stock_cell (cell_of r) db.stocks) [ none ↦ none | some s ↦ some (r, s) ]
]

abbrev pub i32_max : ℕ
i32_max = 2_147_483_647

-- `i32::try_from(quantity).unwrap_or(i32::MAX)`.
unfoldable pub to_i32 : ℕ → ℕ
to_i32 quantity = if leb quantity i32_max then quantity else i32_max

-- `RESERVATION_HOLD`: fifteen minutes.
abbrev pub reservation_hold : ℕ
reservation_hold = 900_000_000

-- The stock updates, `SET reserved_quantity = reserved_quantity + $1` and its kin.
unfoldable pub add_reserved : ℕ → ℕ → Stock → Stock
add_reserved now q s = record s { reserved_quantity = s.reserved_quantity + q; updated_at = now }

unfoldable pub drop_reserved : ℕ → ℕ → Stock → Stock
drop_reserved now q s = record s { reserved_quantity = s.reserved_quantity - q; updated_at = now }

unfoldable pub ship : ℕ → ℕ → Stock → Stock
ship now q s = record s {
  on_hand_quantity = s.on_hand_quantity - q;
  reserved_quantity = s.reserved_quantity - q;
  updated_at = now;
}
