-- ===== src/Inventory/Domain.antt =====
-- Requests, outcomes and errors of the inventory service: services/inventory/src/domain.rs.
use parallax_telemetry_playg.Prelude.{ℕ, Bool, Option, List, String, Text}

abbrev pub max_identifier_length : ℕ
max_identifier_length = 128

abbrev pub max_reserve_quantity : ℕ
max_reserve_quantity = 1_000_000

abbrev pub max_release_quantity : ℕ
max_release_quantity = 1_000_000

abbrev pub max_consume_reservations : ℕ
max_consume_reservations = 50

pub record ReserveQuery : Type 0 where
  pub tenant_id : Text
  pub reservation_id : Text
  pub sku : Text
  pub quantity : ℕ  -- u32
  pub slow : ℕ  -- u64
  pub db_n1 : ℕ  -- u32
  pub hold_ms : ℕ  -- u64
  pub fail : Bool
  pub checkout_request_id : Option Text
  pub checkout_lease_token : Option Text

pub record ReserveBody : Type 0 where
  pub tenant_id : Text
  pub reservation_id : Text
  pub sku : Text
  pub quantity : ℕ  -- u32
  pub checkout_request_id : Option Text
  pub checkout_lease_token : Option Text

pub record ReleaseBody : Type 0 where
  pub tenant_id : Text
  pub reservation_id : Text
  pub sku : Text
  pub quantity : ℕ  -- u32
  pub location_id : Option Text
  pub checkout_request_id : Option Text
  pub checkout_lease_token : Option Text

pub record ConsumeReservation : Type 0 where
  pub reservation_id : Text
  pub sku : Text
  pub quantity : ℕ  -- u32
  pub location_id : Option Text

pub record ConsumeBody : Type 0 where
  pub tenant_id : Text
  pub checkout_request_id : Option Text
  pub checkout_lease_token : Option Text
  pub reservations : List ConsumeReservation

pub record ValidationError : Type 0 where
  pub field : String
  pub reason : String

-- `ReservationConflict::code`; the message is determined by the place that raises it.
pub data ConflictCode : Type 0 where
  checkout_lease_lost reservation_conflict reservation_owner_conflict : ConflictCode
  reservation_not_found reservation_consumed : ConflictCode

-- `anyhow::Error` of an operation: a downcastable conflict, or one of the `anyhow!` messages.
pub data OperationError : Type 0 where
  conflict : ConflictCode → OperationError
  fault_injection : OperationError
  stock_unavailable : OperationError
  reservation_changed : OperationError
  ledger_inconsistent : OperationError
  unknown_status : Text → OperationError
  quantity_overflow : OperationError
  -- A constraint of the schema refuses a row.
  constraint_violation : OperationError

pub record ReserveOutcome : Type 0 where
  pub location_id : Text
  pub remaining : ℕ  -- i32
  pub status : String

pub record ReleaseOutcome : Type 0 where
  pub location_id : Text
  pub released : ℕ  -- i32
  pub reserved_remaining : ℕ  -- i32
  pub available : ℕ  -- i32
  pub status : String

pub record ConsumeOutcome : Type 0 where
  pub consumed : ℕ  -- u32
  pub status : String
