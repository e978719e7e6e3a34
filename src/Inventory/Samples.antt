-- ===== src/Inventory/Samples.antt =====
-- Sample tables and requests for the tests of the inventory service.
use parallax_telemetry_playg.Prelude.{
  ℕ, true, false, none, some, [], ◌∷◌, Text, codes, if◌then◌else◌, arith,
}
use parallax_telemetry_playg.Table.{find}
use parallax_telemetry_playg.Inventory.Domain.{ReserveQuery, ReleaseBody, ConsumeBody}
use parallax_telemetry_playg.Inventory.Schema.{
  HoldStatus, consumed, reserved, Reservation, Slot, Cell, cell_eq, Stock, stock_cell,
  AttemptStatus, cell_Eq, slot_Eq, Db,
}
use parallax_telemetry_playg.Inventory.Ledger.{Ledger}

abbrev pub acme : Text
acme = codes "acme"

abbrev pub ssd : Text
ssd = codes "ssd"

abbrev pub hold_id : Text
hold_id = codes "r1"

abbrev pub checkout : Text
checkout = codes "c1"

abbrev pub token : Text
token = codes "t1"

abbrev pub shelf : Stock
shelf = record {
  id = codes "i1";
  tenant_id = acme;
  variant_id = codes "v1";
  location_id = codes "l1";
  on_hand_quantity = 10;
  reserved_quantity = 0;
  updated_at = 0;
}

-- Ten pieces on one shelf, and a checkout whose lease lasts.
abbrev pub shop : Db
shop = record {
  stocks = shelf ∷ [];
  reservations = [];
  variants = (record { id = codes "v1"; tenant_id = acme; sku = ssd; is_active = true }) ∷ [];
  locations =
      (record { id = codes "l1"; tenant_id = acme; code = codes "A"; is_active = true }) ∷ [];
  attempts =
      (record {
        tenant_id = acme;
        request_id = checkout;
        status = AttemptStatus.started;
        lease_token = token;
        lease_expires_at = some 5_000_000_000;
      })
      ∷ [];
  reconciliations = [];
}

abbrev pub no_base : Cell → ℕ
no_base c = 0

abbrev pub ten : Cell → ℕ
ten c = if cell_eq (stock_cell shelf) c then 10 else 0

pub shop-Ledger : Ledger no_base ten shop
unfolding find
shop-Ledger = record {
  distinct = tt;
  reserved_covers = λ c s h. ground arith;
  on_hand_covers = λ c s h. ground arith;
  within = λ c s h. ground arith;
}

abbrev pub wanted : ReserveQuery
wanted = record {
  tenant_id = acme;
  reservation_id = hold_id;
  sku = ssd;
  quantity = 3;
  slow = 0;
  db_n1 = 0;
  hold_ms = 0;
  fail = false;
  checkout_request_id = some checkout;
  checkout_lease_token = some token;
}

abbrev pub given_back : ReleaseBody
given_back = record {
  tenant_id = acme;
  reservation_id = hold_id;
  sku = ssd;
  quantity = 3;
  location_id = none;
  checkout_request_id = some checkout;
  checkout_lease_token = some token;
}

abbrev pub shipped : ConsumeBody
shipped = record {
  tenant_id = acme;
  checkout_request_id = some checkout;
  checkout_lease_token = some token;
  reservations =
      (record { reservation_id = hold_id; sku = ssd; quantity = 3; location_id = none }) ∷ [];
}

-- The row of a reservation of three pieces on the shelf.
abbrev pub hold_row : HoldStatus → Reservation
hold_row status = record {
  reservation_id = hold_id;
  tenant_id = acme;
  sku = ssd;
  variant_id = codes "v1";
  location_id = codes "l1";
  quantity = 3;
  status = status;
  expires_at = 900_000_007;
  released_at = none;
  consumed_at = none;
  owner_request_id = some checkout;
  owner_lease_token = some (codes "t0");
  updated_at = 7;
}

abbrev pub hold_slot : Slot
hold_slot = record { tenant_id = acme; id = hold_id }

-- The shop with that reservation, consumed, and held under an older token.
abbrev pub sold : Db
sold = record shop { reservations = hold_row consumed ∷ [] }

abbrev pub held : Db
held = record shop { reservations = hold_row reserved ∷ [] }

abbrev pub checkout_slot : Slot
checkout_slot = record { tenant_id = acme; id = checkout }
