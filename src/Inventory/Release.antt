-- ===== src/Inventory/Release.antt =====
-- `release` of services/inventory/src/infrastructure.rs.
use parallax_telemetry_playg.Prelude.{
  ℕ, Bool, false, not, ◌&&◌, Option, none, some, Text, text_eq, is_text, leb, ◌==◌, ok, err, ◌>>=◌,
  ◌>>◌, ensure, if◌then◌else◌,
}
use parallax_telemetry_playg.Inventory.Domain.{
  ReleaseBody, ReleaseOutcome, conflict, ledger_inconsistent, ConflictCode,
}
use parallax_telemetry_playg.Inventory.Schema.{
  cell_Eq, slot_Eq, Stock, available_quantity, HoldStatus, reserved, released, consumed, unknown,
  is_reserved, Reservation, cell_of, Db, Tx, find_joined, to_i32, drop_reserved,
}
use parallax_telemetry_playg.Inventory.Fence.{require_fence}
use parallax_telemetry_playg.Inventory.Statements.{update_both, update_reservation}
use parallax_telemetry_playg.Inventory.Reserve.{Claim, is_held_by}

-- `requested.is_some_and(|requested| requested != location_id)`.
abbrev pub other_location : Option Text → Text → Bool
other_location none location_id = false
other_location (some requested) location_id = not (text_eq requested location_id)

-- The identity checks that release and consume share: the row against the request.
unfoldable pub matches_request : Reservation → Text → ℕ → Option Text → Bool
matches_request r sku quantity location_id =
    text_eq r.sku sku
    && r.quantity == to_i32 quantity
    && not (other_location location_id r.location_id)

unfoldable pub rebind : Claim → Reservation → Reservation
rebind c r = record r { owner_lease_token = some c.lease_token; updated_at = c.now }

-- A held reservation passes to the token of the caller.
unfoldable pub rebind_token : Claim → Reservation → Db → Tx Reservation
unfolding rebind
rebind_token c r db =
    if is_reserved r.status && not (is_text r.owner_lease_token c.lease_token)
    then update_reservation c.slot (is_held_by c.request_id) (rebind c) db
    else ok (r, db)

unfoldable pub close : Claim → Reservation → Reservation
close c r = record r {
  status = released;
  released_at = some c.now;
  consumed_at = none;
  updated_at = c.now;
}

-- The updates that give the stock back.
unfoldable pub release_held : Claim → Reservation → Db → Tx (Option ReleaseOutcome)
unfolding close
release_held c r db = do
  (s, db') ←
      update_both (cell_of r) (λ s. leb r.quantity s.reserved_quantity)
        (drop_reserved c.now r.quantity) ledger_inconsistent c.slot (is_held_by c.request_id)
        (close c) db
  ok (
    some (record {
      location_id = r.location_id;
      released = r.quantity;
      reserved_remaining = s.reserved_quantity;
      available = available_quantity s;
      status = "released";
    }),
    db',
  )

-- The branches on the status that was read, after the token has been rebound.
unfoldable pub release_by_status :
    HoldStatus → Claim → Reservation → Stock → Db → Tx (Option ReleaseOutcome)
release_by_status released c r s db = ok (
  some (record {
    location_id = r.location_id;
    released = 0;
    reserved_remaining = s.reserved_quantity;
    available = available_quantity s;
    status = "already_released";
  }),
  db,
)
release_by_status consumed c r s db = err (conflict ConflictCode.reservation_consumed)
release_by_status reserved c r s db = release_held c r db
release_by_status (unknown t) c r s db = release_held c r db

unfoldable pub release_existing :
    Claim → ReleaseBody → Reservation → Stock → Db → Tx (Option ReleaseOutcome)
release_existing c body r s db = do
  ensure (matches_request r body.sku body.quantity body.location_id)
      (conflict ConflictCode.reservation_conflict)
  ensure (is_text r.owner_request_id c.request_id)
      (conflict ConflictCode.reservation_owner_conflict)
  (rebound, db') ← rebind_token c r db
  release_by_status r.status c r s db'

unfoldable pub release_claim : Claim → ReleaseBody → Db → Tx (Option ReleaseOutcome)
release_claim c body db = elim (find_joined c.slot db) [
  | none ↦ ok (none, db)
  | some (r, s) ↦ release_existing c body r s db
]

abbrev pub release_claim_of : ℕ → ReleaseBody → Text × Text → Claim
release_claim_of now body (request_id, lease_token) = record {
  now = now;
  slot = record { tenant_id = body.tenant_id; id = body.reservation_id };
  request_id = request_id;
  lease_token = lease_token;
}

unfoldable pub release : ℕ → ReleaseBody → Db → Tx (Option ReleaseOutcome)
release now body db = do
  fence ← require_fence now db body.tenant_id body.checkout_request_id body.checkout_lease_token
  release_claim (release_claim_of now body fence) body db
