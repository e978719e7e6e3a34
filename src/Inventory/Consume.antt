-- ===== src/Inventory/Consume.antt =====
-- `consume` of services/inventory/src/infrastructure.rs. The advisory locks that it takes first
-- have no effect on the tables.
use parallax_telemetry_playg.Prelude.{
  ℕ, ◌+◌, Bool, not, ◌&&◌, none, some, List, [], ◌∷◌, Text, text_le, is_text, leb, ◌==◌, ok, err,
  ◌>>=◌, ◌>>◌, ensure, if◌then◌else◌, sort_by,
}
use parallax_telemetry_playg.Inventory.Domain.{
  ConsumeReservation, ConsumeBody, ConsumeOutcome, conflict, stock_unavailable, ledger_inconsistent,
  unknown_status, quantity_overflow, ConflictCode,
}
use parallax_telemetry_playg.Inventory.Schema.{
  cell_Eq, slot_Eq, Stock, available_quantity, HoldStatus, reserved, released, consumed, unknown,
  is_released, Reservation, cell_of, Db, Tx, find_joined, reservation_hold, add_reserved, ship,
}
use parallax_telemetry_playg.Inventory.Fence.{require_fence}
use parallax_telemetry_playg.Inventory.Statements.{update_both, update_reservation}
use parallax_telemetry_playg.Inventory.Reserve.{Claim, renew, is_held_by}
use parallax_telemetry_playg.Inventory.Release.{matches_request, rebind}

unfoldable pub reopen : Claim → Reservation → Reservation
reopen c r = record r {
  status = reserved;
  released_at = none;
  consumed_at = none;
  expires_at = c.now + reservation_hold;
  owner_lease_token = some c.lease_token;
  updated_at = c.now;
}

-- The arm `"released"`: take the stock again for the same checkout request.
unfoldable pub recover : Claim → Reservation → Db → Tx Stock
unfolding reopen
recover c r db =
    update_both (cell_of r) (λ s. leb r.quantity (available_quantity s))
      (add_reserved c.now r.quantity) stock_unavailable c.slot
      (λ x. is_released x.status && is_text x.owner_request_id c.request_id) (reopen c) db

-- The arms `"reserved"`: renew an expired hold, or pass it to the token of the caller.
unfoldable pub refresh : Claim → Reservation → Db → Tx Reservation
unfolding renew rebind
refresh c r db =
    if leb r.expires_at c.now
    then update_reservation c.slot (is_held_by c.request_id) (renew c) db
    else if not (is_text r.owner_lease_token c.lease_token)
    then update_reservation c.slot (is_held_by c.request_id) (rebind c) db
    else ok (r, db)

unfoldable pub settle : Claim → Reservation → Reservation
settle c r = record r {
  status = consumed;
  released_at = none;
  consumed_at = some c.now;
  updated_at = c.now;
}

-- The two updates at the end of a round, and what the round adds to the total.
unfoldable pub take_out : Claim → Reservation → Db → Tx ℕ
unfolding settle
take_out c r db = do
  (s, db') ←
      update_both (cell_of r)
        (λ s. leb r.quantity s.on_hand_quantity && leb r.quantity s.reserved_quantity)
        (ship c.now r.quantity) ledger_inconsistent c.slot (is_held_by c.request_id) (settle c) db
  ok (r.quantity, db')

-- The `match` on the status, up to `continue`, and the updates after it.
unfoldable pub consume_by_status : HoldStatus → Claim → Reservation → Db → Tx ℕ
consume_by_status consumed c r db =
    if is_text r.owner_request_id c.request_id
    then ok (0, db)
    else err (conflict ConflictCode.reservation_owner_conflict)
consume_by_status released c r db = do (recovered, db') ← recover c r db; take_out c r db'
consume_by_status reserved c r db = do (refreshed, db') ← refresh c r db; take_out c r db'
consume_by_status (unknown t) c r db = err (unknown_status t)

abbrev pub item_claim : ℕ → Text → Text × Text → ConsumeReservation → Claim
item_claim now tenant_id (request_id, lease_token) item = record {
  now = now;
  slot = record { tenant_id = tenant_id; id = item.reservation_id };
  request_id = request_id;
  lease_token = lease_token;
}

unfoldable pub consume_existing : Claim → ConsumeReservation → Reservation → Db → Tx ℕ
consume_existing c item r db = do
  ensure (matches_request r item.sku item.quantity item.location_id)
      (conflict ConflictCode.reservation_conflict)
  ensure (is_text r.owner_request_id c.request_id)
      (conflict ConflictCode.reservation_owner_conflict)
  consume_by_status r.status c r db

-- One round of the loop.
unfoldable pub consume_item : Claim → ConsumeReservation → Db → Tx ℕ
consume_item c item db = elim (find_joined c.slot db) [
  | none ↦ err (conflict ConflictCode.reservation_not_found)
  | some (r, s) ↦ consume_existing c item r db
]

abbrev pub u32_max : ℕ
u32_max = 4_294_967_295

-- The loop, with the running total; `checked_add` refuses to pass `u32::MAX`.
unfoldable pub consume_items : ℕ → Text → Text × Text → ℕ → List ConsumeReservation → Db → Tx ℕ
consume_items now tenant_id fence total [] db = ok (total, db)
consume_items now tenant_id fence total (item ∷ items) db = do
  (quantity, db') ← consume_item (item_claim now tenant_id fence item) item db
  ensure (leb (total + quantity) u32_max) quantity_overflow
  consume_items now tenant_id fence (total + quantity) items db'

abbrev pub by_id : ConsumeReservation → ConsumeReservation → Bool
by_id left right = text_le left.reservation_id right.reservation_id

abbrev pub consume_outcome : ℕ → ConsumeOutcome
consume_outcome total = record {
  consumed = total;
  status = if total == 0 then "already_consumed" else "consumed";
}

unfoldable pub consume : ℕ → ConsumeBody → Db → Tx ConsumeOutcome
consume now body db = do
  fence ← require_fence now db body.tenant_id body.checkout_request_id body.checkout_lease_token
  (total, db') ← consume_items now body.tenant_id fence 0 (sort_by by_id body.reservations) db
  ok (consume_outcome total, db')
