-- ===== src/Inventory/Reserve.antt =====
-- `reserve` of services/inventory/src/infrastructure.rs.
use parallax_telemetry_playg.Prelude.{
  ℕ, ◌+◌, min, Bool, not, ◌&&◌, ◌||◌, Option, none, some, List, [], ◌∷◌, Text, text_eq, is_text,
  ltb, leb, ◌==◌, any, ok, err, ◌>>=◌, ◌>>◌, ensure, ok_or, if◌then◌else◌, sort_by,
}
use parallax_telemetry_playg.Table.{find, update, insert}
use parallax_telemetry_playg.Inventory.Domain.{
  ReserveQuery, ReserveOutcome, conflict, fault_injection, stock_unavailable, unknown_status,
  constraint_violation, ConflictCode,
}
use parallax_telemetry_playg.Inventory.Schema.{
  Slot, cell_Eq, slot_Eq, Stock, stock_cell, available_quantity, HoldStatus, reserved, released,
  consumed, unknown, is_reserved, is_released, Reservation, slot_of, cell_of, Location, Db, Tx,
  find_joined, i32_max, to_i32, reservation_hold, add_reserved,
}
use parallax_telemetry_playg.Inventory.Statements.{update_both, update_reservation}
use parallax_telemetry_playg.Inventory.Fence.{require_fence}

-- What the scenario parameters ask for before the transaction, each with its bound.
pub record Scenario : Type 0 where
  pub hold_ms : ℕ
  pub sleep_ms : ℕ
  pub lookups : ℕ

unfoldable pub scenario : ReserveQuery → Scenario
scenario params = record {
  hold_ms = min params.hold_ms 10_000;
  sleep_ms = min params.slow 30_000;
  lookups = min params.db_n1 50;
}

-- The reservation that a checkout asks for: who asks, and under which fence.
pub record Claim : Type 0 where
  pub now : ℕ
  pub slot : Slot
  pub request_id : Text
  pub lease_token : Text

unfoldable pub reuse : Claim → Reservation → Reservation
reuse c r = record r {
  status = reserved;
  released_at = none;
  consumed_at = none;
  expires_at = c.now + reservation_hold;
  owner_request_id = some c.request_id;
  owner_lease_token = some c.lease_token;
  updated_at = c.now;
}

-- The arm `"released"`: take the stock again and reopen the reservation.
unfoldable pub reserve_released : Claim → Reservation → Db → Tx (Option ReserveOutcome)
unfolding reuse
reserve_released c r db = do
  (s, db') ←
      update_both (cell_of r) (λ s. leb r.quantity (available_quantity s))
        (add_reserved c.now r.quantity) stock_unavailable c.slot (λ x. is_released x.status)
        (reuse c) db
  ok (
    some (record {
      location_id = r.location_id;
      remaining = available_quantity s;
      status = "reserved";
    }),
    db',
  )

-- `status='reserved' AND owner_request_id=$n`.
abbrev pub is_held_by : Text → Reservation → Bool
is_held_by request_id r = is_reserved r.status && is_text r.owner_request_id request_id

unfoldable pub renew : Claim → Reservation → Reservation
renew c r = record r {
  owner_lease_token = some c.lease_token;
  expires_at = c.now + reservation_hold;
  updated_at = c.now;
}

-- The arm `"reserved"`: renew the hold if it has expired or another token holds it.
unfoldable pub reserve_reserved : Claim → Reservation → Stock → Db → Tx (Option ReserveOutcome)
unfolding renew
reserve_reserved c r s db =
    let outcome : ReserveOutcome = record {
      location_id = r.location_id;
      remaining = available_quantity s;
      status = "already_reserved";
    } in
    if leb r.expires_at c.now || not (is_text r.owner_lease_token c.lease_token)
    then (do
      (r', db') ← update_reservation c.slot (is_held_by c.request_id) (renew c) db
      ok (some outcome, db'))
    else ok (some outcome, db)

-- The `match` on the status of a reservation that is there.
unfoldable pub reserve_by_status :
    HoldStatus → Claim → Reservation → Stock → Db → Tx (Option ReserveOutcome)
reserve_by_status released c r s db = reserve_released c r db
reserve_by_status consumed c r s db =
    if is_text r.owner_request_id c.request_id
    then ok (
      some (record {
        location_id = r.location_id;
        remaining = available_quantity s;
        status = "already_consumed";
      }),
      db,
    )
    else err (conflict ConflictCode.reservation_owner_conflict)
reserve_by_status reserved c r s db = reserve_reserved c r s db
reserve_by_status (unknown t) c r s db = err (unknown_status t)

unfoldable pub reserve_existing :
    Claim → ReserveQuery → Reservation → Stock → Db → Tx (Option ReserveOutcome)
reserve_existing c params r s db = do
  ensure (text_eq r.sku params.sku && r.quantity == to_i32 params.quantity)
      (conflict ConflictCode.reservation_conflict)
  ensure (is_text r.owner_request_id c.request_id)
      (conflict ConflictCode.reservation_owner_conflict)
  reserve_by_status r.status c r s db

-- A quantity beyond `i32` is cast to a negative number, which every row has available.
abbrev pub threshold : ℕ → ℕ
threshold q = if leb q i32_max then q else 0

-- The WHERE clause of the candidate query, at the location that the row joins.
unfoldable pub is_candidate : Db → Text → Text → ℕ → Stock → Location → Bool
is_candidate db tenant_id sku q s l =
    text_eq s.tenant_id tenant_id
    && any
        (λ v.
          text_eq v.tenant_id s.tenant_id
          && text_eq v.id s.variant_id
          && text_eq v.sku sku
          && v.is_active)
        db.variants
    && l.is_active
    && leb (threshold q) (available_quantity s)

abbrev pub location_slot : Location → Slot
location_slot l = record { tenant_id = l.tenant_id; id = l.id }

-- A candidate goes with the code of its location, the inner join of the query.
unfoldable pub add_candidate :
    Db → Text → Text → ℕ → Stock → Option Location → List (Text × Stock) → List (Text × Stock)
unfolding is_candidate
add_candidate db tenant_id sku q s none others = others
add_candidate db tenant_id sku q s (some l) others =
    if is_candidate db tenant_id sku q s l then (l.code, s) ∷ others else others

unfoldable pub candidates : Db → Text → Text → ℕ → List Stock → List (Text × Stock)
unfolding add_candidate
candidates db tenant_id sku q [] = []
candidates db tenant_id sku q (s ∷ rest) =
    add_candidate db tenant_id sku q s
      (find location_slot (record { tenant_id = s.tenant_id; id = s.location_id }) db.locations)
      (candidates db tenant_id sku q rest)

-- `ORDER BY l.code, i.id` under the collation of the database.
unfoldable pub by_code : (Text → Text → Bool) → Text × Stock → Text × Stock → Bool
by_code collate (c, s) (d, t) = if text_eq c d then collate s.id t.id else collate c d

-- `LIMIT 1`.
abbrev pub first {ℓ} : {A : Type ℓ} → List A → Option A
first [] = none
first (x ∷ xs) = some x

unfoldable pub fresh : Claim → Text → ℕ → Stock → Reservation
fresh c sku q s = record {
  reservation_id = c.slot.id;
  tenant_id = c.slot.tenant_id;
  sku = sku;
  variant_id = s.variant_id;
  location_id = s.location_id;
  quantity = q;
  status = reserved;
  expires_at = c.now + reservation_hold;
  released_at = none;
  consumed_at = none;
  owner_request_id = some c.request_id;
  owner_lease_token = some c.lease_token;
  updated_at = c.now;
}

-- The new reservation over the stock that the candidate query has updated. The schema refuses a
-- quantity that is not a positive `INTEGER`, and a second row for the slot.
unfoldable pub open_reservation :
    Claim → ReserveQuery → Option (Stock × List Stock) → Db → Tx (Option ReserveOutcome)
unfolding fresh
open_reservation c params none db = ok (none, db)
open_reservation c params (some (s, stocks)) db = do
  ensure (ltb 0 params.quantity && leb params.quantity i32_max) constraint_violation
  reservations ←
      ok_or (insert slot_of (fresh c params.sku params.quantity s) db.reservations)
        constraint_violation
  ok (
    some (record {
      location_id = s.location_id;
      remaining = available_quantity s;
      status = "reserved";
    }),
    record db { stocks = stocks; reservations = reservations },
  )

-- `UPDATE inventory … FROM candidate`.
unfoldable pub reserve_candidate :
    Claim → ReserveQuery → Option (Text × Stock) → Db → Tx (Option ReserveOutcome)
reserve_candidate c params none db = ok (none, db)
reserve_candidate c params (some (code, s)) db =
    open_reservation c params
      (update stock_cell (stock_cell s)
        (λ x. leb (threshold params.quantity) (available_quantity x))
        (add_reserved c.now params.quantity) db.stocks)
      db

-- A new reservation: the first candidate gives the stock.
unfoldable pub reserve_fresh :
    (Text → Text → Bool) → Claim → ReserveQuery → Db → Tx (Option ReserveOutcome)
unfolding candidates by_code
reserve_fresh collate c params db =
    reserve_candidate c params
      (first (
        sort_by (by_code collate)
          (candidates db c.slot.tenant_id params.sku params.quantity db.stocks)))
      db

abbrev pub claim_of : ℕ → ReserveQuery → Text × Text → Claim
claim_of now params (request_id, lease_token) = record {
  now = now;
  slot = record { tenant_id = params.tenant_id; id = params.reservation_id };
  request_id = request_id;
  lease_token = lease_token;
}

unfoldable pub reserve_claim :
    (Text → Text → Bool) → Claim → ReserveQuery → Db → Tx (Option ReserveOutcome)
reserve_claim collate c params db = elim (find_joined c.slot db) [
  | none ↦ reserve_fresh collate c params db
  | some (r, s) ↦ reserve_existing c params r s db
]

unfoldable pub reserve : (Text → Text → Bool) → ℕ → ReserveQuery → Db → Tx (Option ReserveOutcome)
reserve collate now params db = do
  ensure (not params.fail) fault_injection
  fence ←
      require_fence now db params.tenant_id params.checkout_request_id params.checkout_lease_token
  reserve_claim collate (claim_of now params fence) params db
