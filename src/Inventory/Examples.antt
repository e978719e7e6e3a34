-- ===== src/Inventory/Examples.antt =====
-- Tests of the inventory service: runs on sample tables, and its theorems at them.
use parallax_telemetry_playg.Prelude.{
  ◌>>=◌, if◌then◌else◌, sort_by, codes, inl, [], ◌∷◌, Text, some, ◌-◌, true, err, arith, text_eq,
  ◌≡◌, refl, ◌↔◌, Bool, false, text_le, ok,
}
use parallax_telemetry_playg.Inventory.Schema.{Db, Slot}
use parallax_telemetry_playg.Inventory.Reserve.{reserve}
use parallax_telemetry_playg.Inventory.Release.{release}
use parallax_telemetry_playg.Inventory.Consume.{consume}
use parallax_telemetry_playg.Inventory.Reap.{reap_expired_reservations}
use parallax_telemetry_playg.Inventory.Validation.{
  validate_reserve, validate_release, validate_consume,
}
use parallax_telemetry_playg.Inventory.Validity.{
  IsReserve, IsRelease, IsConsume, validate_reserve_iff, validate_release_iff, validate_consume_iff,
}
use parallax_telemetry_playg.Inventory.Ledger.{Ledger}
use parallax_telemetry_playg.Inventory.Api.{reserve_inner, release_inner, consume_inner}
use parallax_telemetry_playg.Inventory.Conservation.Shared.{Conserves}
use parallax_telemetry_playg.Inventory.Conservation.Reserve.{reserve-Conserves}
use parallax_telemetry_playg.Inventory.Conservation.Release.{release-Conserves}
use parallax_telemetry_playg.Inventory.Conservation.Consume.{consume-Conserves}
use parallax_telemetry_playg.Inventory.Conservation.Reap.{reap-Conserves}
use parallax_telemetry_playg.Inventory.System.{
  Reach, here, next, reserves, consumes, reaps, after_reaper, reach-Ledger,
}
use parallax_telemetry_playg.Table.{find}
use parallax_telemetry_playg.Inventory.Schema.{
  slot_of, slot_eq, slot_Eq, cell_eq, cell_Eq, stock_cell, Stock, find_joined, to_i32, consumed,
  reserved,
}
use parallax_telemetry_playg.Inventory.Fence.{
  fence_current, lease_lost, require_fence, lock_current_checkout_fence,
}
use parallax_telemetry_playg.Inventory.Fencing.{fence_decides}
use parallax_telemetry_playg.Inventory.Holder.{IsHolder, fence_current_iff}
use parallax_telemetry_playg.Inventory.Domain.{conflict, ConflictCode}
use parallax_telemetry_playg.Inventory.Consume.{consume_items, by_id, consume_outcome}
use parallax_telemetry_playg.Inventory.Candidates.{IsCandidate}
use parallax_telemetry_playg.Inventory.Reserve.{claim_of, reserve_claim}
use parallax_telemetry_playg.Inventory.Opening.{Opened, reserve-opens}
use parallax_telemetry_playg.Inventory.Release.{release_claim, release_claim_of}
use parallax_telemetry_playg.Inventory.Giving.{given}
use parallax_telemetry_playg.Inventory.Returning.{Returned, release-returns}
use parallax_telemetry_playg.Inventory.Replay.{already, Held, reserve-repeats}
use parallax_telemetry_playg.Inventory.Consumed.{reach-HasRow}
use parallax_telemetry_playg.Inventory.System.{releases}
use parallax_telemetry_playg.Inventory.Samples.{
  acme, ssd, shelf, hold_row, hold_slot, sold, held, checkout_slot, token, checkout, shop, no_base,
  ten, shop-Ledger, wanted, given_back, shipped,
}

abbrev held_shop : Db
held_shop = (reserve_inner text_le 7 wanted shop).1

abbrev sold_shop : Db
sold_shop = (consume_inner 8 shipped held_shop).1

abbrev freed_shop : Db
freed_shop = (release_inner 8 given_back held_shop).1

abbrev none_locked : Slot → Bool
none_locked k = false

abbrev reaped_shop : Db
reaped_shop =
    after_reaper (reap_expired_reservations text_le none_locked 900_000_007 held_shop) held_shop

-- A reservation, its consumption, a release that comes too late, and a run of the reaper.
abbrev story :
    Reach text_le shop
      (after_reaper (reap_expired_reservations text_le none_locked 900_000_007 sold_shop) sold_shop)
story =
    next (next (next here (reserves 7 wanted refl)) (consumes 8 shipped refl))
      (reaps 900_000_007 none_locked refl)

reach-Ledger_example :
    Ledger no_base ten
      (after_reaper (reap_expired_reservations text_le none_locked 900_000_007 sold_shop) sold_shop)
reach-Ledger_example = reach-Ledger no_base ten text_le story shop-Ledger

abbrev held_shop-Ledger : Ledger no_base ten held_shop
held_shop-Ledger = reach-Ledger no_base ten text_le (next here (reserves 7 wanted refl)) shop-Ledger

reserve-Conserves_example : Conserves no_base ten (reserve text_le 7 wanted shop)
reserve-Conserves_example = reserve-Conserves no_base ten text_le 7 wanted shop shop-Ledger

release-Conserves_example : Conserves no_base ten (release 8 given_back held_shop)
release-Conserves_example = release-Conserves no_base ten 8 given_back held_shop held_shop-Ledger

consume-Conserves_example : Conserves no_base ten (consume 8 shipped held_shop)
consume-Conserves_example = consume-Conserves no_base ten 8 shipped held_shop held_shop-Ledger

reap-Conserves_example :
    Conserves no_base ten (reap_expired_reservations text_le none_locked 900_000_007 held_shop)
reap-Conserves_example =
    reap-Conserves no_base ten text_le none_locked 900_000_007 held_shop held_shop-Ledger

validate_reserve_iff_example : (validate_reserve wanted ≡ ok tt) ↔ IsReserve wanted
validate_reserve_iff_example = validate_reserve_iff wanted

validate_release_iff_example : (validate_release given_back ≡ ok tt) ↔ IsRelease given_back
validate_release_iff_example = validate_release_iff given_back

validate_consume_iff_example : (validate_consume shipped ≡ ok tt) ↔ IsConsume shipped
validate_consume_iff_example = validate_consume_iff shipped

sold_row : find slot_of hold_slot sold.reservations ≡ some (hold_row consumed)
unfolding find slot_eq text_eq
sold_row = refl

-- A release that comes too late and a run of the reaper.
abbrev late : Db
late =
    after_reaper
      (reap_expired_reservations text_le none_locked 900_000_009
        (release_inner 8 given_back sold).1)
      (release_inner 8 given_back sold).1

reach-HasRow_example : find slot_of hold_slot late.reservations ≡ some (hold_row consumed)
reach-HasRow_example =
    reach-HasRow hold_slot (hold_row consumed) refl text_le
      (next (next here (releases 8 given_back refl)) (reaps 900_000_009 none_locked refl)) sold_row

current_fence : fence_current 7 shop checkout_slot token ≡ true
unfolding fence_current find slot_eq text_eq
current_fence = refl

holder : IsHolder 7 shop acme checkout token
holder = (fence_current_iff 7 shop acme checkout token).0 current_fence

shelf_row : find stock_cell (stock_cell shelf) shop.stocks ≡ some shelf
unfolding find cell_eq text_eq
shelf_row = refl

offered : IsCandidate shop acme ssd 3 (codes "A") shelf
unfolding find slot_eq text_eq
offered = record {
  tenant = refl;
  place = record { id = codes "l1"; tenant_id = acme; code = codes "A"; is_active = true };
  found = refl;
  active = refl;
  named = refl;
  stocked = refl;
  enough = omega arith;
}

reserve-opens_example :
    (code : Text) × (s : Stock) × IsCandidate shop acme ssd 3 code s
    × (db' : Db) × (reserve text_le 7 wanted shop
        ≡ ok (
          some (record {
            location_id = s.location_id;
            remaining = s.on_hand_quantity - s.reserved_quantity - 3;
            status = "reserved";
          }),
          db',
        ))
    × Opened 7 wanted checkout token s shop db'
unfolding find
reserve-opens_example =
    reserve-opens text_le 7 wanted shop checkout token (codes "A") shelf refl refl refl holder
      (omega arith) (omega arith) refl (tt, tt) shelf_row offered

held_joined : find_joined hold_slot held ≡ some (hold_row reserved, shelf)
unfolding find_joined find slot_eq cell_eq text_eq
held_joined = refl

asked_for : 3 ≡ to_i32 3
unfolding to_i32
asked_for = refl

held_fence : fence_current 7 held checkout_slot token ≡ true
unfolding fence_current find slot_eq text_eq
held_fence = refl

reserve-repeats_example :
    (db' : Db) × (reserve text_le 7 wanted held ≡ ok (already (hold_row reserved) shelf, db'))
    × Held (claim_of 7 wanted (checkout, token)) (hold_row reserved) held db'
reserve-repeats_example =
    reserve-repeats text_le 7 wanted held checkout token (hold_row reserved) shelf refl refl refl
      held_fence held_joined refl refl asked_for refl

fence_decides_example :
    (fenced : Bool) × ((fenced ≡ true) ↔ IsHolder 5_000_000_000 shop acme checkout token)
    × (reserve text_le 5_000_000_000 wanted shop ≡ (
        if fenced
        then reserve_claim text_le (claim_of 5_000_000_000 wanted (checkout, token)) wanted shop
        else err (conflict ConflictCode.checkout_lease_lost)))
    × (release 5_000_000_000 given_back shop ≡ (
        if fenced
        then release_claim
            (release_claim_of 5_000_000_000 given_back (checkout, token))
            given_back
            shop
        else err (conflict ConflictCode.checkout_lease_lost)))
    × (consume 5_000_000_000 shipped shop ≡ (
        if fenced
        then (do
          (total, db') ←
              consume_items 5_000_000_000 acme
                (checkout, token)
                0
                (sort_by by_id shipped.reservations)
                shop
          ok (consume_outcome total, db'))
        else err (conflict ConflictCode.checkout_lease_lost)))
fence_decides_example =
    fence_decides text_le 5_000_000_000 shop acme checkout token wanted given_back shipped refl

-- The lease runs out.
expired :
    reserve text_le 5_000_000_000 wanted shop ≡ err (conflict ConflictCode.checkout_lease_lost)
unfolding reserve find slot_eq text_eq require_fence lock_current_checkout_fence fence_current
    lease_lost
expired = refl

-- The shop with three pieces on hold.
abbrev holding_shelf : Stock
holding_shelf = record shelf { reserved_quantity = 3 }

abbrev holding_shop : Db
holding_shop = record held { stocks = holding_shelf ∷ [] }

holding_joined : find_joined hold_slot holding_shop ≡ some (hold_row reserved, holding_shelf)
unfolding find_joined find slot_eq cell_eq text_eq
holding_joined = refl

holding_fence : fence_current 7 holding_shop checkout_slot token ≡ true
unfolding fence_current find slot_eq text_eq
holding_fence = refl

release-returns_example :
    (db' : Db) × (release 7 given_back holding_shop
      ≡ ok (given (hold_row reserved) holding_shelf, db'))
    × Returned 7 token (hold_row reserved) holding_shelf holding_shop db'
release-returns_example =
    release-returns 7 given_back holding_shop checkout token (hold_row reserved) holding_shelf refl
      refl ((fence_current_iff 7 holding_shop acme checkout token).0 holding_fence) holding_joined
      refl (omega arith) (inl refl) refl refl (omega arith)
