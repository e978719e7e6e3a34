-- ===== src/Inventory/Opening.antt =====
-- `reserve` for a reservation that is not there yet.
use parallax_telemetry_playg.Prelude.{
  ℕ, ◌-◌, ◌+◌, ◌≡◌, ◌≤◌, ◌<◌, refl, ◌∙◌, Bool, true, false, none, some, ◌∷◌, Text, leb, ok, arith,
}
use parallax_telemetry_playg.Table.{find, Distinct}
use parallax_telemetry_playg.Inventory.Domain.{ReserveQuery}
use parallax_telemetry_playg.Inventory.Schema.{
  cell_Eq, slot_Eq, Stock, stock_cell, available_quantity, slot_of, Db, reserved, add_reserved,
  i32_max,
}
use parallax_telemetry_playg.Inventory.Reserve.{claim_of, threshold, fresh, reserve_claim, reserve}
use parallax_telemetry_playg.Inventory.Fencing.{pass_fence}
use parallax_telemetry_playg.Inventory.Candidates.{IsCandidate, candidates-some}
use parallax_telemetry_playg.Inventory.Holder.{IsHolder, fence_current_iff}
use parallax_telemetry_playg.Table.Replaces.{Replaces, alter-Replaces}
use parallax_telemetry_playg.Inventory.Taking.{opened, reserve_fresh-ok}

-- A new hold on the row of stock `s`, for fifteen minutes from now, and nothing else.
pub record Opened (now : ℕ) (params : ReserveQuery) (request_id token : Text) (s : Stock)
    (db db' : Db) : Type 0 where
  pub available : s.reserved_quantity + params.quantity ≤ s.on_hand_quantity
  pub stocks :
      Replaces s
        (record s { reserved_quantity = s.reserved_quantity + params.quantity; updated_at = now })
        db.stocks
        db'.stocks
  pub reservations :
      db'.reservations
      ≡ record {
        reservation_id = params.reservation_id;
        tenant_id = params.tenant_id;
        sku = params.sku;
        variant_id = s.variant_id;
        location_id = s.location_id;
        quantity = params.quantity;
        status = reserved;
        expires_at = now + 900_000_000;
        released_at = none;
        consumed_at = none;
        owner_request_id = some request_id;
        owner_lease_token = some token;
        updated_at = now;
      }
        ∷ db.reservations
  pub same_variants : db'.variants ≡ db.variants
  pub same_locations : db'.locations ≡ db.locations
  pub same_attempts : db'.attempts ≡ db.attempts
  pub same_reconciliations : db'.reconciliations ≡ db.reconciliations

opened-Opened :
    (collate : Text → Text → Bool) (now : ℕ) (params : ReserveQuery) (db : Db)
    (request_id token : Text) (s : Stock)
    → find stock_cell (stock_cell s) db.stocks ≡ some s
    → 0 < params.quantity
    → params.quantity ≤ 2_147_483_647
    → threshold params.quantity ≤ available_quantity s
    → Opened now params request_id token s db
        (opened collate (claim_of now params (request_id, token)) params db s)
unfolding opened fresh add_reserved
opened-Opened collate now params db request_id token s row positive ranged enough =
    let fits : leb params.quantity i32_max ≡ true = ground arith in
    let asked : threshold params.quantity ≡ params.quantity = rw fits refl in
    record {
      available = omega (arith, enough, asked, positive);
      stocks =
          alter-Replaces stock_cell (stock_cell s) (add_reserved now params.quantity) db.stocks row;
      reservations = refl;
      same_variants = refl;
      same_locations = refl;
      same_attempts = refl;
      same_reconciliations = refl;
    }

-- A reservation that is not there yet is opened, when it asks for a positive quantity within the
-- range of i32, its checkout holds its fence, and some row of stock is a candidate. The row taken is
-- one of the tenant, at an active location, of an active variant with the SKU, with at least the
-- quantity available; what it has reserved grows by the quantity, the new reservation holds that
-- quantity there for fifteen minutes in the name of the checkout, nothing else changes, and the
-- answer names the location and what is left. For that the rows of stock have distinct cells.
pub reserve-opens :
    (collate : Text → Text → Bool) (now : ℕ) (params : ReserveQuery) (db : Db)
    (request_id token offered : Text) (x : Stock)
    → params.fail ≡ false
    → params.checkout_request_id ≡ some request_id
    → params.checkout_lease_token ≡ some token
    → IsHolder now db params.tenant_id request_id token
    → 0 < params.quantity
    → params.quantity ≤ 2_147_483_647
    → find slot_of
        (record { tenant_id = params.tenant_id; id = params.reservation_id })
        db.reservations
      ≡ none
    → Distinct stock_cell db.stocks
    → find stock_cell (stock_cell x) db.stocks ≡ some x
    → IsCandidate db params.tenant_id params.sku params.quantity offered x
    → (code : Text) × (s : Stock) × IsCandidate db params.tenant_id params.sku params.quantity code
        s
      × (db' : Db) × (reserve collate now params db
          ≡ ok (
            some (record {
              location_id = s.location_id;
              remaining = s.on_hand_quantity - s.reserved_quantity - params.quantity;
              status = "reserved";
            }),
            db',
          ))
      × Opened now params request_id token s db db'
unfolding reserve
reserve-opens collate now params db request_id token offered x quiet asked held holds positive
      ranged absent distinct row which =
    let c = claim_of now params (request_id, token) in
    let some_row =
      candidates-some db params.tenant_id params.sku params.quantity offered x db.stocks row
        which in
    let done = reserve_fresh-ok collate c params db positive ranged absent distinct some_row in
    let passed =
      pass_fence now db params.tenant_id request_id token params.fail params.checkout_request_id
        params.checkout_lease_token
        (λ fence. reserve_claim collate (claim_of now params fence) params db) quiet asked held
        ((fence_current_iff now db params.tenant_id request_id token).1 holds) in
    (
      done.0,
      done.1,
      done.2,
      opened collate c params db done.1,
      passed ∙ done.4,
      opened-Opened collate now params db request_id token done.1 done.3 positive ranged
          done.2.enough,
    )
