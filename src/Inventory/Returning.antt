-- ===== src/Inventory/Returning.antt =====
-- `release` for a reservation that is held.
use parallax_telemetry_playg.Prelude.{
  ℕ, ◌-◌, none, ap, subst, min, ◌⊎◌, ◌≡◌, ◌≤◌, refl, ◌∙◌, true, false, not, Bool-cases, inl, inr,
  some, Text, is_text, text_eq_refl, ok, arith,
}
use parallax_telemetry_playg.Table.{find, alter, update_of_find, find-alter_self}
use parallax_telemetry_playg.Inventory.Domain.{ReleaseBody}
use parallax_telemetry_playg.Inventory.Schema.{
  slot_Eq, cell_Eq, Stock, stock_cell, reserved, released, is_reserved, Reservation, slot_of,
  cell_of, Db, drop_reserved, find_joined,
}
use parallax_telemetry_playg.Inventory.Statements.{update_reservation}
use parallax_telemetry_playg.Inventory.Holder.{IsHolder, fence_current_iff}
use parallax_telemetry_playg.Table.Replaces.{Replaces, alter-Replaces, alter-alter}
use parallax_telemetry_playg.Inventory.Fencing.{pass_fence}
use parallax_telemetry_playg.Inventory.Conservation.Shared.{find_joined-inv}
use parallax_telemetry_playg.Inventory.Reserve.{Claim, is_held_by}
use parallax_telemetry_playg.Inventory.Release.{
  matches_request, rebind, rebind_token, close, release_held, release_by_status, release_existing,
  release_claim, release_claim_of, release,
}
use parallax_telemetry_playg.Inventory.Giving.{given, release_held-given, is_text-some, matches}

-- The tables after it: the row of stock has the quantity less reserved, and the reservation is
-- released, in the name of the token; all else is as it was.
pub record Returned (now : ℕ) (token : Text) (r : Reservation) (s : Stock) (db db' : Db)
    : Type 0 where
  pub stocks :
      Replaces s
        (record s { reserved_quantity = s.reserved_quantity - r.quantity; updated_at = now })
        db.stocks
        db'.stocks
  pub reservations :
      Replaces r
        (record r {
          status = released;
          released_at = some now;
          consumed_at = none;
          owner_lease_token = some token;
          updated_at = now;
        })
        db.reservations
        db'.reservations
  pub same_variants : db'.variants ≡ db.variants
  pub same_locations : db'.locations ≡ db.locations
  pub same_attempts : db'.attempts ≡ db.attempts
  pub same_reconciliations : db'.reconciliations ≡ db.reconciliations

module _ (c : Claim) (r : Reservation) (s : Stock) (db : Db)
    (row : find slot_of c.slot db.reservations ≡ some r)
    (shelf : find stock_cell (cell_of r) db.stocks ≡ some s) (open_hold : r.status ≡ reserved)
    (own : is_text r.owner_request_id c.request_id ≡ true)
    (covered : r.quantity ≤ s.reserved_quantity) where
  held_by : is_held_by c.request_id r ≡ true
  held_by = rw (open_hold, own) refl

  rebind-slot : (y : Reservation) → slot_of (rebind c y) ≡ slot_of y
  unfolding rebind
  rebind-slot y = refl

  rebind-held : is_held_by c.request_id (rebind c r) ≡ true
  unfolding rebind
  rebind-held = held_by

  abbrev rebound : Db
  rebound = record db { reservations = alter slot_of c.slot (rebind c) db.reservations }

  rebind_token-stale :
      not (is_text r.owner_lease_token c.lease_token) ≡ true
      → rebind_token c r db ≡ ok (rebind c r, rebound)
  unfolding rebind_token update_reservation
  rebind_token-stale stale =
      let done =
        update_of_find slot_of c.slot (is_held_by c.request_id) (rebind c) db.reservations r row
          held_by in
      let waiting : is_reserved r.status ≡ true = rw open_hold refl in
      rw (waiting, stale) (rw done refl)

  rebind_token-own :
      not (is_text r.owner_lease_token c.lease_token) ≡ false → rebind_token c r db ≡ ok (r, db)
  unfolding rebind_token
  rebind_token-own mine = rw (open_hold, mine) refl

  status_held : (db₁ : Db) → release_by_status r.status c r s db₁ ≡ release_held c r db₁
  unfolding release_by_status
  status_held db₁ = rw open_hold refl

  -- The tables after the two updates of the reservation, or the one.
  passed_on : Db
  passed_on = record db {
    stocks = alter stock_cell (cell_of r) (drop_reserved c.now r.quantity) db.stocks;
    reservations = alter slot_of c.slot (close c) (alter slot_of c.slot (rebind c) db.reservations);
  }

  kept : Db
  kept = record db {
    stocks = alter stock_cell (cell_of r) (drop_reserved c.now r.quantity) db.stocks;
    reservations = alter slot_of c.slot (close c) db.reservations;
  }

  passed_on-Returned : Returned c.now c.lease_token r s db passed_on
  unfolding passed_on drop_reserved close rebind
  passed_on-Returned = record {
    stocks = alter-Replaces stock_cell (cell_of r) (drop_reserved c.now r.quantity) db.stocks shelf;
    reservations =
        rw (alter-alter slot_of c.slot (rebind c) (close c) rebind-slot db.reservations)
          (alter-Replaces slot_of c.slot (λ y. close c (rebind c y)) db.reservations row);
    same_variants = refl;
    same_locations = refl;
    same_attempts = refl;
    same_reconciliations = refl;
  }

  close-own :
      r.owner_lease_token ≡ some c.lease_token
      → close c r ≡ record r {
        status = released;
        released_at = some c.now;
        consumed_at = none;
        owner_lease_token = some c.lease_token;
        updated_at = c.now;
      }
  unfolding close
  close-own mine =
      ap
        (λ o. record r {
          status = released;
          released_at = some c.now;
          consumed_at = none;
          owner_lease_token = o;
          updated_at = c.now;
        })
        mine

  kept-Returned :
      r.owner_lease_token ≡ some c.lease_token → Returned c.now c.lease_token r s db kept
  unfolding kept drop_reserved
  kept-Returned mine = record {
    stocks = alter-Replaces stock_cell (cell_of r) (drop_reserved c.now r.quantity) db.stocks shelf;
    reservations =
        subst (λ y. Replaces r y db.reservations kept.reservations) (close-own mine)
          (alter-Replaces slot_of c.slot (close c) db.reservations row);
    same_variants = refl;
    same_locations = refl;
    same_attempts = refl;
    same_reconciliations = refl;
  }

  release_existing-Returned :
      (body : ReleaseBody)
      → matches_request r body.sku body.quantity body.location_id ≡ true
      → (db' : Db) × (release_existing c body r s db ≡ ok (given r s, db'))
        × Returned c.now c.lease_token r s db db'
  unfolding release_existing passed_on kept
  release_existing-Returned body same =
      elim (Bool-cases (not (is_text r.owner_lease_token c.lease_token))) [
        | inl stale ↦
            let row' = find-alter_self slot_of c.slot (rebind c) rebind-slot db.reservations row in
            let done =
              release_held-given c r (rebind c r) s rebound row' shelf rebind-held covered in
            (
              passed_on,
              rw (same, own) (rw (rebind_token-stale stale) (status_held rebound ∙ done)),
              passed_on-Returned,
            )
        | inr mine ↦
            let done = release_held-given c r r s db row shelf held_by covered in
            (
              kept,
              rw (same, own) (rw (rebind_token-own mine) (status_held db ∙ done)),
              kept-Returned (is_text-some r.owner_lease_token c.lease_token (ground (arith, mine))),
            )
      ]

claim_released :
    (c : Claim) (body : ReleaseBody) (db : Db) (r : Reservation) (s : Stock)
    → find_joined c.slot db ≡ some (r, s)
    → release_claim c body db ≡ release_existing c body r s db
unfolding release_claim
claim_released c body db r s found = ground (arith, found)

-- Releasing a reservation that the checkout holds, while it holds its fence and with the
-- SKU, the quantity and, if it names one, the location that were reserved, succeeds if the stock has that much reserved: the answer names the quantity and
-- what the row of stock has reserved and available then, that row has the quantity less reserved,
-- the reservation is released in the name of the token that asks, also when another token held it
-- before, and nothing else changes.
pub release-returns :
    (now : ℕ) (body : ReleaseBody) (db : Db) (request_id token : Text) (r : Reservation) (s : Stock)
    → body.checkout_request_id ≡ some request_id
    → body.checkout_lease_token ≡ some token
    → IsHolder now db body.tenant_id request_id token
    → find_joined (record { tenant_id = body.tenant_id; id = body.reservation_id }) db ≡ some (r, s)
    → r.sku ≡ body.sku
    → r.quantity ≡ min body.quantity 2_147_483_647
    → (body.location_id ≡ none) ⊎ (body.location_id ≡ some r.location_id)
    → r.status ≡ reserved
    → r.owner_request_id ≡ some request_id
    → r.quantity ≤ s.reserved_quantity
    → (db' : Db) × (release now body db ≡ ok (given r s, db')) × Returned now token r s db db'
unfolding release
release-returns now body db request_id token r s asked held holds found named counted placed
      open_hold own covered =
    let c = release_claim_of now body (request_id, token) in
    let mine : is_text r.owner_request_id request_id ≡ true = rw own (text_eq_refl request_id) in
    let read = find_joined-inv c.slot db found in
    let same = matches r body.sku body.quantity body.location_id named counted placed in
    let done = release_existing-Returned c r s db read.0 read.1 open_hold mine covered body same in
    let passed =
      pass_fence now db body.tenant_id request_id token false body.checkout_request_id
        body.checkout_lease_token (λ fence. release_claim (release_claim_of now body fence) body db)
        refl asked held ((fence_current_iff now db body.tenant_id request_id token).1 holds) in
    (done.0, passed ∙ claim_released c body db r s found ∙ done.1, done.2)
