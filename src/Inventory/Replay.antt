-- ===== src/Inventory/Replay.antt =====
-- `reserve` for a reservation that is held already.
use parallax_telemetry_playg.Prelude.{
  ℕ, ◌≡◌, ◌<◌, refl, ap, ◌∙◌, inl, inr, Bool, true, false, not, ◌||◌, Option, none, some, Text,
  Bool-cases, leb, ◌==◌, ==_iff, text_eq, text_eq_refl, text_eq_iff, is_text, ok, arith,
}
use parallax_telemetry_playg.Table.{find, alter, update_of_find, find-alter_self}
use parallax_telemetry_playg.Inventory.Domain.{ReserveQuery, ReserveOutcome}
use parallax_telemetry_playg.Inventory.Schema.{
  slot_Eq, Stock, available_quantity, reserved, Reservation, slot_of, Db, find_joined, to_i32,
}
use parallax_telemetry_playg.Inventory.Statements.{update_reservation}
use parallax_telemetry_playg.Inventory.Fence.{fence_current}
use parallax_telemetry_playg.Inventory.Fencing.{pass_fence}
use parallax_telemetry_playg.Inventory.Conservation.Shared.{find_joined-inv}
use parallax_telemetry_playg.Inventory.Reserve.{
  Claim, claim_of, renew, is_held_by, reserve_reserved, reserve_by_status, reserve_existing,
  reserve_claim, reserve,
}

-- The answer to a reservation that is held already.
abbrev pub already : Reservation → Stock → Option ReserveOutcome
already r s = some (record {
  location_id = r.location_id;
  remaining = available_quantity s;
  status = "already_reserved";
})

-- The hold after a repeated reservation: the same quantity, under the token of the claim, and not
-- expired; no stock has moved.
pub record Held (c : Claim) (r : Reservation) (db db' : Db) : Type 0 where
  pub hold : Reservation
  pub row : find slot_of c.slot db'.reservations ≡ some hold
  pub still_open : hold.status ≡ reserved
  pub same_quantity : hold.quantity ≡ r.quantity
  pub own_token : hold.owner_lease_token ≡ some c.lease_token
  pub lasting : c.now < hold.expires_at
  pub same_stocks : db'.stocks ≡ db.stocks

module _ (c : Claim) (r : Reservation) (s : Stock) (db : Db)
    (row : find slot_of c.slot db.reservations ≡ some r) (open_hold : r.status ≡ reserved)
    (own : is_text r.owner_request_id c.request_id ≡ true) where
  token-eq : (o : Option Text) (t : Text) → is_text o t ≡ true → o ≡ some t
  token-eq none t h = absurd (cc)
  token-eq (some a) t h = ap some ((text_eq_iff a t).0 h)

  renewed :
      update_reservation c.slot (is_held_by c.request_id) (renew c) db
      ≡ ok (renew c r, record db { reservations = alter slot_of c.slot (renew c) db.reservations })
  unfolding update_reservation
  renewed =
      let done =
        update_of_find slot_of c.slot (is_held_by c.request_id) (renew c) db.reservations r row
          (rw (open_hold, own) refl) in
      rw done refl

  renew-slot : (x : Reservation) → slot_of (renew c x) ≡ slot_of x
  unfolding renew
  renew-slot x = refl

  reserve_reserved-Held :
      (db' : Db) × (reserve_reserved c r s db ≡ ok (already r s, db')) × Held c r db db'
  unfolding reserve_reserved
  reserve_reserved-Held =
      elim (Bool-cases
        (leb r.expires_at c.now || not (is_text r.owner_lease_token c.lease_token))) [
          | inl stale ↦ (
            record db { reservations = alter slot_of c.slot (renew c) db.reservations },
            rw stale (rw renewed refl),
            unfold renew in
                record {
                  hold = renew c r;
                  row = find-alter_self slot_of c.slot (renew c) renew-slot db.reservations row;
                  still_open = open_hold;
                  same_quantity = refl;
                  own_token = refl;
                  lasting = omega arith;
                  same_stocks = refl;
                },
          )
          | inr current ↦ (
            db,
            rw current refl,
            record {
              hold = r;
              row = row;
              still_open = open_hold;
              same_quantity = refl;
              own_token = token-eq r.owner_lease_token c.lease_token (ground (arith, current));
              lasting = ground (arith, current);
              same_stocks = refl;
            },
          )
        ]

  reserve_by_status-reserved : reserve_by_status r.status c r s db ≡ reserve_reserved c r s db
  unfolding reserve_by_status
  reserve_by_status-reserved = rw open_hold refl

  reserve_existing-passes :
      (params : ReserveQuery)
      → text_eq r.sku params.sku ≡ true
      → (r.quantity == to_i32 params.quantity) ≡ true
      → reserve_existing c params r s db ≡ reserve_reserved c r s db
  unfolding reserve_existing
  reserve_existing-passes params same_sku same_quantity =
      rw (same_sku, same_quantity, own) reserve_by_status-reserved

claim_existing :
    (collate : Text → Text → Bool) (c : Claim) (params : ReserveQuery) (db : Db) (r : Reservation)
    (s : Stock)
    → find_joined c.slot db ≡ some (r, s)
    → reserve_claim collate c params db ≡ reserve_existing c params r s db
unfolding reserve_claim
claim_existing collate c params db r s found = ground (arith, found)

-- Repeating a reservation that the checkout holds, for the same SKU and quantity and under a current
-- fence, succeeds and takes no more stock: the answer says that it was reserved already, with the
-- location and what is left there; afterwards the hold has the same quantity, belongs to the
-- token of the request, even if another token or an expired hold was there before, and is not
-- expired.
pub reserve-repeats :
    (collate : Text → Text → Bool) (now : ℕ) (params : ReserveQuery) (db : Db)
    (request_id token : Text) (r : Reservation) (s : Stock)
    → params.fail ≡ false
    → params.checkout_request_id ≡ some request_id
    → params.checkout_lease_token ≡ some token
    → fence_current now db (record { tenant_id = params.tenant_id; id = request_id }) token ≡ true
    → find_joined (claim_of now params (request_id, token)).slot db ≡ some (r, s)
    → r.status ≡ reserved
    → r.sku ≡ params.sku
    → r.quantity ≡ to_i32 params.quantity
    → r.owner_request_id ≡ some request_id
    → (db' : Db) × (reserve collate now params db ≡ ok (already r s, db'))
      × Held (claim_of now params (request_id, token)) r db db'
unfolding reserve
reserve-repeats collate now params db request_id token r s quiet asked held current found open_hold
      same_sku same_quantity own =
    let c = claim_of now params (request_id, token) in
    let mine : is_text r.owner_request_id request_id ≡ true = rw own (text_eq_refl request_id) in
    let row = (find_joined-inv c.slot db found).0 in
    let done = reserve_reserved-Held c r s db row open_hold mine in
    let passed =
      pass_fence now db params.tenant_id request_id token params.fail params.checkout_request_id
        params.checkout_lease_token
        (λ fence. reserve_claim collate (claim_of now params fence) params db) quiet asked held
        current in
    (
      done.0,
      passed
          ∙ claim_existing collate c params db r s found
          ∙ reserve_existing-passes c r s db row open_hold mine params
              ((text_eq_iff r.sku params.sku).1 same_sku)
              ((==_iff r.quantity (to_i32 params.quantity)).1 same_quantity)
          ∙ done.1,
      done.2,
    )
