-- ===== src/Inventory/Conservation/Reserve.antt =====
-- The stock ledger under `reserve`.
use parallax_telemetry_playg.Prelude.{
  ℕ, ◌+◌, ◌≤◌, ◌≡◌, refl, Bool, true, not, ◌&&◌, ◌||◌, Option, none, some, List, Text, is_text,
  text_eq, ap, ◌∙◌, leb, ltb, ◌==◌, ok_or, ok_or-inv, Ensures-ok, Ensures-err, Ensures-if,
  Ensures-bind, Ensures-ensure, Ensures-option, arith,
}
use parallax_telemetry_playg.Table.{update, insert, update-inv, find-key}
use parallax_telemetry_playg.Inventory.Domain.{
  ReserveQuery, stock_unavailable, constraint_violation,
}
use parallax_telemetry_playg.Inventory.Schema.{
  Cell, cell_Eq, slot_Eq, Stock, stock_cell, available_quantity, HoldStatus, reserved, released,
  consumed, unknown, is_released, Reservation, slot_of, cell_of, Db, find_joined, add_reserved,
  i32_max, to_i32,
}
use parallax_telemetry_playg.Inventory.Statements.{update_both}
use parallax_telemetry_playg.Inventory.Ledger.{Ledger, held_amount, spent_amount}
use parallax_telemetry_playg.Inventory.Moves.{Ledger-open}
use parallax_telemetry_playg.Inventory.Soundness.{Sound, update_both-Sound}
use parallax_telemetry_playg.Inventory.Transitions.{reuse-IsEdit, add_reserved-cell, add-Balances}
use parallax_telemetry_playg.Inventory.Reserve.{
  Claim, reuse, reserve_released, reserve_reserved, reserve_by_status, reserve_existing, threshold,
  fresh, open_reservation, reserve_candidate, reserve_fresh, claim_of, reserve_claim, reserve,
}
use parallax_telemetry_playg.Inventory.Candidates.{candidate-of}
use parallax_telemetry_playg.Inventory.Conservation.Shared.{
  Conserves, Keeps, Sound-read, renew-Sound,
}

module _ (c : Claim) (params : ReserveQuery) where
  fresh-cell :
      (cell : Cell) (s : Stock)
      → cell.tenant_id ≡ c.slot.tenant_id
      → stock_cell s ≡ cell
      → cell_of (fresh c params.sku params.quantity s) ≡ cell
  unfolding fresh
  fresh-cell cell s tenant at_cell = cc

  updated-cell :
      (db : Db) (cell : Cell) {s : Stock} {stocks : List Stock}
      → update stock_cell cell
          (λ x. leb (threshold params.quantity) (available_quantity x))
          (add_reserved c.now params.quantity)
          db.stocks
        ≡ some (s, stocks)
      → stock_cell s ≡ cell
  updated-cell db cell e =
      let (x, row, _, made, _) = update-inv stock_cell cell _ _ db.stocks e in
      ap stock_cell made
      ∙ add_reserved-cell c.now params.quantity x
      ∙ find-key stock_cell cell db.stocks row

  fresh-balance :
      (s₀ : Stock)
      → (ltb 0 params.quantity && leb params.quantity i32_max) ≡ true
      → (s : Stock) → leb (threshold params.quantity) (available_quantity s) ≡ true
      → s.reserved_quantity ≤ s.on_hand_quantity
      → let f = add_reserved c.now params.quantity in
        let r = fresh c params.sku params.quantity s₀ in
        ((f s).reserved_quantity ≡ s.reserved_quantity + held_amount r)
        × ((f s).on_hand_quantity + spent_amount r ≡ s.on_hand_quantity)
        × ((f s).reserved_quantity ≤ (f s).on_hand_quantity)
  unfolding fresh add_reserved
  fresh-balance s₀ ranged s enough fits = ground arith

module _ (base supply : Cell → ℕ) where
  module _ (c : Claim) (r : Reservation) where
    reuse-Sound :
        (db : Db)
        → Sound base supply c.slot r db
        → Keeps base supply c.slot r (
            update_both
              (cell_of r)
              (λ s. leb r.quantity (available_quantity s))
              (add_reserved c.now r.quantity)
              stock_unavailable
              c.slot
              (λ x. is_released x.status)
              (reuse c)
              db)
    unfolding reuse
    reuse-Sound db v =
        update_both-Sound base supply c.slot r (reuse c) (reuse-IsEdit c) _ _ _ _ db v
          (add_reserved-cell c.now r.quantity)
          λ x s amount enough fits held.
            add-Balances c.now r.quantity (reuse c) (reuse-IsEdit c) x s amount fits refl held
              enough

    reserve_released-Conserves :
        (db : Db) → Sound base supply c.slot r db → Conserves base supply (reserve_released c r db)
    unfolding reserve_released
    reserve_released-Conserves db v =
        Ensures-bind _ _ λ (s, db') e. Ensures-ok _ ((reuse-Sound db v).at (s, db') e).ledger

    reserve_reserved-Conserves :
        (s : Stock) (db : Db)
        → Sound base supply c.slot r db
        → Conserves base supply (reserve_reserved c r s db)
    unfolding reserve_reserved
    reserve_reserved-Conserves s db v =
        Ensures-if (leb r.expires_at c.now || not (is_text r.owner_lease_token c.lease_token)) _ _
          (λ _.
            Ensures-bind _ _ λ (r', db') e.
              Ensures-ok _ ((renew-Sound base supply c r db v).at (r', db') e).ledger)
          (λ _. Ensures-ok _ v.ledger)

    reserve_by_status-Conserves :
        (status : HoldStatus) (s : Stock) (db : Db)
        → Sound base supply c.slot r db
        → Conserves base supply (reserve_by_status status c r s db)
    unfolding reserve_by_status
    reserve_by_status-Conserves released s db v = reserve_released-Conserves db v
    reserve_by_status-Conserves reserved s db v = reserve_reserved-Conserves s db v
    reserve_by_status-Conserves consumed s db v =
        Ensures-if (is_text r.owner_request_id c.request_id) _ _ (λ _. Ensures-ok _ v.ledger)
          (λ _. Ensures-err _)
    reserve_by_status-Conserves (unknown t) s db v = Ensures-err _

    reserve_existing-Conserves :
        (params : ReserveQuery) (s : Stock) (db : Db)
        → Sound base supply c.slot r db
        → Conserves base supply (reserve_existing c params r s db)
    unfolding reserve_existing
    reserve_existing-Conserves params s db v =
        Ensures-ensure (text_eq r.sku params.sku && r.quantity == to_i32 params.quantity) _ _ λ _.
          Ensures-ensure (is_text r.owner_request_id c.request_id) _ _
            λ _. reserve_by_status-Conserves r.status s db v

  module _ (c : Claim) (params : ReserveQuery) (db : Db) (v : Ledger base supply db) where
    open_reservation-Conserves :
        (cell : Cell) (o : Option (Stock × List Stock))
        → cell.tenant_id ≡ c.slot.tenant_id
        → update stock_cell cell
            (λ x. leb (threshold params.quantity) (available_quantity x))
            (add_reserved c.now params.quantity)
            db.stocks
          ≡ o
        → Conserves base supply (open_reservation c params o db)
    unfolding open_reservation fresh
    open_reservation-Conserves cell none tenant e = Ensures-ok _ v
    open_reservation-Conserves cell (some (s, stocks)) tenant e =
        Ensures-ensure (ltb 0 params.quantity && leb params.quantity i32_max) _ _ λ ranged.
          Ensures-bind
            (ok_or (insert slot_of (fresh c params.sku params.quantity s) db.reservations)
              constraint_violation)
            _
            λ rs inserted. Ensures-ok _ (
              Ledger-open v cell _ _ (fresh c params.sku params.quantity s)
                (add_reserved-cell c.now params.quantity)
                (fresh-cell c params cell s tenant (updated-cell c params db cell e)) e
                (ok_or-inv constraint_violation _ inserted) (fresh-balance c params s ranged))

    reserve_candidate-Conserves :
        (o : Option (Text × Stock))
        → ((code : Text) (s : Stock) → o ≡ some (code, s) → s.tenant_id ≡ c.slot.tenant_id)
        → Conserves base supply (reserve_candidate c params o db)
    unfolding reserve_candidate
    reserve_candidate-Conserves none tenant = Ensures-ok _ v
    reserve_candidate-Conserves (some (code, s)) tenant =
        open_reservation-Conserves (stock_cell s) _ (tenant code s refl) refl

    reserve_claim-Conserves :
        (collate : Text → Text → Bool) → Conserves base supply (reserve_claim collate c params db)
    unfolding reserve_claim reserve_fresh
    reserve_claim-Conserves collate =
        Ensures-option (find_joined c.slot db) _ _
          (λ _. reserve_candidate-Conserves _ λ code s chosen.
            (candidate-of db c.slot.tenant_id params.sku params.quantity collate code s
              chosen).tenant)
          λ (r, s) found.
            reserve_existing-Conserves c r params s db
              (Sound-read base supply c.slot r s db v found)

  -- A successful reserve leaves the ledger as it was: every row of stock still has reserved what
  -- the open reservations of its cell hold, with the same surplus as before, and on hand what
  -- was supplied less what the consumed ones took, and nothing is reserved beyond what is on hand.
  pub reserve-Conserves :
      (collate : Text → Text → Bool) (now : ℕ) (params : ReserveQuery) (db : Db)
      → Ledger base supply db
      → Conserves base supply (reserve collate now params db)
  unfolding reserve
  reserve-Conserves collate now params db v = Ensures-ensure (not params.fail) _ _ λ _.
      Ensures-bind _ _
        λ fence _. reserve_claim-Conserves (claim_of now params fence) params db v collate
