-- ===== src/Inventory/Taking.antt =====
-- How `reserve` of services/inventory/src/infrastructure.rs takes the stock for a reservation that is
-- not there yet.
use parallax_telemetry_playg.Prelude.{
  ℕ, ◌-◌, ◌+◌, ◌≡◌, ◌≤◌, ◌<◌, refl, ◌∙◌, inl, inr, Bool, true, false, Option, none, some, List, [],
  ◌∷◌, Text, Bool-cases, leb, ltb, ok, arith, sort_by, sort_by-All, sort_by-is_empty, All, is_empty,
}
use parallax_telemetry_playg.Table.{
  find, alter, insert_missing, update_of_find, Distinct, Distinct-find,
}
use parallax_telemetry_playg.Inventory.Domain.{ReserveQuery}
use parallax_telemetry_playg.Inventory.Schema.{
  cell_Eq, slot_Eq, Stock, stock_cell, available_quantity, slot_of, Location, Db, find_joined,
  add_reserved, i32_max,
}
use parallax_telemetry_playg.Inventory.Reserve.{
  Claim, threshold, is_candidate, add_candidate, candidates, by_code, first, fresh,
  open_reservation, reserve_candidate, reserve_fresh, reserve_claim,
}
use parallax_telemetry_playg.Inventory.Candidates.{IsCandidate, candidate-of}

module _ (db : Db) (tenant_id sku : Text) (q : ℕ) (P : Stock → Type 0) where
  add_candidate-rows :
      (s : Stock) (o : Option Location) (others : List (Text × Stock))
      → P s
      → All (λ p. P p.1) others
      → All (λ p. P p.1) (add_candidate db tenant_id sku q s o others)
  unfolding add_candidate
  add_candidate-rows s none others p h = h
  add_candidate-rows s (some l) others p h =
      elim (Bool-cases (is_candidate db tenant_id sku q s l)) [
        | inl test ↦ rw test (p, h)
        | inr test ↦ rw test h
      ]

  -- The candidates are rows of the table.
  candidates-rows :
      (rows : List Stock) → All P rows → All (λ p. P p.1) (candidates db tenant_id sku q rows)
  unfolding candidates
  candidates-rows [] h = tt
  candidates-rows (s ∷ rest) h = add_candidate-rows s _ _ h.0 (candidates-rows rest h.1)

first-row :
    (P : Text × Stock → Type 0) (rows : List (Text × Stock))
    → All P rows
    → is_empty rows ≡ false
    → (p : Text × Stock) × (first rows ≡ some p) × P p
first-row P [] h some_row = absurd (cc)
first-row P (p ∷ rows) h some_row = (p, refl, h.0)

module _ (collate : Text → Text → Bool) (c : Claim) (params : ReserveQuery) (db : Db) where
  -- The tables after a new reservation over the row of stock.
  unfoldable pub opened : Stock → Db
  opened s = record db {
    stocks = alter stock_cell (stock_cell s) (add_reserved c.now params.quantity) db.stocks;
    reservations = fresh c params.sku params.quantity s ∷ db.reservations;
  }

  open-ok :
      (s : Stock)
      → 0 < params.quantity
      → params.quantity ≤ i32_max
      → find slot_of c.slot db.reservations ≡ none
      → open_reservation c params
          (some (
            add_reserved c.now params.quantity s,
            alter stock_cell (stock_cell s) (add_reserved c.now params.quantity) db.stocks,
          ))
          db
        ≡ ok (
          some (record {
            location_id = s.location_id;
            remaining = available_quantity s - params.quantity;
            status = "reserved";
          }),
          opened s,
        )
  unfolding open_reservation add_reserved fresh opened
  open-ok s positive ranged absent =
      let some_asked : ltb 0 params.quantity ≡ true = ground arith in
      let fits : leb params.quantity i32_max ≡ true = ground arith in
      let left : s.on_hand_quantity - (s.reserved_quantity + params.quantity)
          ≡ s.on_hand_quantity - s.reserved_quantity - params.quantity =
        omega arith in
      let added =
        insert_missing slot_of (fresh c params.sku params.quantity s) db.reservations absent in
      rw (some_asked, fits, added, left) refl

  joined_missing : find slot_of c.slot db.reservations ≡ none → find_joined c.slot db ≡ none
  unfolding find_joined
  joined_missing absent = ground (arith, absent)

  claim_fresh :
      find slot_of c.slot db.reservations ≡ none
      → reserve_claim collate c params db ≡ reserve_fresh collate c params db
  unfolding reserve_claim
  claim_fresh absent = ground (arith, joined_missing absent)

  fresh_candidate :
      (code : Text) (s : Stock)
      → first (
          sort_by
            (by_code collate)
            (candidates db c.slot.tenant_id params.sku params.quantity db.stocks))
        ≡ some (code, s)
      → reserve_fresh collate c params db ≡ reserve_candidate c params (some (code, s)) db
  unfolding reserve_fresh
  fresh_candidate code s e = rw e refl

  candidate_taken :
      (code : Text) (s : Stock)
      → find stock_cell (stock_cell s) db.stocks ≡ some s
      → leb (threshold params.quantity) (available_quantity s) ≡ true
      → reserve_candidate c params (some (code, s)) db
        ≡ open_reservation c params
            (some (
              add_reserved c.now params.quantity s,
              alter stock_cell (stock_cell s) (add_reserved c.now params.quantity) db.stocks,
            ))
            db
  unfolding reserve_candidate
  candidate_taken code s row enough =
      let taken =
        update_of_find stock_cell (stock_cell s)
          (λ x. leb (threshold params.quantity) (available_quantity x))
          (add_reserved c.now params.quantity) db.stocks s row enough in
      rw taken refl

  -- A new reservation, under a current fence, of a positive quantity, and with a candidate.
  pub reserve_fresh-ok :
      0 < params.quantity
      → params.quantity ≤ i32_max
      → find slot_of c.slot db.reservations ≡ none
      → Distinct stock_cell db.stocks
      → is_empty (candidates db c.slot.tenant_id params.sku params.quantity db.stocks) ≡ false
      → (code : Text) × (s : Stock) × IsCandidate db c.slot.tenant_id params.sku params.quantity
          code s
        × (find stock_cell (stock_cell s) db.stocks ≡ some s)
        × (reserve_claim collate c params db
            ≡ ok (
              some (record {
                location_id = s.location_id;
                remaining = available_quantity s - params.quantity;
                status = "reserved";
              }),
              opened s,
            ))
  reserve_fresh-ok positive ranged absent distinct offered =
      let rows = candidates db c.slot.tenant_id params.sku params.quantity db.stocks in
      let own =
        candidates-rows db c.slot.tenant_id params.sku params.quantity
          (λ s. find stock_cell (stock_cell s) db.stocks ≡ some s) db.stocks
          (Distinct-find stock_cell db.stocks distinct) in
      let picked =
        first-row (λ p. find stock_cell (stock_cell p.1) db.stocks ≡ some p.1)
          (sort_by (by_code collate) rows) (sort_by-All (by_code collate) _ rows own)
          (rw (sort_by-is_empty (by_code collate) rows) offered) in
      let s = picked.0.1 in
      let which =
        candidate-of db c.slot.tenant_id params.sku params.quantity collate picked.0.0 s picked.1 in
      let enough : leb (threshold params.quantity) (available_quantity s) ≡ true =
        ground (arith, which.enough) in
      (
        picked.0.0,
        s,
        which,
        picked.2,
        claim_fresh absent
            ∙ fresh_candidate picked.0.0 s picked.1
            ∙ candidate_taken picked.0.0 s picked.2 enough
            ∙ open-ok s positive ranged absent,
      )
