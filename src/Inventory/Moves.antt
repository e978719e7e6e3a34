-- ===== src/Inventory/Moves.antt =====
-- The statements of the inventory service, each against the stock ledger.
use parallax_telemetry_playg.Prelude.{
  ℕ, ◌+◌, ◌≤◌, ◌≡◌, subst, inl, inr, Bool, true, none, some, List, ◌∷◌, Bool-cases, arith,
}
use parallax_telemetry_playg.Table.{
  find, alter, update, insert, update-inv, insert-inv, find-alter_self, find-alter_other,
  Distinct-alter, Distinct-insert,
}
use parallax_telemetry_playg.Inventory.Schema.{
  Cell, Slot, cell_eq, cell_eq_iff, cell_Eq, slot_Eq, Stock, stock_cell, Reservation, slot_of,
  cell_of, Db,
}
use parallax_telemetry_playg.Inventory.Ledger.{
  Ledger, held, spent, held_amount, spent_amount, total_same, Ledger-move,
}

-- The stock row and the reservation give and take the same.
abbrev pub Balances : (Stock → Stock) → (Reservation → Reservation) → Stock → Reservation → Type 0
Balances f g s r =
    ((f s).reserved_quantity + held_amount r ≡ s.reserved_quantity + held_amount (g r))
    × ((f s).on_hand_quantity + spent_amount (g r) ≡ s.on_hand_quantity + spent_amount r)
    × ((f s).reserved_quantity ≤ (f s).on_hand_quantity)

module _ {base supply : Cell → ℕ} {db : Db} (v : Ledger base supply db) where
  -- `UPDATE inventory` and then `UPDATE inventory_reservations`.
  pub Ledger-update :
      (k : Slot) (r : Reservation) (stock_guard : Stock → Bool) (f : Stock → Stock)
      (guard : Reservation → Bool) (g : Reservation → Reservation) {s' : Stock} {r' : Reservation}
      {stocks : List Stock} {reservations : List Reservation}
      → find slot_of k db.reservations ≡ some r
      → ((s : Stock) → stock_cell (f s) ≡ stock_cell s)
      → ((x : Reservation) → slot_of (g x) ≡ slot_of x)
      → cell_of (g r) ≡ cell_of r
      → update stock_cell (cell_of r) stock_guard f db.stocks ≡ some (s', stocks)
      → update slot_of k guard g db.reservations ≡ some (r', reservations)
      → ((s : Stock)
          → stock_guard s ≡ true
          → s.reserved_quantity ≤ s.on_hand_quantity
          → guard r ≡ true
          → Balances f g s r)
      → Ledger base supply (record db { stocks = stocks; reservations = reservations })
  Ledger-update k r stock_guard f guard g row same_stock same_slot same_cell e e' balances =
      let (s, stock_row, stock_ok, _, stocks_eq) =
        update-inv stock_cell (cell_of r) stock_guard f db.stocks e in
      let (x, row', guard_ok, _, rs_eq) = update-inv slot_of k guard g db.reservations e' in
      let same : x ≡ r = cc in
      let b =
        balances s stock_ok (v.within (cell_of r) s stock_row)
          (subst (λ y. guard y ≡ true) same guard_ok) in
      rw (stocks_eq, rs_eq)
        (Ledger-move v k r row f g same_stock same_slot same_cell s stock_row b.0 b.1 b.2)

  -- `UPDATE inventory_reservations` that leaves the amounts of the reservation alone.
  pub Ledger-touch :
      (k : Slot) (r : Reservation) (guard : Reservation → Bool) (g : Reservation → Reservation)
      {r' : Reservation} {reservations : List Reservation}
      → find slot_of k db.reservations ≡ some r
      → ((x : Reservation) → slot_of (g x) ≡ slot_of x)
      → cell_of (g r) ≡ cell_of r
      → update slot_of k guard g db.reservations ≡ some (r', reservations)
      → (guard r ≡ true
          → (held_amount (g r) ≡ held_amount r) × (spent_amount (g r) ≡ spent_amount r))
      → Ledger base supply (record db { reservations = reservations })
  Ledger-touch k r guard g row same_slot same_cell e same =
      let (x, row', guard_ok, _, rs_eq) = update-inv slot_of k guard g db.reservations e in
      let found : x ≡ r = cc in
      let amounts = same (subst (λ y. guard y ≡ true) found guard_ok) in
      let held_same = total_same k g held_amount db.reservations r row same_cell amounts.0 in
      let spent_same = total_same k g spent_amount db.reservations r row same_cell amounts.1 in
      rw rs_eq (record {
        distinct = Distinct-alter slot_of k g same_slot db.reservations v.distinct;
        reserved_covers = λ c s here. rw (held_same c) (v.reserved_covers c s here);
        on_hand_covers = λ c s here. rw (spent_same c) (v.on_hand_covers c s here);
        within = v.within;
      })

  module _ (c : Cell) (f : Stock → Stock) (r : Reservation)
      (same_stock : (s : Stock) → stock_cell (f s) ≡ stock_cell s) (at_c : cell_of r ≡ c)
      (new : find slot_of (slot_of r) db.reservations ≡ none) (s : Stock)
      (row : find stock_cell c db.stocks ≡ some s)
      (reserved_balance : (f s).reserved_quantity ≡ s.reserved_quantity + held_amount r)
      (on_hand_balance : (f s).on_hand_quantity + spent_amount r ≡ s.on_hand_quantity)
      (fits : (f s).reserved_quantity ≤ (f s).on_hand_quantity) where
    Opened : Cell → Stock → Type 0
    Opened d t =
        (t.reserved_quantity ≡ base d + held d (r ∷ db.reservations))
        × (t.on_hand_quantity + spent d (r ∷ db.reservations) ≡ supply d)
        × (t.reserved_quantity ≤ t.on_hand_quantity)

    Opened-here : Opened c (f s)
    unfolding Opened
    Opened-here = ground (
      arith,
      at_c,
      cell_eq_iff (cell_of r) c,
      v.reserved_covers c s row,
      v.on_hand_covers c s row,
    )

    Opened-at :
        (d : Cell) (t : Stock)
        → find stock_cell d (alter stock_cell c f db.stocks) ≡ some t
        → Opened d t
    unfolding Opened
    Opened-at d t found = elim (Bool-cases (cell_eq c d)) [
      | inl here ↦
          let at_d : c ≡ d = (cell_eq_iff c d).0 here in
          let same : f s ≡ t =
            cc (found, find-alter_self stock_cell c f same_stock db.stocks row, at_d) in
          subst (λ x. Opened x t) at_d (subst (Opened c) same Opened-here)
      | inr away ↦
          let old : find stock_cell d db.stocks ≡ some t =
            cc (found, find-alter_other stock_cell c f same_stock d db.stocks away) in
          rw (at_c, away)
            (omega (arith, v.reserved_covers d t old, v.on_hand_covers d t old, v.within d t old))
    ]

    opened :
        Ledger base supply (record db {
          stocks = alter stock_cell c f db.stocks;
          reservations = r ∷ db.reservations;
        })
    unfolding Opened
    opened = record {
      distinct = Distinct-insert slot_of r db.reservations new v.distinct;
      reserved_covers = λ d t found. (Opened-at d t found).0;
      on_hand_covers = λ d t found. (Opened-at d t found).1;
      within = λ d t found. (Opened-at d t found).2;
    }

  -- `UPDATE inventory` and then `INSERT INTO inventory_reservations`.
  pub Ledger-open :
      (c : Cell) (stock_guard : Stock → Bool) (f : Stock → Stock) (r : Reservation) {s' : Stock}
      {stocks : List Stock} {reservations : List Reservation}
      → ((s : Stock) → stock_cell (f s) ≡ stock_cell s)
      → cell_of r ≡ c
      → update stock_cell c stock_guard f db.stocks ≡ some (s', stocks)
      → insert slot_of r db.reservations ≡ some reservations
      → ((s : Stock)
          → stock_guard s ≡ true
          → s.reserved_quantity ≤ s.on_hand_quantity
          → ((f s).reserved_quantity ≡ s.reserved_quantity + held_amount r)
            × ((f s).on_hand_quantity + spent_amount r ≡ s.on_hand_quantity)
            × ((f s).reserved_quantity ≤ (f s).on_hand_quantity))
      → Ledger base supply (record db { stocks = stocks; reservations = reservations })
  Ledger-open c stock_guard f r same_stock at_c e e' balances =
      let (s, stock_row, stock_ok, _, stocks_eq) =
        update-inv stock_cell c stock_guard f db.stocks e in
      let b = balances s stock_ok (v.within c s stock_row) in
      let (new, rs_eq) = insert-inv slot_of r db.reservations e' in
      rw (stocks_eq, rs_eq) (opened c f r same_stock at_c new s stock_row b.0 b.1 b.2)
