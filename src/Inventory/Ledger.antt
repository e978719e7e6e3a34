-- ===== src/Inventory/Ledger.antt =====
-- The stock ledger: for every cell of the inventory, what is reserved and what is on hand against
-- the reservations that are open and consumed.
use parallax_telemetry_playg.Prelude.{
  ℕ, ◌+◌, ◌≤◌, ◌≡◌, refl, inl, inr, Bool, true, false, some, List, if◌then◌else◌, Bool-cases,
  sum_by, arith,
}
use parallax_telemetry_playg.Table.{
  find, alter, find-alter_self, find-alter_other, sum_by-alter, Distinct, Distinct-alter,
}
use parallax_telemetry_playg.Inventory.Schema.{
  Cell, Slot, cell_eq, cell_eq_iff, cell_Eq, slot_Eq, Stock, stock_cell, HoldStatus, consumed,
  is_reserved, Reservation, slot_of, cell_of, Db,
}

abbrev pub is_consumed : HoldStatus → Bool
is_consumed consumed = true
is_consumed _ = false

-- What a reservation holds, and what it has taken out of the stock.
abbrev pub held_amount : Reservation → ℕ
held_amount r = if is_reserved r.status then r.quantity else 0

abbrev pub spent_amount : Reservation → ℕ
spent_amount r = if is_consumed r.status then r.quantity else 0

abbrev pub at_cell : (Reservation → ℕ) → Cell → Reservation → ℕ
at_cell w c r = if cell_eq (cell_of r) c then w r else 0

abbrev pub held : Cell → List Reservation → ℕ
held c = sum_by (at_cell held_amount c)

abbrev pub spent : Cell → List Reservation → ℕ
spent c = sum_by (at_cell spent_amount c)

-- The reservations have distinct keys. `base c` is reserved at the cell by others than reservations, such as the seeded rows;
-- `supply c` is what was ever on hand there.
pub record Ledger (base supply : Cell → ℕ) (db : Db) : Type 0 where
  pub distinct : Distinct slot_of db.reservations
  pub reserved_covers :
      (c : Cell) (s : Stock)
      → find stock_cell c db.stocks ≡ some s
      → s.reserved_quantity ≡ base c + held c db.reservations
  pub on_hand_covers :
      (c : Cell) (s : Stock)
      → find stock_cell c db.stocks ≡ some s
      → s.on_hand_quantity + spent c db.reservations ≡ supply c
  pub within :
      (c : Cell) (s : Stock)
      → find stock_cell c db.stocks ≡ some s
      → s.reserved_quantity ≤ s.on_hand_quantity

-- How the total of one cell moves when one reservation is rewritten in place.
module _ (k : Slot) (g : Reservation → Reservation) (w : Reservation → ℕ) (rs : List Reservation)
    (r : Reservation) (row : find slot_of k rs ≡ some r)
    (same_cell : cell_of (g r) ≡ cell_of r) where
  total_here :
      (c : Cell)
      → cell_eq (cell_of r) c ≡ true
      → sum_by (at_cell w c) (alter slot_of k g rs) + w r ≡ sum_by (at_cell w c) rs + w (g r)
  total_here c here =
      let moved = sum_by-alter slot_of k g (at_cell w c) rs row in
      ground (arith, moved, same_cell, here)

  total_elsewhere :
      (c : Cell)
      → cell_eq (cell_of r) c ≡ false
      → sum_by (at_cell w c) (alter slot_of k g rs) ≡ sum_by (at_cell w c) rs
  total_elsewhere c away =
      let moved = sum_by-alter slot_of k g (at_cell w c) rs row in
      ground (arith, moved, same_cell, away)

  pub total_same :
      w (g r) ≡ w r
      → (c : Cell) → sum_by (at_cell w c) (alter slot_of k g rs) ≡ sum_by (at_cell w c) rs
  total_same same c = elim (Bool-cases (cell_eq (cell_of r) c)) [
    | inl here ↦ omega (arith, total_here c here, same)
    | inr away ↦ total_elsewhere c away
  ]

-- A row of stock and a reservation of its cell, rewritten together, keep the ledger if the two
-- rows balance.
module _ {base supply : Cell → ℕ} {db : Db} (v : Ledger base supply db) (k : Slot) (r : Reservation)
    (row : find slot_of k db.reservations ≡ some r) (f : Stock → Stock)
    (g : Reservation → Reservation) (same_stock : (s : Stock) → stock_cell (f s) ≡ stock_cell s)
    (same_slot : (x : Reservation) → slot_of (g x) ≡ slot_of x)
    (same_cell : cell_of (g r) ≡ cell_of r) (s : Stock)
    (stock_row : find stock_cell (cell_of r) db.stocks ≡ some s)
    (reserved_balance : (f s).reserved_quantity + held_amount r
      ≡ s.reserved_quantity + held_amount (g r))
    (on_hand_balance : (f s).on_hand_quantity + spent_amount (g r)
      ≡ s.on_hand_quantity + spent_amount r)
    (fits : (f s).reserved_quantity ≤ (f s).on_hand_quantity) where
  abbrev moved : Db
  moved = record db {
    stocks = alter stock_cell (cell_of r) f db.stocks;
    reservations = alter slot_of k g db.reservations;
  }

  Covered : Cell → Stock → Type 0
  Covered c t =
      (t.reserved_quantity ≡ base c + held c moved.reservations)
      × (t.on_hand_quantity + spent c moved.reservations ≡ supply c)
      × (t.reserved_quantity ≤ t.on_hand_quantity)

  Covered-here : Covered (cell_of r) (f s)
  unfolding Covered
  Covered-here =
      let here = (cell_eq_iff (cell_of r) (cell_of r)).1 refl in
      omega (
        arith,
        v.reserved_covers (cell_of r) s stock_row,
        v.on_hand_covers (cell_of r) s stock_row,
        total_here k g held_amount db.reservations r row same_cell (cell_of r) here,
        total_here k g spent_amount db.reservations r row same_cell (cell_of r) here,
      )

  covered : (c : Cell) (t : Stock) → find stock_cell c moved.stocks ≡ some t → Covered c t
  unfolding Covered
  covered c t found = elim (Bool-cases (cell_eq (cell_of r) c)) [
    | inl here ↦
        let at_c : cell_of r ≡ c = (cell_eq_iff (cell_of r) c).0 here in
        let same : f s ≡ t =
          cc (
            found,
            find-alter_self stock_cell (cell_of r) f same_stock db.stocks stock_row,
            at_c,
          ) in
        rw (← same, ← at_c) Covered-here
    | inr away ↦
        let old : find stock_cell c db.stocks ≡ some t =
          cc (found, find-alter_other stock_cell (cell_of r) f same_stock c db.stocks away) in
        rw
          (
            total_elsewhere k g held_amount db.reservations r row same_cell c away,
            total_elsewhere k g spent_amount db.reservations r row same_cell c away,
          )
          (v.reserved_covers c t old, v.on_hand_covers c t old, v.within c t old)
  ]

  pub Ledger-move : Ledger base supply moved
  unfolding Covered
  Ledger-move = record {
    distinct = Distinct-alter slot_of k g same_slot db.reservations v.distinct;
    reserved_covers = λ c t found. (covered c t found).0;
    on_hand_covers = λ c t found. (covered c t found).1;
    within = λ c t found. (covered c t found).2;
  }
