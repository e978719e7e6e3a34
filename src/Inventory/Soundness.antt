-- ===== src/Inventory/Soundness.antt =====
-- The pairs of statements that the operations share, against the ledger and the reservation that
-- an operation has read.
use parallax_telemetry_playg.Prelude.{
  ℕ, ◌≤◌, ◌≡◌, subst, sym, ◌∙◌, Bool, true, inl, inr, Bool-cases, some, List, arith, ok, Ensures,
  Ensures-ok, Ensures-bind, ok_or-inv, >>=-eq-ok,
}
use parallax_telemetry_playg.Table.{
  find, alter, update, update-inv, find-alter_self, find-alter_other,
}
use parallax_telemetry_playg.Inventory.Domain.{OperationError, reservation_changed}
use parallax_telemetry_playg.Inventory.Schema.{
  Cell, Slot, slot_eq, slot_eq_iff, cell_Eq, slot_Eq, Stock, stock_cell, Reservation, slot_of,
  cell_of, Db,
}
use parallax_telemetry_playg.Inventory.Statements.{update_stock, update_reservation, update_both}
use parallax_telemetry_playg.Inventory.Ledger.{Ledger, held_amount, spent_amount}
use parallax_telemetry_playg.Inventory.Moves.{Balances, Ledger-update, Ledger-touch}

-- An update leaves the key of a reservation, its cell and its quantity alone.
pub record IsEdit (g : Reservation → Reservation) : Type 0 where
  pub same_slot : (r : Reservation) → slot_of (g r) ≡ slot_of r
  pub same_cell : (r : Reservation) → cell_of (g r) ≡ cell_of r
  pub same_quantity : (r : Reservation) → (g r).quantity ≡ r.quantity

-- The reservation of the slot has the cell and the quantity that were read as `r`.
pub record Holding (k : Slot) (r : Reservation) (db : Db) : Type 0 where
  pub current : Reservation
  pub row : find slot_of k db.reservations ≡ some current
  pub same_cell : cell_of current ≡ cell_of r
  pub same_quantity : current.quantity ≡ r.quantity

pub record Sound (base supply : Cell → ℕ) (k : Slot) (r : Reservation) (db : Db) : Type 0 where
  pub ledger : Ledger base supply db
  pub holding : Holding k r db

module _ (c : Cell) (guard : Stock → Bool) (f : Stock → Stock) (e : OperationError) (db : Db) where
  -- What a successful update of the stock has done.
  pub update_stock-inv :
      {s : Stock} {db' : Db}
      → update_stock c guard f e db ≡ ok (s, db')
      → (update stock_cell c guard f db.stocks ≡ some (s, db'.stocks))
        × (db' ≡ record db { stocks = db'.stocks })
  unfolding update_stock
  update_stock-inv h = ground arith

module _ (k : Slot) (guard : Reservation → Bool) (g : Reservation → Reservation) (db : Db) where
  pub update_reservation-inv :
      {r : Reservation} {db' : Db}
      → update_reservation k guard g db ≡ ok (r, db')
      → (update slot_of k guard g db.reservations ≡ some (r, db'.reservations))
        × (db' ≡ record db { reservations = db'.reservations })
  unfolding update_reservation
  update_reservation-inv h = ground arith

-- What a successful pair of updates has done.
pub update_both-inv :
    (c : Cell) (stock_guard : Stock → Bool) (f : Stock → Stock) (e : OperationError) (k : Slot)
    (guard : Reservation → Bool) (g : Reservation → Reservation) (db : Db) {s : Stock} {db' : Db}
    → update_both c stock_guard f e k guard g db ≡ ok (s, db')
    → (r : Reservation) × (update stock_cell c stock_guard f db.stocks ≡ some (s, db'.stocks))
      × (update slot_of k guard g db.reservations ≡ some (r, db'.reservations))
      × (db' ≡ record db { stocks = db'.stocks; reservations = db'.reservations })
unfolding update_both
update_both-inv c stock_guard f e k guard g db h =
    let ((s₁, db₁), e₁, h₁) = >>=-eq-ok (update_stock c stock_guard f e db) _ h in
    let ((r, db₂), e₂, h₂) = >>=-eq-ok (update_reservation k guard g db₁) _ h₁ in
    let i₁ = update_stock-inv c stock_guard f e db e₁ in
    let i₂ = update_reservation-inv k guard g db₁ e₂ in
    (r, ground (arith, i₁, i₂, h₂), ground (arith, i₁, i₂, h₂), ground (arith, i₁, i₂, h₂))

module _ {k : Slot} {r : Reservation} (g : Reservation → Reservation) (edit : IsEdit g) where
  pub Holding-alter :
      (db : Db) (stocks : List Stock)
      → Holding k r db
      → Holding k r
          (record db { stocks = stocks; reservations = alter slot_of k g db.reservations })
  Holding-alter db stocks h = record {
    current = g h.current;
    row = find-alter_self slot_of k g edit.same_slot db.reservations h.row;
    same_cell = edit.same_cell h.current ∙ h.same_cell;
    same_quantity = edit.same_quantity h.current ∙ h.same_quantity;
  }

module _ (base supply : Cell → ℕ) (k : Slot) (r : Reservation) (g : Reservation → Reservation)
    (edit : IsEdit g) where
  pub update_reservation-Sound :
      (guard : Reservation → Bool) (db : Db)
      → Sound base supply k r db
      → ((x : Reservation)
          → guard x ≡ true
          → (held_amount (g x) ≡ held_amount x) × (spent_amount (g x) ≡ spent_amount x))
      → Ensures (λ p. Sound base supply k r p.1) (update_reservation k guard g db)
  unfolding update_reservation
  update_reservation-Sound guard db v same = Ensures-bind _ _ λ (r', reservations) e.
      let done = ok_or-inv reservation_changed (update slot_of k guard g db.reservations) e in
      let (x, _, _, _, rs_eq) = update-inv slot_of k guard g db.reservations done in
      Ensures-ok _ (record {
        ledger =
            Ledger-touch v.ledger k v.holding.current guard g v.holding.row edit.same_slot
              (edit.same_cell _) done (same v.holding.current);
        holding = rw rs_eq (Holding-alter g edit db db.stocks v.holding);
      })

  pub update_both-Sound :
      (stock_guard : Stock → Bool) (f : Stock → Stock) (e : OperationError)
      (guard : Reservation → Bool) (db : Db)
      → Sound base supply k r db
      → ((s : Stock) → stock_cell (f s) ≡ stock_cell s)
      → ((x : Reservation) (s : Stock)
          → x.quantity ≡ r.quantity
          → stock_guard s ≡ true
          → s.reserved_quantity ≤ s.on_hand_quantity
          → guard x ≡ true
          → Balances f g s x)
      → Ensures
          (λ p. Sound base supply k r p.1)
          (update_both (cell_of r) stock_guard f e k guard g db)
  unfolding update_both
  update_both-Sound stock_guard f e guard db v same_stock balances = record {
    at = λ (s, db'') h.
        let (r', stock_done, done, tables) =
          update_both-inv (cell_of r) stock_guard f e k guard g db h in
        let h' = v.holding in
        let at_cell =
          subst (λ c. update stock_cell c stock_guard f db.stocks ≡ some (s, db''.stocks))
            (sym h'.same_cell) stock_done in
        let (x, _, _, _, rs_eq) = update-inv slot_of k guard g db.reservations done in
        let ledger =
          Ledger-update v.ledger k h'.current stock_guard f guard g h'.row same_stock edit.same_slot
            (edit.same_cell h'.current) at_cell done
            (λ s. balances h'.current s h'.same_quantity) in
        let held = Holding-alter g edit db db''.stocks h' in
        rw tables (record { ledger = ledger; holding = rw rs_eq held });
  }

-- A reservation that was read stays in place when any reservation is rewritten.
pub Holding-update :
    (k j : Slot) (r : Reservation) (g : Reservation → Reservation)
    → IsEdit g
    → (db : Db) (stocks : List Stock) → Holding k r db
    → Holding k r (record db { stocks = stocks; reservations = alter slot_of j g db.reservations })
Holding-update k j r g edit db stocks h = elim (Bool-cases (slot_eq j k)) [
  | inl here ↦
      let same : k ≡ j = sym ((slot_eq_iff j k).0 here) in
      subst
        (λ i.
          Holding k r
            (record db { stocks = stocks; reservations = alter slot_of i g db.reservations }))
        same (Holding-alter g edit db stocks h)
  | inr away ↦ record {
    current = h.current;
    row = find-alter_other slot_of j g edit.same_slot k db.reservations away ∙ h.row;
    same_cell = h.same_cell;
    same_quantity = h.same_quantity;
  }
]
