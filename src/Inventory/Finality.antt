-- ===== src/Inventory/Finality.antt =====
-- The statements of services/inventory/src/infrastructure.rs at the row of a consumed reservation.
use parallax_telemetry_playg.Prelude.{
  ◌≡◌, subst, sym, ◌∙◌, inl, inr, Bool, true, false, some, List, Bool-cases, Result, Ensures,
}
use parallax_telemetry_playg.Table.{find, update, update-inv, find-alter_other}
use parallax_telemetry_playg.Inventory.Domain.{OperationError}
use parallax_telemetry_playg.Inventory.Schema.{
  Cell, Slot, slot_eq, slot_eq_iff, slot_Eq, cell_Eq, Stock, Reservation, slot_of, Db,
}
use parallax_telemetry_playg.Inventory.Statements.{update_reservation, update_both}
use parallax_telemetry_playg.Inventory.Ledger.{is_consumed}
use parallax_telemetry_playg.Inventory.Soundness.{IsEdit, update_reservation-inv, update_both-inv}

module _ (k : Slot) (x : Reservation) (done : is_consumed x.status ≡ true) where
  -- The row is in the tables as it was.
  abbrev pub HasRow : Db → Type 0
  HasRow db = find slot_of k db.reservations ≡ some x

  -- It is there after a successful transaction.
  abbrev pub Leaves {ℓ} : {A : Type ℓ} → Result OperationError (A × Db) → Type ℓ
  Leaves = Ensures (λ p. HasRow p.1)

  -- An update whose condition no consumed row meets.
  alter-HasRow :
      (j : Slot) (guard : Reservation → Bool) (g : Reservation → Reservation)
      (rs : List Reservation) {r : Reservation} {rs' : List Reservation}
      → IsEdit g
      → guard x ≡ false
      → update slot_of j guard g rs ≡ some (r, rs')
      → find slot_of k rs ≡ some x
      → find slot_of k rs' ≡ some x
  alter-HasRow j guard g rs edit barred h row =
      let (a, found, holds, _, moved) = update-inv slot_of j guard g rs h in
      elim (Bool-cases (slot_eq j k)) [
        | inr other ↦
            subst (λ l. find slot_of k l ≡ some x) (sym moved)
              (find-alter_other slot_of j g edit.same_slot k rs other ∙ row)
        | inl same ↦
            let at : j ≡ k = (slot_eq_iff j k).0 same in
            let own : find slot_of k rs ≡ some a =
              subst (λ i. find slot_of i rs ≡ some a) at found in
            let one : a ≡ x = cc (own, row) in
            absurd (clash (subst (λ y. guard y ≡ true) one holds) barred)
      ]
    where
      clash : {b : Bool} → b ≡ true → b ≡ false → ⊥
      clash h g = cc (h, g)

  pub update_reservation-Leaves :
      (j : Slot) (guard : Reservation → Bool) (g : Reservation → Reservation) (db : Db)
      → IsEdit g
      → guard x ≡ false
      → HasRow db
      → Leaves (update_reservation j guard g db)
  update_reservation-Leaves j guard g db edit barred row = record {
    at = λ p h.
        alter-HasRow j guard g db.reservations edit barred (update_reservation-inv j guard g db h).0
          row;
  }

  pub update_both-Leaves :
      (c : Cell) (stock_guard : Stock → Bool) (f : Stock → Stock) (e : OperationError) (j : Slot)
      (guard : Reservation → Bool) (g : Reservation → Reservation) (db : Db)
      → IsEdit g
      → guard x ≡ false
      → HasRow db
      → Leaves (update_both c stock_guard f e j guard g db)
  update_both-Leaves c stock_guard f e j guard g db edit barred row = record {
    at = λ p h.
        let (r, _, moved, _) = update_both-inv c stock_guard f e j guard g db h in
        alter-HasRow j guard g db.reservations edit barred moved row;
  }
