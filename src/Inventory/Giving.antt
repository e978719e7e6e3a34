-- ===== src/Inventory/Giving.antt =====
-- How `release` of services/inventory/src/infrastructure.rs gives the stock back, and the identity that
-- it compares.
use parallax_telemetry_playg.Prelude.{
  ℕ, ◌-◌, none, ap, text_eq_iff, min, ◌⊎◌, ◌≡◌, ◌≤◌, refl, true, inl, inr, some, Option, Text,
  is_text, text_eq_refl, leb, le→leb, ok, arith,
}
use parallax_telemetry_playg.Table.{find, alter, update_of_find}
use parallax_telemetry_playg.Inventory.Domain.{ReleaseOutcome, ledger_inconsistent}
use parallax_telemetry_playg.Inventory.Schema.{
  to_i32, slot_Eq, cell_Eq, Stock, stock_cell, Reservation, slot_of, cell_of, Db, drop_reserved,
}
use parallax_telemetry_playg.Inventory.Statements.{update_stock, update_reservation, update_both}
use parallax_telemetry_playg.Inventory.Reserve.{Claim, is_held_by}
use parallax_telemetry_playg.Inventory.Release.{matches_request, close, release_held}

-- The answer of a release that gives the stock back.
abbrev pub given : Reservation → Stock → Option ReleaseOutcome
given r s = some (record {
  location_id = r.location_id;
  released = r.quantity;
  reserved_remaining = s.reserved_quantity - r.quantity;
  available = s.on_hand_quantity - (s.reserved_quantity - r.quantity);
  status = "released";
})

-- A row `x` of the slot, as it is when the stock is given back; `r` is the row that was read.
module _ (c : Claim) (r x : Reservation) (s : Stock) (db : Db)
    (row : find slot_of c.slot db.reservations ≡ some x)
    (shelf : find stock_cell (cell_of r) db.stocks ≡ some s)
    (held : is_held_by c.request_id x ≡ true) (covered : r.quantity ≤ s.reserved_quantity) where
  abbrev pub returned : Db
  returned = record db {
    stocks = alter stock_cell (cell_of r) (drop_reserved c.now r.quantity) db.stocks;
    reservations = alter slot_of c.slot (close c) db.reservations;
  }

  both :
      update_both
        (cell_of r)
        (λ y. leb r.quantity y.reserved_quantity)
        (drop_reserved c.now r.quantity)
        ledger_inconsistent
        c.slot
        (is_held_by c.request_id)
        (close c)
        db
      ≡ ok (drop_reserved c.now r.quantity s, returned)
  unfolding update_both update_stock update_reservation
  both =
      let taken =
        update_of_find stock_cell (cell_of r) (λ y. leb r.quantity y.reserved_quantity)
          (drop_reserved c.now r.quantity) db.stocks s shelf
          (le→leb r.quantity s.reserved_quantity covered) in
      let ended =
        update_of_find slot_of c.slot (is_held_by c.request_id) (close c) db.reservations x row
          held in
      rw taken (rw ended refl)

  pub release_held-given : release_held c r db ≡ ok (given r s, returned)
  unfolding release_held drop_reserved
  release_held-given = rw both refl

pub is_text-some : (o : Option Text) (t : Text) → is_text o t ≡ true → o ≡ some t
is_text-some none t h = absurd (cc)
is_text-some (some a) t h = ap some ((text_eq_iff a t).0 h)

-- The identity that was reserved, with the quantity as i32 saturates it.
pub matches :
    (r : Reservation) (sku : Text) (quantity : ℕ) (location_id : Option Text)
    → r.sku ≡ sku
    → r.quantity ≡ min quantity 2_147_483_647
    → (location_id ≡ none) ⊎ (location_id ≡ some r.location_id)
    → matches_request r sku quantity location_id ≡ true
unfolding matches_request to_i32
matches r sku quantity location_id same counted (inl anywhere) =
    rw ((text_eq_iff r.sku sku).1 same, anywhere) (ground (arith, counted))
matches r sku quantity location_id same counted (inr there) =
    rw ((text_eq_iff r.sku sku).1 same, there, text_eq_refl r.location_id) (ground (arith, counted))
