-- ===== src/Inventory/Transitions.antt =====
-- The rows that the updates of the inventory service rewrite: a row of stock and its reservation.
use parallax_telemetry_playg.Prelude.{ℕ, ◌≤◌, ◌≡◌, refl, true, ◌&&◌, leb, Text, arith}
use parallax_telemetry_playg.Inventory.Schema.{
  Stock, stock_cell, available_quantity, reserved, released, consumed, is_reserved, is_released,
  Reservation, add_reserved, drop_reserved, ship,
}
use parallax_telemetry_playg.Inventory.Ledger.{held_amount, spent_amount}
use parallax_telemetry_playg.Inventory.Moves.{Balances}
use parallax_telemetry_playg.Inventory.Soundness.{IsEdit}
use parallax_telemetry_playg.Inventory.Reserve.{Claim, reuse, renew, is_held_by}
use parallax_telemetry_playg.Inventory.Release.{rebind, close}
use parallax_telemetry_playg.Inventory.Consume.{reopen, settle}
use parallax_telemetry_playg.Inventory.Reap.{expire}

module _ (c : Claim) where
  pub reuse-IsEdit : IsEdit (reuse c)
  unfolding reuse
  reuse-IsEdit = record { same_slot = λ r. refl; same_cell = λ r. refl; same_quantity = λ r. refl }

  pub renew-IsEdit : IsEdit (renew c)
  unfolding renew
  renew-IsEdit = record { same_slot = λ r. refl; same_cell = λ r. refl; same_quantity = λ r. refl }

  pub rebind-IsEdit : IsEdit (rebind c)
  unfolding rebind
  rebind-IsEdit = record { same_slot = λ r. refl; same_cell = λ r. refl; same_quantity = λ r. refl }

  pub close-IsEdit : IsEdit (close c)
  unfolding close
  close-IsEdit = record { same_slot = λ r. refl; same_cell = λ r. refl; same_quantity = λ r. refl }

  pub reopen-IsEdit : IsEdit (reopen c)
  unfolding reopen
  reopen-IsEdit = record { same_slot = λ r. refl; same_cell = λ r. refl; same_quantity = λ r. refl }

  pub settle-IsEdit : IsEdit (settle c)
  unfolding settle
  settle-IsEdit = record { same_slot = λ r. refl; same_cell = λ r. refl; same_quantity = λ r. refl }

pub expire-IsEdit : (now : ℕ) → IsEdit (expire now)
unfolding expire
expire-IsEdit now = record {
  same_slot = λ r. refl;
  same_cell = λ r. refl;
  same_quantity = λ r. refl;
}

module _ (now q : ℕ) (s : Stock) where
  pub add_reserved-cell : stock_cell (add_reserved now q s) ≡ stock_cell s
  unfolding add_reserved
  add_reserved-cell = refl

  pub drop_reserved-cell : stock_cell (drop_reserved now q s) ≡ stock_cell s
  unfolding drop_reserved
  drop_reserved-cell = refl

  pub ship-cell : stock_cell (ship now q s) ≡ stock_cell s
  unfolding ship
  ship-cell = refl

module _ (now q : ℕ) (g : Reservation → Reservation) (edit : IsEdit g) (x : Reservation) (s : Stock)
    (amount : x.quantity ≡ q) (fits : s.reserved_quantity ≤ s.on_hand_quantity) where
  -- A released reservation is opened again over stock that is available.
  pub add-Balances :
      (g x).status ≡ reserved
      → is_released x.status ≡ true
      → leb q (available_quantity s) ≡ true
      → Balances (add_reserved now q) g s x
  unfolding add_reserved
  add-Balances to from enough = ground (arith, edit.same_quantity x)

  -- An open reservation is released.
  pub drop-Balances :
      (g x).status ≡ released
      → is_reserved x.status ≡ true
      → leb q s.reserved_quantity ≡ true
      → Balances (drop_reserved now q) g s x
  unfolding drop_reserved
  drop-Balances to from enough = ground (arith, edit.same_quantity x)

  -- An open reservation is consumed.
  pub ship-Balances :
      (g x).status ≡ consumed
      → is_reserved x.status ≡ true
      → (leb q s.on_hand_quantity && leb q s.reserved_quantity) ≡ true
      → Balances (ship now q) g s x
  unfolding ship
  ship-Balances to from enough = ground (arith, edit.same_quantity x)

-- An open reservation stays open, for the same quantity.
pub touch-amounts :
    (g : Reservation → Reservation)
    → IsEdit g
    → (x : Reservation) → (g x).status ≡ x.status
    → (held_amount (g x) ≡ held_amount x) × (spent_amount (g x) ≡ spent_amount x)
touch-amounts g edit x same = ground (arith, edit.same_quantity x)

-- `status='reserved' AND owner_request_id=$n` names an open reservation.
pub is_held_by-inv :
    (request_id : Text) (x : Reservation)
    → is_held_by request_id x ≡ true
    → is_reserved x.status ≡ true
is_held_by-inv request_id x h = ground arith
