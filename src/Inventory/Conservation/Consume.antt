-- ===== src/Inventory/Conservation/Consume.antt =====
-- The stock ledger under `consume`.
use parallax_telemetry_playg.Prelude.{
  ℕ, ◌+◌, refl, not, ◌&&◌, List, [], ◌∷◌, Text, is_text, leb, Ensures-ok, Ensures-err, Ensures-if,
  Ensures-bind, Ensures-ensure, Ensures-option, arith, sort_by,
}
use parallax_telemetry_playg.Inventory.Domain.{ConsumeReservation, ConsumeBody, ledger_inconsistent}
use parallax_telemetry_playg.Inventory.Schema.{
  Cell, HoldStatus, reserved, released, consumed, unknown, Reservation, cell_of, Db, find_joined,
  ship,
}
use parallax_telemetry_playg.Inventory.Statements.{update_both}
use parallax_telemetry_playg.Inventory.Ledger.{Ledger}
use parallax_telemetry_playg.Inventory.Soundness.{Sound, update_both-Sound}
use parallax_telemetry_playg.Inventory.Transitions.{
  reopen-IsEdit, settle-IsEdit, add_reserved-cell, ship-cell, add-Balances, ship-Balances,
  is_held_by-inv,
}
use parallax_telemetry_playg.Inventory.Fence.{require_fence}
use parallax_telemetry_playg.Inventory.Reserve.{Claim, is_held_by}
use parallax_telemetry_playg.Inventory.Release.{matches_request}
use parallax_telemetry_playg.Inventory.Consume.{
  reopen, settle, recover, refresh, take_out, consume_by_status, consume_existing, consume_item,
  item_claim, consume_items, consume, u32_max, by_id, consume_outcome,
}
use parallax_telemetry_playg.Inventory.Conservation.Shared.{
  Conserves, Keeps, Sound-read, renew-Sound, rebind-Sound,
}

module _ (base supply : Cell → ℕ) where
  module _ (c : Claim) (r : Reservation) where
    recover-Sound :
        (db : Db) → Sound base supply c.slot r db → Keeps base supply c.slot r (recover c r db)
    unfolding recover reopen
    recover-Sound db v =
        update_both-Sound base supply c.slot r (reopen c) (reopen-IsEdit c) _ _ _ _ db v
          (add_reserved-cell c.now r.quantity)
          λ x s amount enough fits free.
            add-Balances c.now r.quantity (reopen c) (reopen-IsEdit c) x s amount fits refl
              (ground arith) enough

    refresh-Sound :
        (db : Db) → Sound base supply c.slot r db → Keeps base supply c.slot r (refresh c r db)
    unfolding refresh
    refresh-Sound db v =
        Ensures-if (leb r.expires_at c.now) _ _ (λ _. renew-Sound base supply c r db v)
          (λ _.
            Ensures-if (not (is_text r.owner_lease_token c.lease_token)) _ _
              (λ _. rebind-Sound base supply c r db v) (λ _. Ensures-ok _ v))

    settle-Sound :
        (db : Db)
        → Sound base supply c.slot r db
        → Keeps base supply c.slot r (
            update_both
              (cell_of r)
              (λ s. leb r.quantity s.on_hand_quantity && leb r.quantity s.reserved_quantity)
              (ship c.now r.quantity)
              ledger_inconsistent
              c.slot
              (is_held_by c.request_id)
              (settle c)
              db)
    unfolding settle
    settle-Sound db v =
        update_both-Sound base supply c.slot r (settle c) (settle-IsEdit c) _ _ _ _ db v
          (ship-cell c.now r.quantity)
          λ x s amount enough fits held.
            ship-Balances c.now r.quantity (settle c) (settle-IsEdit c) x s amount fits refl
              (is_held_by-inv c.request_id x held) enough

    take_out-Conserves :
        (db : Db) → Sound base supply c.slot r db → Conserves base supply (take_out c r db)
    unfolding take_out
    take_out-Conserves db v =
        Ensures-bind _ _ λ (s, db') e. Ensures-ok _ ((settle-Sound db v).at (s, db') e).ledger

    consume_by_status-Conserves :
        (status : HoldStatus) (db : Db)
        → Sound base supply c.slot r db
        → Conserves base supply (consume_by_status status c r db)
    unfolding consume_by_status
    consume_by_status-Conserves consumed db v =
        Ensures-if (is_text r.owner_request_id c.request_id) _ _ (λ _. Ensures-ok _ v.ledger)
          (λ _. Ensures-err _)
    consume_by_status-Conserves released db v =
        Ensures-bind (recover c r db) _
          λ (s, db') e. take_out-Conserves db' ((recover-Sound db v).at (s, db') e)
    consume_by_status-Conserves reserved db v =
        Ensures-bind (refresh c r db) _
          λ (x, db') e. take_out-Conserves db' ((refresh-Sound db v).at (x, db') e)
    consume_by_status-Conserves (unknown t) db v = Ensures-err _

    consume_existing-Conserves :
        (item : ConsumeReservation) (db : Db)
        → Sound base supply c.slot r db
        → Conserves base supply (consume_existing c item r db)
    unfolding consume_existing
    consume_existing-Conserves item db v =
        Ensures-ensure (matches_request r item.sku item.quantity item.location_id) _ _ λ _.
          Ensures-ensure (is_text r.owner_request_id c.request_id) _ _
            λ _. consume_by_status-Conserves r.status db v

  consume_item-Conserves :
      (c : Claim) (item : ConsumeReservation) (db : Db)
      → Ledger base supply db
      → Conserves base supply (consume_item c item db)
  unfolding consume_item
  consume_item-Conserves c item db v =
      Ensures-option (find_joined c.slot db) _ _ (λ _. Ensures-err _)
        λ (r, s) found.
          consume_existing-Conserves c r item db (Sound-read base supply c.slot r s db v found)

  consume_items-Conserves :
      (now : ℕ) (tenant_id : Text) (fence : Text × Text) (total : ℕ)
      (items : List ConsumeReservation) (db : Db)
      → Ledger base supply db
      → Conserves base supply (consume_items now tenant_id fence total items db)
  unfolding consume_items
  consume_items-Conserves now tenant_id fence total [] db v = Ensures-ok _ v
  consume_items-Conserves now tenant_id fence total (item ∷ items) db v =
      Ensures-bind (consume_item (item_claim now tenant_id fence item) item db) _ λ (q, db') e.
        Ensures-ensure (leb (total + q) u32_max) _ _ λ _.
          consume_items-Conserves now tenant_id fence (total + q) items db'
            ((consume_item-Conserves (item_claim now tenant_id fence item) item db v).at (q, db') e)

  -- A successful consume, of however many reservations and on whichever branches, leaves the
  -- stock ledger as it was: every row of stock has reserved what the open reservations of its
  -- cell hold, with the same surplus as before, and on hand what was supplied less what the
  -- consumed ones took, and nothing is reserved beyond what is on hand.
  pub consume-Conserves :
      (now : ℕ) (body : ConsumeBody) (db : Db)
      → Ledger base supply db
      → Conserves base supply (consume now body db)
  unfolding consume
  consume-Conserves now body db v =
      let items = sort_by by_id body.reservations in
      Ensures-bind
        (require_fence now db body.tenant_id body.checkout_request_id body.checkout_lease_token) _
        λ fence _.
          Ensures-bind (consume_items now body.tenant_id fence 0 items db) _ λ (total, db') e.
            Ensures-ok (consume_outcome total, db')
              ((consume_items-Conserves now body.tenant_id fence 0 items db v).at (total, db') e)
