-- ===== src/Inventory/Untouched.antt =====
-- The row of a consumed reservation, operation by operation.
use parallax_telemetry_playg.Prelude.{
  ℕ, ◌≡◌, refl, subst, sym, true, false, not, ◌&&◌, ◌||◌, Option, none, some, List, ◌∷◌, Text, leb,
  ltb, ◌>>=◌, Ensures-ok, Ensures-err, Ensures-if, Ensures-bind, Ensures-ensure, is_text, arith,
  ok_or-inv,
}
use parallax_telemetry_playg.Table.{find, insert-inv, find-behind}
use parallax_telemetry_playg.Inventory.Domain.{ReserveQuery, constraint_violation}
use parallax_telemetry_playg.Inventory.Schema.{
  Slot, slot_Eq, cell_Eq, Stock, HoldStatus, reserved, released, consumed, unknown, is_reserved,
  is_released, Reservation, slot_of, Db, Tx, i32_max,
}
use parallax_telemetry_playg.Inventory.Ledger.{is_consumed}
use parallax_telemetry_playg.Inventory.Finality.{
  HasRow, Leaves, update_reservation-Leaves, update_both-Leaves,
}
use parallax_telemetry_playg.Inventory.Transitions.{
  reuse-IsEdit, renew-IsEdit, rebind-IsEdit, close-IsEdit, reopen-IsEdit, settle-IsEdit,
}
use parallax_telemetry_playg.Inventory.Reserve.{
  Claim, reuse, renew, is_held_by, reserve_released, reserve_reserved, reserve_by_status, fresh,
  open_reservation,
}
use parallax_telemetry_playg.Inventory.Release.{
  rebind, rebind_token, close, release_held, release_by_status,
}
use parallax_telemetry_playg.Inventory.Consume.{
  reopen, recover, refresh, settle, take_out, consume_by_status,
}
use parallax_telemetry_playg.Inventory.Reap.{is_expired}

module _ (k : Slot) (x : Reservation) (done : is_consumed x.status ≡ true) where
  not_held : (request_id : Text) → is_held_by request_id x ≡ false
  not_held request_id = ground (arith, done)

  not_released : is_released x.status ≡ false
  not_released = ground (arith, done)

  pub not_expired : (now : ℕ) → is_expired now x ≡ false
  not_expired now = ground (arith, done)

  pub Leaves-bind :
      {A B : Type 0} (m : Tx A) (f : A × Db → Tx B)
      → Leaves k x done m
      → ((a : A) (db : Db) → HasRow k x done db → Leaves k x done (f (a, db)))
      → Leaves k x done (m >>= f)
  Leaves-bind m f h step = Ensures-bind m f λ (a, db) e. step a db (h.at (a, db) e)

  module _ (c : Claim) (r : Reservation) where
    pub reserve_by_status-Leaves :
        (status : HoldStatus) (s : Stock) (db : Db)
        → HasRow k x done db
        → Leaves k x done (reserve_by_status status c r s db)
    unfolding reserve_by_status reserve_released reserve_reserved
    reserve_by_status-Leaves released s db row =
        Leaves-bind _ _
          (update_both-Leaves k x done _ _ _ _ c.slot (λ y. is_released y.status) (reuse c) db
            (reuse-IsEdit c) not_released row)
          λ a db' row'. Ensures-ok _ row'
    reserve_by_status-Leaves reserved s db row =
        Ensures-if (leb r.expires_at c.now || not (is_text r.owner_lease_token c.lease_token)) _ _
          (λ _.
            Leaves-bind _ _
              (update_reservation-Leaves k x done c.slot (is_held_by c.request_id) (renew c) db
                (renew-IsEdit c) (not_held c.request_id) row)
              λ a db' row'. Ensures-ok _ row')
          (λ _. Ensures-ok _ row)
    reserve_by_status-Leaves consumed s db row =
        Ensures-if (is_text r.owner_request_id c.request_id) _ _ (λ _. Ensures-ok _ row)
          (λ _. Ensures-err _)
    reserve_by_status-Leaves (unknown t) s db row = Ensures-err _

    release_held-Leaves : (db : Db) → HasRow k x done db → Leaves k x done (release_held c r db)
    unfolding release_held
    release_held-Leaves db row =
        Leaves-bind _ _
          (update_both-Leaves k x done _ _ _ _ c.slot (is_held_by c.request_id) (close c) db
            (close-IsEdit c) (not_held c.request_id) row)
          λ a db' row'. Ensures-ok _ row'

    pub release_by_status-Leaves :
        (status : HoldStatus) (s : Stock) (db : Db)
        → HasRow k x done db
        → Leaves k x done (release_by_status status c r s db)
    unfolding release_by_status
    release_by_status-Leaves released s db row = Ensures-ok _ row
    release_by_status-Leaves consumed s db row = Ensures-err _
    release_by_status-Leaves reserved s db row = release_held-Leaves db row
    release_by_status-Leaves (unknown t) s db row = release_held-Leaves db row

    pub rebind_token-Leaves : (db : Db) → HasRow k x done db → Leaves k x done (rebind_token c r db)
    unfolding rebind_token
    rebind_token-Leaves db row =
        Ensures-if (is_reserved r.status && not (is_text r.owner_lease_token c.lease_token)) _ _
          (λ _.
            update_reservation-Leaves k x done c.slot (is_held_by c.request_id) (rebind c) db
              (rebind-IsEdit c) (not_held c.request_id) row)
          (λ _. Ensures-ok _ row)

    take_out-Leaves : (db : Db) → HasRow k x done db → Leaves k x done (take_out c r db)
    unfolding take_out
    take_out-Leaves db row =
        Leaves-bind _ _
          (update_both-Leaves k x done _ _ _ _ c.slot (is_held_by c.request_id) (settle c) db
            (settle-IsEdit c) (not_held c.request_id) row)
          λ a db' row'. Ensures-ok _ row'

    refresh-Leaves : (db : Db) → HasRow k x done db → Leaves k x done (refresh c r db)
    unfolding refresh
    refresh-Leaves db row =
        Ensures-if (leb r.expires_at c.now) _ _
          (λ _.
            update_reservation-Leaves k x done c.slot (is_held_by c.request_id) (renew c) db
              (renew-IsEdit c) (not_held c.request_id) row)
          (λ _.
            Ensures-if (not (is_text r.owner_lease_token c.lease_token)) _ _
              (λ _.
                update_reservation-Leaves k x done c.slot (is_held_by c.request_id) (rebind c) db
                  (rebind-IsEdit c) (not_held c.request_id) row)
              (λ _. Ensures-ok _ row))

    recover-Leaves : (db : Db) → HasRow k x done db → Leaves k x done (recover c r db)
    unfolding recover
    recover-Leaves db row =
        update_both-Leaves k x done _ _ _ _ c.slot
          (λ y. is_released y.status && is_text y.owner_request_id c.request_id) (reopen c) db
          (reopen-IsEdit c) (rw not_released refl) row

    pub consume_by_status-Leaves :
        (status : HoldStatus) (db : Db)
        → HasRow k x done db
        → Leaves k x done (consume_by_status status c r db)
    unfolding consume_by_status
    consume_by_status-Leaves consumed db row =
        Ensures-if (is_text r.owner_request_id c.request_id) _ _ (λ _. Ensures-ok _ row)
          (λ _. Ensures-err _)
    consume_by_status-Leaves released db row =
        Leaves-bind (recover c r db) _ (recover-Leaves db row)
          λ a db' row'. take_out-Leaves db' row'
    consume_by_status-Leaves reserved db row =
        Leaves-bind (refresh c r db) _ (refresh-Leaves db row)
          λ a db' row'. take_out-Leaves db' row'
    consume_by_status-Leaves (unknown t) db row = Ensures-err _

  pub open_reservation-Leaves :
      (c : Claim) (params : ReserveQuery) (o : Option (Stock × List Stock)) (db : Db)
      → HasRow k x done db
      → Leaves k x done (open_reservation c params o db)
  unfolding open_reservation
  open_reservation-Leaves c params none db row = Ensures-ok _ row
  open_reservation-Leaves c params (some (s, stocks)) db row =
      Ensures-ensure (ltb 0 params.quantity && leb params.quantity i32_max) _ _ λ _.
        Ensures-bind _ _ λ rs e. Ensures-ok _ (
          inserted (fresh c params.sku params.quantity s) db.reservations
            (insert-inv slot_of _ db.reservations (ok_or-inv constraint_violation _ e)) row)
    where
      inserted :
          (a : Reservation) (rs : List Reservation) {rs' : List Reservation}
          → (find slot_of (slot_of a) rs ≡ none) × (rs' ≡ a ∷ rs)
          → find slot_of k rs ≡ some x
          → find slot_of k rs' ≡ some x
      inserted a rs (absent, made) row =
          subst (λ l. find slot_of k l ≡ some x) (sym made) (find-behind slot_of k a rs absent row)
