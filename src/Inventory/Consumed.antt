-- ===== src/Inventory/Consumed.antt =====
-- What becomes of a consumed reservation.
use parallax_telemetry_playg.Prelude.{
  ℕ, ◌≡◌, refl, Bool, true, not, ◌&&◌, Option, none, some, List, [], ◌∷◌, Text, leb, ◌==◌, ◌+◌, ok,
  err, Ensures-ok, Ensures-err, Ensures-bind, Ensures-ensure, Ensures-option, is_text, text_eq,
  sort_by,
}
use parallax_telemetry_playg.Inventory.Domain.{
  ReserveQuery, ReleaseBody, ConsumeReservation, ConsumeBody,
}
use parallax_telemetry_playg.Inventory.Schema.{
  Slot, slot_Eq, cell_Eq, Stock, Reservation, slot_of, cell_of, Db, Tx, find_joined, to_i32,
}
use parallax_telemetry_playg.Inventory.Ledger.{is_consumed}
use parallax_telemetry_playg.Inventory.Finality.{HasRow, Leaves, update_both-Leaves}
use parallax_telemetry_playg.Inventory.Transitions.{expire-IsEdit}
use parallax_telemetry_playg.Inventory.Fence.{require_fence}
use parallax_telemetry_playg.Inventory.Reserve.{
  Claim, claim_of, reserve_existing, reserve_candidate, reserve_fresh, reserve_claim, reserve,
}
use parallax_telemetry_playg.Inventory.Release.{
  matches_request, release_existing, release_claim, release_claim_of, release,
}
use parallax_telemetry_playg.Inventory.Consume.{
  item_claim, consume_existing, consume_item, u32_max, consume_items, by_id, consume,
}
use parallax_telemetry_playg.Inventory.Reap.{
  is_expired, expire, reap_one, reap_rows, reap_expired_reservations,
}
use parallax_telemetry_playg.Inventory.Untouched.{
  Leaves-bind, reserve_by_status-Leaves, release_by_status-Leaves, rebind_token-Leaves,
  consume_by_status-Leaves, open_reservation-Leaves, not_expired,
}
use parallax_telemetry_playg.Inventory.Validation.{
  Check, validate_reserve, validate_release, validate_consume,
}
use parallax_telemetry_playg.Inventory.Domain.{
  ReserveOutcome, ReleaseOutcome, ConsumeOutcome, fault_injection,
}
use parallax_telemetry_playg.Inventory.Api.{
  checked, application_reserve, application_release, application_consume, reserve_response,
  release_response, consume_response, reserve_inner, release_inner, consume_inner,
}
use parallax_telemetry_playg.Inventory.System.{
  Step, Reach, here, next, reserves, releases, consumes, reaps, checkout_moves, catalog_moves,
  after_reaper,
}
use parallax_telemetry_playg.Inventory.Reap.{batch}

module _ (k : Slot) (x : Reservation) (done : is_consumed x.status ≡ true) where
  reserve_candidate-Leaves :
      (c : Claim) (params : ReserveQuery) (o : Option (Text × Stock)) (db : Db)
      → HasRow k x done db
      → Leaves k x done (reserve_candidate c params o db)
  unfolding reserve_candidate
  reserve_candidate-Leaves c params none db row = Ensures-ok _ row
  reserve_candidate-Leaves c params (some (code, s)) db row =
      open_reservation-Leaves k x done c params _ db row

  reserve_claim-Leaves :
      (collate : Text → Text → Bool) (c : Claim) (params : ReserveQuery) (db : Db)
      → HasRow k x done db
      → Leaves k x done (reserve_claim collate c params db)
  unfolding reserve_claim reserve_fresh reserve_existing
  reserve_claim-Leaves collate c params db row =
      Ensures-option (find_joined c.slot db) _ _ (λ _. reserve_candidate-Leaves c params _ db row)
        λ (r, s) _.
          Ensures-ensure (text_eq r.sku params.sku && r.quantity == to_i32 params.quantity) _ _ λ _.
            Ensures-ensure (is_text r.owner_request_id c.request_id) _ _
              λ _. reserve_by_status-Leaves k x done c r r.status s db row

  pub reserve-Leaves :
      (collate : Text → Text → Bool) (now : ℕ) (params : ReserveQuery) (db : Db)
      → HasRow k x done db
      → Leaves k x done (reserve collate now params db)
  unfolding reserve
  reserve-Leaves collate now params db row = Ensures-ensure (not params.fail) _ _ λ _.
      Ensures-bind _ _
        λ fence _. reserve_claim-Leaves collate (claim_of now params fence) params db row

  release_claim-Leaves :
      (c : Claim) (body : ReleaseBody) (db : Db)
      → HasRow k x done db
      → Leaves k x done (release_claim c body db)
  unfolding release_claim release_existing
  release_claim-Leaves c body db row =
      Ensures-option (find_joined c.slot db) _ _ (λ _. Ensures-ok _ row)
        λ (r, s) _.
          Ensures-ensure (matches_request r body.sku body.quantity body.location_id) _ _ λ _.
            Ensures-ensure (is_text r.owner_request_id c.request_id) _ _ λ _.
              Leaves-bind k x done _ _ (rebind_token-Leaves k x done c r db row)
                λ a db' row'. release_by_status-Leaves k x done c r r.status s db' row'

  pub release-Leaves :
      (now : ℕ) (body : ReleaseBody) (db : Db)
      → HasRow k x done db
      → Leaves k x done (release now body db)
  unfolding release
  release-Leaves now body db row =
      Ensures-bind _ _ λ fence _. release_claim-Leaves (release_claim_of now body fence) body db row

  consume_item-Leaves :
      (c : Claim) (item : ConsumeReservation) (db : Db)
      → HasRow k x done db
      → Leaves k x done (consume_item c item db)
  unfolding consume_item consume_existing
  consume_item-Leaves c item db row =
      Ensures-option (find_joined c.slot db) _ _ (λ _. Ensures-err _)
        λ (r, s) _.
          Ensures-ensure (matches_request r item.sku item.quantity item.location_id) _ _ λ _.
            Ensures-ensure (is_text r.owner_request_id c.request_id) _ _
              λ _. consume_by_status-Leaves k x done c r r.status db row

  consume_items-Leaves :
      (now : ℕ) (tenant_id : Text) (fence : Text × Text) (total : ℕ)
      (items : List ConsumeReservation) (db : Db)
      → HasRow k x done db
      → Leaves k x done (consume_items now tenant_id fence total items db)
  unfolding consume_items
  consume_items-Leaves now tenant_id fence total [] db row = Ensures-ok _ row
  consume_items-Leaves now tenant_id fence total (item ∷ items) db row =
      Leaves-bind k x done (consume_item (item_claim now tenant_id fence item) item db) _
        (consume_item-Leaves (item_claim now tenant_id fence item) item db row)
        λ q db' row'.
          Ensures-ensure (leb (total + q) u32_max) _ _
            λ _. consume_items-Leaves now tenant_id fence (total + q) items db' row'

  pub consume-Leaves :
      (now : ℕ) (body : ConsumeBody) (db : Db)
      → HasRow k x done db
      → Leaves k x done (consume now body db)
  unfolding consume
  consume-Leaves now body db row =
      let items = sort_by by_id body.reservations in
      Ensures-bind
        (require_fence now db body.tenant_id body.checkout_request_id body.checkout_lease_token) _
        λ fence _.
          Leaves-bind k x done (consume_items now body.tenant_id fence 0 items db) _
            (consume_items-Leaves now body.tenant_id fence 0 items db row)
            λ total db' row'. Ensures-ok _ row'

  reap_rows-Leaves :
      (now count : ℕ) (rs : List Reservation) (db : Db)
      → HasRow k x done db
      → Leaves k x done (reap_rows now count rs db)
  unfolding reap_rows reap_one
  reap_rows-Leaves now count [] db row = Ensures-ok _ row
  reap_rows-Leaves now count (r ∷ rs) db row =
      Leaves-bind k x done _ _
        (update_both-Leaves k x done (cell_of r) _ _ _ (slot_of r) (is_expired now) (expire now) db
          (expire-IsEdit now) (not_expired k x done now) row)
        λ s db' row'.
          Ensures-ensure (leb (count + 1) u32_max) _ _
            λ _. reap_rows-Leaves now (count + 1) rs db' row'

  module _ (db : Db) (row : HasRow k x done db) where
    reserve_response-HasRow :
        (check : Check) (tx : Tx (Option ReserveOutcome))
        → Leaves k x done tx
        → HasRow k x done (reserve_response (checked check tx) db).1
    reserve_response-HasRow (err e) tx h = row
    reserve_response-HasRow (ok u) (ok (some o, db')) h = h.at (some o, db') refl
    reserve_response-HasRow (ok u) (ok (none, db')) h = h.at (none, db') refl
    reserve_response-HasRow (ok u) (err fault_injection) h = row
    reserve_response-HasRow (ok u) (err _) h = row

    release_response-HasRow :
        (check : Check) (tx : Tx (Option ReleaseOutcome))
        → Leaves k x done tx
        → HasRow k x done (release_response (checked check tx) db).1
    release_response-HasRow (err e) tx h = row
    release_response-HasRow (ok u) (ok (some o, db')) h = h.at (some o, db') refl
    release_response-HasRow (ok u) (ok (none, db')) h = h.at (none, db') refl
    release_response-HasRow (ok u) (err fault_injection) h = row
    release_response-HasRow (ok u) (err _) h = row

    consume_response-HasRow :
        (check : Check) (tx : Tx ConsumeOutcome)
        → Leaves k x done tx
        → HasRow k x done (consume_response (checked check tx) db).1
    consume_response-HasRow (err e) tx h = row
    consume_response-HasRow (ok u) (ok (o, db')) h = h.at (o, db') refl
    consume_response-HasRow (ok u) (err fault_injection) h = row
    consume_response-HasRow (ok u) (err _) h = row

    after_reaper-HasRow : (tx : Tx ℕ) → Leaves k x done tx → HasRow k x done (after_reaper tx db)
    after_reaper-HasRow (ok (count, db')) h = h.at (count, db') refl
    after_reaper-HasRow (err e) h = row

  Step-HasRow :
      (collate : Text → Text → Bool) {db db' : Db}
      → Step collate db db'
      → HasRow k x done db
      → HasRow k x done db'
  unfolding reserve_inner application_reserve release_inner application_release consume_inner
      application_consume reap_expired_reservations
  Step-HasRow collate {db} (reserves now params e) row = rw e (
      reserve_response-HasRow db row (validate_reserve params) _
        (reserve-Leaves collate now params db row))
  Step-HasRow collate {db} (releases now body e) row =
      rw e
        (release_response-HasRow db row (validate_release body) _ (release-Leaves now body db row))
  Step-HasRow collate {db} (consumes now body e) row =
      rw e
        (consume_response-HasRow db row (validate_consume body) _ (consume-Leaves now body db row))
  Step-HasRow collate {db} (reaps now locked e) row = rw e (
      after_reaper-HasRow db row _
        (reap_rows-Leaves now 0 (batch collate locked now db.reservations) db row))
  Step-HasRow collate {db} (checkout_moves attempts reconciliations e) row = rw e row
  Step-HasRow collate {db} (catalog_moves variants locations e) row = rw e row

  -- A consumed reservation is final: through all requests, by whatever checkout and under whatever
  -- fence, all runs of the reaper, and all moves of the checkout service and the catalog, its row
  -- stays exactly as it is.
  pub reach-HasRow :
      (collate : Text → Text → Bool) {db db' : Db}
      → Reach collate db db'
      → HasRow k x done db
      → HasRow k x done db'
  reach-HasRow collate here row = row
  reach-HasRow collate (next r s) row = Step-HasRow collate s (reach-HasRow collate r row)
