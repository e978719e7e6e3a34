-- ===== src/Inventory/Conservation/Release.antt =====
-- The stock ledger under `release`.
use parallax_telemetry_playg.Prelude.{
  ℕ, refl, not, ◌&&◌, is_text, leb, Ensures-ok, Ensures-err, Ensures-if, Ensures-bind,
  Ensures-ensure, Ensures-option,
}
use parallax_telemetry_playg.Inventory.Domain.{ReleaseBody, ledger_inconsistent}
use parallax_telemetry_playg.Inventory.Schema.{
  Cell, Stock, HoldStatus, reserved, released, consumed, unknown, is_reserved, Reservation, cell_of,
  Db, find_joined, drop_reserved,
}
use parallax_telemetry_playg.Inventory.Statements.{update_both}
use parallax_telemetry_playg.Inventory.Ledger.{Ledger}
use parallax_telemetry_playg.Inventory.Soundness.{Sound, update_both-Sound}
use parallax_telemetry_playg.Inventory.Transitions.{
  close-IsEdit, drop_reserved-cell, drop-Balances, is_held_by-inv,
}
use parallax_telemetry_playg.Inventory.Reserve.{Claim, is_held_by}
use parallax_telemetry_playg.Inventory.Release.{
  close, matches_request, rebind_token, release_held, release_by_status, release_existing,
  release_claim, release_claim_of, release,
}
use parallax_telemetry_playg.Inventory.Conservation.Shared.{
  Conserves, Keeps, Sound-read, rebind-Sound,
}

module _ (base supply : Cell → ℕ) where
  module _ (c : Claim) (r : Reservation) where
    rebind_token-Sound :
        (db : Db) → Sound base supply c.slot r db → Keeps base supply c.slot r (rebind_token c r db)
    unfolding rebind_token
    rebind_token-Sound db v =
        Ensures-if (is_reserved r.status && not (is_text r.owner_lease_token c.lease_token)) _ _
          (λ _. rebind-Sound base supply c r db v) (λ _. Ensures-ok _ v)

    close-Sound :
        (db : Db)
        → Sound base supply c.slot r db
        → Keeps base supply c.slot r (
            update_both
              (cell_of r)
              (λ s. leb r.quantity s.reserved_quantity)
              (drop_reserved c.now r.quantity)
              ledger_inconsistent
              c.slot
              (is_held_by c.request_id)
              (close c)
              db)
    unfolding close
    close-Sound db v =
        update_both-Sound base supply c.slot r (close c) (close-IsEdit c) _ _ _ _ db v
          (drop_reserved-cell c.now r.quantity)
          λ x s amount enough fits held.
            drop-Balances c.now r.quantity (close c) (close-IsEdit c) x s amount fits refl
              (is_held_by-inv c.request_id x held) enough

    release_held-Conserves :
        (db : Db) → Sound base supply c.slot r db → Conserves base supply (release_held c r db)
    unfolding release_held
    release_held-Conserves db v =
        Ensures-bind _ _ λ (s, db') e. Ensures-ok _ ((close-Sound db v).at (s, db') e).ledger

    release_by_status-Conserves :
        (status : HoldStatus) (s : Stock) (db : Db)
        → Sound base supply c.slot r db
        → Conserves base supply (release_by_status status c r s db)
    unfolding release_by_status
    release_by_status-Conserves released s db v = Ensures-ok _ v.ledger
    release_by_status-Conserves reserved s db v = release_held-Conserves db v
    release_by_status-Conserves consumed s db v = Ensures-err _
    release_by_status-Conserves (unknown t) s db v = release_held-Conserves db v

    release_existing-Conserves :
        (body : ReleaseBody) (s : Stock) (db : Db)
        → Sound base supply c.slot r db
        → Conserves base supply (release_existing c body r s db)
    unfolding release_existing
    release_existing-Conserves body s db v =
        Ensures-ensure (matches_request r body.sku body.quantity body.location_id) _ _ λ _.
          Ensures-ensure (is_text r.owner_request_id c.request_id) _ _ λ _.
            Ensures-bind (rebind_token c r db) _ λ (rebound, db') e.
              release_by_status-Conserves r.status s db'
                ((rebind_token-Sound db v).at (rebound, db') e)

  release_claim-Conserves :
      (c : Claim) (body : ReleaseBody) (db : Db)
      → Ledger base supply db
      → Conserves base supply (release_claim c body db)
  unfolding release_claim
  release_claim-Conserves c body db v =
      Ensures-option (find_joined c.slot db) _ _ (λ _. Ensures-ok _ v)
        λ (r, s) found.
          release_existing-Conserves c r body s db (Sound-read base supply c.slot r s db v found)

  -- A successful release leaves the stock ledger as it was: every row of stock has reserved what
  -- the open reservations of its cell hold, with the same surplus as before, and on hand what
  -- was supplied less what the consumed ones took, and nothing is reserved beyond what is on hand.
  pub release-Conserves :
      (now : ℕ) (body : ReleaseBody) (db : Db)
      → Ledger base supply db
      → Conserves base supply (release now body db)
  unfolding release
  release-Conserves now body db v =
      Ensures-bind _ _
        λ fence _. release_claim-Conserves (release_claim_of now body fence) body db v
