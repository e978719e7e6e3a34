-- ===== src/Inventory/System.antt =====
-- The inventory service in its surroundings: requests, the reaper, and the checkout service that
-- moves the fences, in any order and at any times.
use parallax_telemetry_playg.Prelude.{ℕ, ◌≡◌, refl, Bool, Option, none, some, List, Text, ok, err}
use parallax_telemetry_playg.Inventory.Domain.{
  ReserveQuery, ReserveOutcome, ReleaseBody, ReleaseOutcome, ConsumeBody, ConsumeOutcome,
  fault_injection,
}
use parallax_telemetry_playg.Inventory.Validation.{
  Check, validate_reserve, validate_release, validate_consume,
}
use parallax_telemetry_playg.Inventory.Schema.{
  Cell, Slot, Variant, Location, Attempt, Reconciliation, Db, Tx,
}
use parallax_telemetry_playg.Inventory.Ledger.{Ledger}
use parallax_telemetry_playg.Inventory.Reap.{reap_expired_reservations}
use parallax_telemetry_playg.Inventory.Api.{
  checked, application_reserve, application_release, application_consume, reserve_response,
  release_response, consume_response, reserve_inner, release_inner, consume_inner,
}
use parallax_telemetry_playg.Inventory.Conservation.Shared.{Conserves}
use parallax_telemetry_playg.Inventory.Conservation.Reserve.{reserve-Conserves}
use parallax_telemetry_playg.Inventory.Conservation.Release.{release-Conserves}
use parallax_telemetry_playg.Inventory.Conservation.Consume.{consume-Conserves}
use parallax_telemetry_playg.Inventory.Conservation.Reap.{reap-Conserves}

-- A failed run of the reaper has rolled back.
abbrev pub after_reaper : Tx ℕ → Db → Db
after_reaper (ok (count, db')) db = db'
after_reaper (err e) db = db

-- What can happen to the tables. The last two are not the service's own: the checkout service
-- rewrites the attempts and reconciliations, and the catalog its variants and locations.
pub data Step (collate : Text → Text → Bool) (db db' : Db) : Type 0 where
  reserves :
      (now : ℕ) (params : ReserveQuery)
      → db' ≡ (reserve_inner collate now params db).1
      → Step collate db db'
  releases :
      (now : ℕ) (body : ReleaseBody) → db' ≡ (release_inner now body db).1 → Step collate db db'
  consumes :
      (now : ℕ) (body : ConsumeBody) → db' ≡ (consume_inner now body db).1 → Step collate db db'
  reaps :
      (now : ℕ) (locked : Slot → Bool)
      → db' ≡ after_reaper (reap_expired_reservations collate locked now db) db
      → Step collate db db'
  checkout_moves :
      (attempts : List Attempt) (reconciliations : List Reconciliation)
      → db' ≡ record db { attempts = attempts; reconciliations = reconciliations }
      → Step collate db db'
  catalog_moves :
      (variants : List Variant) (locations : List Location)
      → db' ≡ record db { variants = variants; locations = locations }
      → Step collate db db'

pub data Reach (collate : Text → Text → Bool) (db : Db) : Db → Type 0 where
  here : Reach collate db db
  next : {db' db'' : Db} → Reach collate db db' → Step collate db' db'' → Reach collate db db''

module _ (base supply : Cell → ℕ) (db : Db) (v : Ledger base supply db) where
  reserve_response-Ledger :
      (check : Check) (tx : Tx (Option ReserveOutcome))
      → Conserves base supply tx
      → Ledger base supply (reserve_response (checked check tx) db).1
  reserve_response-Ledger (err e) tx h = v
  reserve_response-Ledger (ok u) (ok (some o, db')) h = h.at (some o, db') refl
  reserve_response-Ledger (ok u) (ok (none, db')) h = h.at (none, db') refl
  reserve_response-Ledger (ok u) (err fault_injection) h = v
  reserve_response-Ledger (ok u) (err _) h = v

  release_response-Ledger :
      (check : Check) (tx : Tx (Option ReleaseOutcome))
      → Conserves base supply tx
      → Ledger base supply (release_response (checked check tx) db).1
  release_response-Ledger (err e) tx h = v
  release_response-Ledger (ok u) (ok (some o, db')) h = h.at (some o, db') refl
  release_response-Ledger (ok u) (ok (none, db')) h = h.at (none, db') refl
  release_response-Ledger (ok u) (err fault_injection) h = v
  release_response-Ledger (ok u) (err _) h = v

  consume_response-Ledger :
      (check : Check) (tx : Tx ConsumeOutcome)
      → Conserves base supply tx
      → Ledger base supply (consume_response (checked check tx) db).1
  consume_response-Ledger (err e) tx h = v
  consume_response-Ledger (ok u) (ok (o, db')) h = h.at (o, db') refl
  consume_response-Ledger (ok u) (err fault_injection) h = v
  consume_response-Ledger (ok u) (err _) h = v

  after_reaper-Ledger :
      (tx : Tx ℕ) → Conserves base supply tx → Ledger base supply (after_reaper tx db)
  after_reaper-Ledger (ok (count, db')) h = h.at (count, db') refl
  after_reaper-Ledger (err e) h = v

  checkout_moves-Ledger :
      (attempts : List Attempt) (reconciliations : List Reconciliation)
      → Ledger base supply (record db { attempts = attempts; reconciliations = reconciliations })
  checkout_moves-Ledger attempts reconciliations = record {
    distinct = v.distinct;
    reserved_covers = v.reserved_covers;
    on_hand_covers = v.on_hand_covers;
    within = v.within;
  }

  catalog_moves-Ledger :
      (variants : List Variant) (locations : List Location)
      → Ledger base supply (record db { variants = variants; locations = locations })
  catalog_moves-Ledger variants locations = record {
    distinct = v.distinct;
    reserved_covers = v.reserved_covers;
    on_hand_covers = v.on_hand_covers;
    within = v.within;
  }

module _ (base supply : Cell → ℕ) where
  step-Ledger :
      (collate : Text → Text → Bool) {db db' : Db}
      → Step collate db db'
      → Ledger base supply db
      → Ledger base supply db'
  unfolding reserve_inner application_reserve release_inner application_release consume_inner
      application_consume
  step-Ledger collate {db} (reserves now params e) v = rw e (
      reserve_response-Ledger base supply db v (validate_reserve params) _
        (reserve-Conserves base supply collate now params db v))
  step-Ledger collate {db} (releases now body e) v = rw e (
      release_response-Ledger base supply db v (validate_release body) _
        (release-Conserves base supply now body db v))
  step-Ledger collate {db} (consumes now body e) v = rw e (
      consume_response-Ledger base supply db v (validate_consume body) _
        (consume-Conserves base supply now body db v))
  step-Ledger collate {db} (reaps now locked e) v =
      rw e (
        after_reaper-Ledger base supply db v _ (reap-Conserves base supply collate locked now db v))
  step-Ledger collate {db} (checkout_moves attempts reconciliations e) v =
      rw e (checkout_moves-Ledger base supply db v attempts reconciliations)
  step-Ledger collate {db} (catalog_moves variants locations e) v =
      rw e (catalog_moves-Ledger base supply db v variants locations)

  -- Whatever requests are served, accepted or refused, however often the reaper runs, and however
  -- the checkout service and the catalog change their tables in between, from tables where the
  -- ledger holds only such tables are reached: reservations have distinct keys, each row of stock
  -- has reserved the fixed surplus of its cell and what the open reservations there hold, has on
  -- hand the fixed supply less what the consumed reservations took, and never has more reserved
  -- than on hand.
  pub reach-Ledger :
      (collate : Text → Text → Bool) {db db' : Db}
      → Reach collate db db'
      → Ledger base supply db
      → Ledger base supply db'
  reach-Ledger collate here v = v
  reach-Ledger collate (next r s) v = step-Ledger collate s (reach-Ledger collate r v)
