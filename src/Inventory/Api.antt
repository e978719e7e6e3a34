-- ===== src/Inventory/Api.antt =====
-- The handlers of the inventory service, from a request with its tenant resolved to the response:
-- services/inventory/src/application.rs and api.rs. Of a body the outcome and the field `error`
-- are kept; the echoed request and the messages are left out.
use parallax_telemetry_playg.Prelude.{
  ℕ, Bool, false, Option, none, some, Text, String, Result, ok, err,
}
use parallax_telemetry_playg.Inventory.Domain.{
  ReserveQuery, ReserveBody, ReserveOutcome, ReleaseBody, ReleaseOutcome, ConsumeBody,
  ConsumeOutcome, ValidationError, ConflictCode, checkout_lease_lost, reservation_conflict,
  reservation_owner_conflict, reservation_not_found, reservation_consumed, OperationError, conflict,
  fault_injection,
}
use parallax_telemetry_playg.Inventory.Validation.{
  validate_reserve, validate_release, validate_consume,
}
use parallax_telemetry_playg.Inventory.Schema.{Db, Tx}
use parallax_telemetry_playg.Inventory.Reserve.{reserve}
use parallax_telemetry_playg.Inventory.Release.{release}
use parallax_telemetry_playg.Inventory.Consume.{consume}

pub data ApplicationError : Type 0 where
  invalid_request : ValidationError → ApplicationError
  operation : OperationError → ApplicationError

abbrev pub App : Type 0 → Type 0
App A = Result ApplicationError (A × Db)

-- `map_err(ApplicationError::Operation)`.
abbrev pub map_operation : {A : Type 0} → Tx A → App A
map_operation (ok a) = ok a
map_operation (err e) = err (operation e)

-- A request that fails its validation never reaches the database.
abbrev pub checked : {A : Type 0} → Result ValidationError (Unit {0}) → Tx A → App A
checked (ok u) tx = map_operation tx
checked (err e) tx = err (invalid_request e)

unfoldable pub application_reserve :
    (Text → Text → Bool) → ℕ → ReserveQuery → Db → App (Option ReserveOutcome)
application_reserve collate now params db =
    checked (validate_reserve params) (reserve collate now params db)

unfoldable pub application_release : ℕ → ReleaseBody → Db → App (Option ReleaseOutcome)
application_release now body db = checked (validate_release body) (release now body db)

unfoldable pub application_consume : ℕ → ConsumeBody → Db → App ConsumeOutcome
application_consume now body db = checked (validate_consume body) (consume now body db)

pub record Response (A : Type 0) : Type 0 where
  pub status : ℕ
  pub outcome : Option A
  pub error : Option String

abbrev pub refuse : {A : Type 0} → ℕ → String → Response A
refuse status error = record { status = status; outcome = none; error = some error }

abbrev pub reply : {A : Type 0} → A → Response A
reply a = record { status = 200; outcome = some a; error = none }

abbrev pub code_label : ConflictCode → String
code_label checkout_lease_lost = "checkout_lease_lost"
code_label reservation_conflict = "reservation_conflict"
code_label reservation_owner_conflict = "reservation_owner_conflict"
code_label reservation_not_found = "reservation_not_found"
code_label reservation_consumed = "reservation_consumed"

-- The response of `reserve_inner` and the tables after it; an error has rolled back.
abbrev pub reserve_response : App (Option ReserveOutcome) → Db → Response ReserveOutcome × Db
reserve_response (err (invalid_request e)) db = (refuse 400 "invalid_reserve_request", db)
reserve_response (ok (some o, db')) db = (reply o, db')
reserve_response (ok (none, db')) db = (refuse 409 "out_of_stock", db')
reserve_response (err (operation (conflict code))) db = (refuse 409 (code_label code), db)
reserve_response (err (operation fault_injection)) db = (refuse 503 "reservation_rejected", db)
reserve_response (err (operation _)) db = (refuse 503 "inventory_unavailable", db)

unfoldable pub reserve_inner :
    (Text → Text → Bool) → ℕ → ReserveQuery → Db → Response ReserveOutcome × Db
reserve_inner collate now params db =
    reserve_response (application_reserve collate now params db) db

abbrev pub release_response : App (Option ReleaseOutcome) → Db → Response ReleaseOutcome × Db
release_response (err (invalid_request e)) db = (refuse 400 "invalid_release_request", db)
release_response (ok (some o, db')) db = (reply o, db')
release_response (ok (none, db')) db = (refuse 404 "reservation_not_found", db')
release_response (err (operation (conflict code))) db = (refuse 409 (code_label code), db)
release_response (err (operation _)) db = (refuse 503 "inventory_unavailable", db)

unfoldable pub release_inner : ℕ → ReleaseBody → Db → Response ReleaseOutcome × Db
release_inner now body db = release_response (application_release now body db) db

-- `if conflict.code == "reservation_not_found"`.
abbrev pub consume_conflict_status : ConflictCode → ℕ
consume_conflict_status reservation_not_found = 404
consume_conflict_status _ = 409

abbrev pub consume_response : App ConsumeOutcome → Db → Response ConsumeOutcome × Db
consume_response (err (invalid_request e)) db = (refuse 400 "invalid_consume_request", db)
consume_response (ok (o, db')) db = (reply o, db')
consume_response (err (operation (conflict code))) db =
    (refuse (consume_conflict_status code) (code_label code), db)
consume_response (err (operation _)) db = (refuse 503 "inventory_unavailable", db)

unfoldable pub consume_inner : ℕ → ConsumeBody → Db → Response ConsumeOutcome × Db
consume_inner now body db = consume_response (application_consume now body db) db

-- `reserve_post`: a posted reservation has no scenario parameters.
unfoldable pub reserve_post_params : ReserveBody → ReserveQuery
reserve_post_params body = record {
  tenant_id = body.tenant_id;
  reservation_id = body.reservation_id;
  sku = body.sku;
  quantity = body.quantity;
  slow = 0;
  db_n1 = 0;
  hold_ms = 0;
  fail = false;
  checkout_request_id = body.checkout_request_id;
  checkout_lease_token = body.checkout_lease_token;
}
