-- ===== src/Inventory/Validation.antt =====
-- The request validation of the inventory service: services/inventory/src/domain.rs.
use parallax_telemetry_playg.Prelude.{
  ℕ, Bool, not, ◌&&◌, ◌||◌, Option, none, some, List, [], ◌∷◌, String, Text, Result, ok, err, ◌>>◌,
  ensure, ltb, leb, ◌==◌, is_empty, length, all, any, text_eq,
}
use parallax_telemetry_playg.Inventory.Domain.{
  ReserveQuery, ReleaseBody, ConsumeReservation, ConsumeBody, ValidationError,
  max_identifier_length, max_reserve_quantity, max_release_quantity, max_consume_reservations,
}

abbrev pub Check : Type 0
Check = Result ValidationError (Unit {0})

abbrev pub invalid : String → String → ValidationError
invalid field reason = record { field = field; reason = reason }

-- `u8::is_ascii_alphanumeric`.
unfoldable pub is_ascii_alphanumeric : ℕ → Bool
is_ascii_alphanumeric b =
    (leb b'0' b && leb b b'9') || (leb b'A' b && leb b b'Z') || (leb b'a' b && leb b b'z')

unfoldable pub is_identifier_byte : ℕ → Bool
unfolding is_ascii_alphanumeric
is_identifier_byte b = is_ascii_alphanumeric b || b == b'-' || b == b'_' || b == b'.' || b == b':'

unfoldable pub validate_identifier : Text → String → Check
validate_identifier value field = do
  ensure (not (is_empty value)) (invalid field "must not be empty")
  ensure (not (ltb max_identifier_length (length value)))
      (invalid field "exceeds the maximum length")
  ensure (all is_identifier_byte value) (invalid field "contains unsupported characters")

unfoldable pub validate_fence_fields : Option Text → Option Text → Check
validate_fence_fields (some request_id) (some lease_token) = do
  validate_identifier request_id "checkout_request_id"
  validate_identifier lease_token "checkout_lease_token"
validate_fence_fields none none =
    err (invalid "checkout_request_id" "authoritative checkout fence is required")
validate_fence_fields (some request_id) none =
    err (invalid "checkout_lease_token" "is required with checkout_request_id")
validate_fence_fields none (some lease_token) =
    err (invalid "checkout_request_id" "is required with checkout_lease_token")

unfoldable pub validate_location : Option Text → Check
validate_location none = ok tt
validate_location (some location_id) = validate_identifier location_id "location_id"

unfoldable pub validate_reserve : ReserveQuery → Check
validate_reserve params = do
  validate_identifier params.tenant_id "tenant_id"
  validate_identifier params.reservation_id "reservation_id"
  validate_identifier params.sku "sku"
  ensure (not (params.quantity == 0)) (invalid "quantity" "must be greater than zero")
  ensure (not (ltb max_reserve_quantity params.quantity))
      (invalid "quantity" "exceeds the maximum reserve quantity")
  validate_fence_fields params.checkout_request_id params.checkout_lease_token

unfoldable pub validate_release : ReleaseBody → Check
validate_release body = do
  validate_identifier body.tenant_id "tenant_id"
  validate_identifier body.reservation_id "reservation_id"
  validate_identifier body.sku "sku"
  ensure (not (body.quantity == 0)) (invalid "quantity" "must be greater than zero")
  ensure (not (ltb max_release_quantity body.quantity))
      (invalid "quantity" "exceeds the maximum release quantity")
  validate_location body.location_id
  validate_fence_fields body.checkout_request_id body.checkout_lease_token

-- `HashSet::contains`: `insert` answers `false` for an element that the set has.
unfoldable pub seen : Text → List Text → Bool
seen id ids = any (text_eq id) ids

-- One round of the loop over the reservations, up to the insertion into the set.
unfoldable pub validate_item : List Text → ConsumeReservation → Check
unfolding seen
validate_item ids r = do
  validate_identifier r.reservation_id "reservation_id"
  validate_identifier r.sku "sku"
  ensure (not (r.quantity == 0 || ltb max_release_quantity r.quantity))
      (invalid "quantity" "must be between one and one million")
  validate_location r.location_id
  ensure (not (seen r.reservation_id ids))
      (invalid "reservation_id" "must be unique within a consume request")

unfoldable pub validate_items : List Text → List ConsumeReservation → Check
validate_items ids [] = ok tt
validate_items ids (r ∷ rs) = do validate_item ids r; validate_items (r.reservation_id ∷ ids) rs

unfoldable pub validate_consume : ConsumeBody → Check
validate_consume body = do
  validate_identifier body.tenant_id "tenant_id"
  ensure
      (not (is_empty body.reservations || ltb max_consume_reservations (length body.reservations)))
      (invalid "reservations" "must contain between one and fifty reservations")
  validate_fence_fields body.checkout_request_id body.checkout_lease_token
  validate_items [] body.reservations
