-- ===== src/Inventory/Validity.antt =====
-- What a valid request of services/inventory/src/domain.rs is.
use parallax_telemetry_playg.Prelude.{
  ℕ, ◌≤◌, ◌<◌, ◌≡◌, refl, ◌↔◌, ◌≢◌, ◌⊎◌, true, false, ◌||◌, Option, none, some, List, [], ◌∷◌,
  String, Text, ok, ltb, is_empty, length, all, All, text_eq_iff, arith,
}
use parallax_telemetry_playg.Inventory.Domain.{
  ReserveQuery, ReleaseBody, ConsumeReservation, ConsumeBody, max_identifier_length,
  max_reserve_quantity, max_release_quantity, max_consume_reservations,
}
use parallax_telemetry_playg.Inventory.Validation.{
  is_identifier_byte, validate_identifier, validate_fence_fields, validate_location,
  validate_reserve, validate_release, seen, validate_item, validate_items, validate_consume,
}

-- The characters of an identifier: ASCII letters, digits and four marks.
abbrev pub IsIdentifierByte : ℕ → Type 0
IsIdentifierByte b =
    ((b'0' ≤ b) × (b ≤ b'9'))
    ⊎ ((b'A' ≤ b) × (b ≤ b'Z'))
    ⊎ ((b'a' ≤ b) × (b ≤ b'z'))
    ⊎ (b ≡ b'-')
    ⊎ (b ≡ b'_')
    ⊎ (b ≡ b'.')
    ⊎ (b ≡ b':')

abbrev pub IsIdentifier : Text → Type 0
IsIdentifier value =
    (0 < length value) × (length value ≤ max_identifier_length) × All IsIdentifierByte value

abbrev pub IsFence : Option Text → Option Text → Type 0
IsFence (some request_id) (some lease_token) = IsIdentifier request_id × IsIdentifier lease_token
IsFence _ _ = ⊥

abbrev pub IsLocation : Option Text → Type 0
IsLocation none = Unit {0}
IsLocation (some location_id) = IsIdentifier location_id

abbrev pub IsReserve : ReserveQuery → Type 0
IsReserve p =
    IsIdentifier p.tenant_id
    × IsIdentifier p.reservation_id
    × IsIdentifier p.sku
    × (0 < p.quantity)
    × (p.quantity ≤ max_reserve_quantity)
    × IsFence p.checkout_request_id p.checkout_lease_token

abbrev pub IsRelease : ReleaseBody → Type 0
IsRelease b =
    IsIdentifier b.tenant_id
    × IsIdentifier b.reservation_id
    × IsIdentifier b.sku
    × (0 < b.quantity)
    × (b.quantity ≤ max_release_quantity)
    × IsLocation b.location_id
    × IsFence b.checkout_request_id b.checkout_lease_token

abbrev pub IsItem : ConsumeReservation → Type 0
IsItem r =
    IsIdentifier r.reservation_id
    × IsIdentifier r.sku
    × (0 < r.quantity)
    × (r.quantity ≤ max_release_quantity)
    × IsLocation r.location_id

-- No identity of the list is in `ids` or comes twice.
abbrev pub IsFresh : List Text → List ConsumeReservation → Type 0
IsFresh ids [] = Unit {0}
IsFresh ids (r ∷ rs) = All (λ id. r.reservation_id ≢ id) ids × IsFresh (r.reservation_id ∷ ids) rs

abbrev pub IsConsume : ConsumeBody → Type 0
IsConsume b =
    IsIdentifier b.tenant_id
    × (0 < length b.reservations)
    × (length b.reservations ≤ max_consume_reservations)
    × IsFence b.checkout_request_id b.checkout_lease_token
    × All IsItem b.reservations
    × IsFresh [] b.reservations

identifier_byte : (b : ℕ) → (is_identifier_byte b ≡ true) ↔ IsIdentifierByte b
unfolding is_identifier_byte
identifier_byte b = ground arith

all_iff : (value : Text) → (all is_identifier_byte value ≡ true) ↔ All IsIdentifierByte value
all_iff [] = (λ _. tt, λ _. refl)
all_iff (b ∷ bs) = ground (arith, identifier_byte b, all_iff bs)

pub validate_identifier_iff :
    (value : Text) (field : String) → (validate_identifier value field ≡ ok tt) ↔ IsIdentifier value
unfolding validate_identifier
validate_identifier_iff [] field = ground arith
validate_identifier_iff (b ∷ bs) field = ground (arith, all_iff (b ∷ bs))

validate_fence_fields_iff :
    (request_id lease_token : Option Text)
    → (validate_fence_fields request_id lease_token ≡ ok tt) ↔ IsFence request_id lease_token
unfolding validate_fence_fields
validate_fence_fields_iff (some request_id) (some lease_token) = ground (
  arith,
  validate_identifier_iff request_id "checkout_request_id",
  validate_identifier_iff lease_token "checkout_lease_token",
)
validate_fence_fields_iff (some request_id) none = ground arith
validate_fence_fields_iff none (some lease_token) = ground arith
validate_fence_fields_iff none none = ground arith

validate_location_iff : (o : Option Text) → (validate_location o ≡ ok tt) ↔ IsLocation o
unfolding validate_location
validate_location_iff none = ground arith
validate_location_iff (some location_id) = validate_identifier_iff location_id "location_id"

seen_iff : (id : Text) (ids : List Text) → (seen id ids ≡ false) ↔ All (λ x. id ≢ x) ids
unfolding seen
seen_iff id [] = (λ _. tt, λ _. refl)
seen_iff id (x ∷ ids) = ground (arith, text_eq_iff id x, seen_iff id ids)

-- A reserve request is accepted exactly when its identities are identifiers, its quantity is
-- from one to the maximum, and it carries both parts of the checkout fence.
pub validate_reserve_iff : (p : ReserveQuery) → (validate_reserve p ≡ ok tt) ↔ IsReserve p
unfolding validate_reserve
validate_reserve_iff p = ground (
  arith,
  validate_identifier_iff p.tenant_id "tenant_id",
  validate_identifier_iff p.reservation_id "reservation_id",
  validate_identifier_iff p.sku "sku",
  validate_fence_fields_iff p.checkout_request_id p.checkout_lease_token,
)

-- A release request is accepted exactly when its identities are identifiers, its quantity is
-- from one to the maximum, the location that it may name is an identifier, and it carries both
-- parts of the checkout fence.
pub validate_release_iff : (b : ReleaseBody) → (validate_release b ≡ ok tt) ↔ IsRelease b
unfolding validate_release
validate_release_iff b = ground (
  arith,
  validate_identifier_iff b.tenant_id "tenant_id",
  validate_identifier_iff b.reservation_id "reservation_id",
  validate_identifier_iff b.sku "sku",
  validate_location_iff b.location_id,
  validate_fence_fields_iff b.checkout_request_id b.checkout_lease_token,
)

validate_item_iff :
    (ids : List Text) (r : ConsumeReservation)
    → (validate_item ids r ≡ ok tt) ↔ (IsItem r × All (λ x. r.reservation_id ≢ x) ids)
unfolding validate_item
validate_item_iff ids r = ground (
  arith,
  validate_identifier_iff r.reservation_id "reservation_id",
  validate_identifier_iff r.sku "sku",
  validate_location_iff r.location_id,
  seen_iff r.reservation_id ids,
)

validate_items_iff :
    (ids : List Text) (rs : List ConsumeReservation)
    → (validate_items ids rs ≡ ok tt) ↔ (All IsItem rs × IsFresh ids rs)
unfolding validate_items
validate_items_iff ids [] = ground arith
validate_items_iff ids (r ∷ rs) =
    ground (arith, validate_item_iff ids r, validate_items_iff (r.reservation_id ∷ ids) rs)

count_iff :
    (rs : List ConsumeReservation)
    → ((is_empty rs || ltb max_consume_reservations (length rs)) ≡ false)
      ↔ ((0 < length rs) × (length rs ≤ max_consume_reservations))
count_iff [] = ground arith
count_iff (r ∷ rs) = ground arith

-- A consume request is accepted exactly when its tenant is an identifier, it carries both parts
-- of the checkout fence, and it names from one to fifty reservations, each with identifiers and a
-- quantity from one to the maximum, no two of them with the same identity.
pub validate_consume_iff : (b : ConsumeBody) → (validate_consume b ≡ ok tt) ↔ IsConsume b
unfolding validate_consume
validate_consume_iff b = ground (
  arith,
  validate_identifier_iff b.tenant_id "tenant_id",
  count_iff b.reservations,
  validate_fence_fields_iff b.checkout_request_id b.checkout_lease_token,
  validate_items_iff [] b.reservations,
)
