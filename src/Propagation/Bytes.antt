-- ===== src/Propagation/Bytes.antt =====
-- The constants and the tests on bytes of libs/playground-telemetry/src/propagation.rs.
use mathlib.Core.List.{reverse}
use parallax_telemetry_playg.Prelude.{
  ℕ, ◌-◌, ◌+◌, Bool, true, false, ◌&&◌, ◌||◌, Option, none, some, [], ◌∷◌, Text, codes, leb, ◌==◌,
  if◌then◌else◌, all, length, is_ascii_digit,
}

abbrev pub max_business_baggage_value_length : ℕ
max_business_baggage_value_length = 128

abbrev pub max_traceparent_header_bytes : ℕ
max_traceparent_header_bytes = 55

abbrev pub max_tracestate_header_bytes : ℕ
max_tracestate_header_bytes = 512

abbrev pub max_tracestate_members : ℕ
max_tracestate_members = 32

abbrev pub max_tracestate_member_bytes : ℕ
max_tracestate_member_bytes = 256

abbrev pub max_baggage_header_bytes : ℕ
max_baggage_header_bytes = 8192

abbrev pub max_baggage_members : ℕ
max_baggage_members = 64

-- `semconv::TENANT_ID`.
abbrev pub tenant_id_key : Text
tenant_id_key = codes "tenant.id"

unfoldable pub hex_digit : ℕ → Option ℕ
hex_digit value =
    if leb b'0' value && leb value b'9'
    then some (value - b'0')
    else if leb b'a' value && leb value b'f'
    then some (value - b'a' + 10)
    else if leb b'A' value && leb value b'F'
    then some (value - b'A' + 10)
    else none

-- `str::trim_matches` with a space and a tab.
abbrev pub is_ows : ℕ → Bool
is_ows b = b == b' ' || b == 9

unfoldable pub drop_ows : Text → Text
drop_ows [] = []
drop_ows (b ∷ bs) = if is_ows b then drop_ows bs else b ∷ bs

unfoldable pub trim_ows : Text → Text
unfolding drop_ows
trim_ows value = reverse (drop_ows (reverse (drop_ows value)))

abbrev pub is_lower_hex_byte : ℕ → Bool
is_lower_hex_byte byte = is_ascii_digit byte || (leb b'a' byte && leb byte b'f')

unfoldable pub is_lower_hex : Text → ℕ → Bool
is_lower_hex value count = length value == count && all is_lower_hex_byte value

unfoldable pub all_zero_hex : Text → Bool
all_zero_hex value = all (λ byte. byte == b'0') value

abbrev pub is_some {ℓ} : {A : Type ℓ} → Option A → Bool
is_some none = false
is_some (some a) = true
