-- ===== src/Propagation/Baggage.antt =====
-- `validate_baggage_header` of libs/playground-telemetry/src/propagation.rs and its tests.
use parallax_telemetry_playg.Prelude.{
  ℕ, Bool, true, false, not, ◌&&◌, ◌||◌, Option, none, some, List, [], ◌∷◌, Text, codes, Result, ok,
  ensure, ok_or, ◌>>=◌, ◌>>◌, ◌==◌, ltb, leb, length, is_empty, all, any, text_eq, split,
  split_once, is_ascii_digit, is_ascii_lowercase, is_ascii_uppercase, if◌then◌else◌,
}
use parallax_telemetry_playg.Propagation.Bytes.{
  max_baggage_header_bytes, max_baggage_members, hex_digit, is_some, trim_ows,
}

abbrev pub is_baggage_key_byte : ℕ → Bool
is_baggage_key_byte byte =
    (is_ascii_digit byte || is_ascii_uppercase byte || is_ascii_lowercase byte)
    || any (λ mark. byte == mark) (codes "!#$%&'*+-.^_`|~")

unfoldable pub valid_baggage_key : Text → Bool
valid_baggage_key value = not (is_empty value) && all is_baggage_key_byte value

unfoldable pub is_baggage_octet : ℕ → Bool
is_baggage_octet byte =
    (byte == 0x21
      || (leb 0x23 byte && leb byte 0x2b)
      || (leb 0x2d byte && leb byte 0x3a)
      || (leb 0x3c byte && leb byte 0x5b)
      || (leb 0x5d byte && leb byte 0x7e))
    && not (byte == b'%')

-- The loop over the bytes.
unfoldable pub valid_baggage_value : Text → Bool
unfolding is_baggage_octet
valid_baggage_value [] = true
valid_baggage_value (byte ∷ []) = if byte == b'%' then false else is_baggage_octet byte
valid_baggage_value (byte ∷ h ∷ []) =
    let next = valid_baggage_value (h ∷ []) in
    if byte == b'%' then false else is_baggage_octet byte && next
valid_baggage_value (byte ∷ h ∷ l ∷ rest) =
    let skipped = valid_baggage_value rest in
    let next = valid_baggage_value (h ∷ l ∷ rest) in
    if byte == b'%'
    then is_some (hex_digit h) && is_some (hex_digit l) && skipped
    else is_baggage_octet byte && next

abbrev pub invalid_property : Text
invalid_property = codes "durable W3C baggage property is invalid"

abbrev pub invalid_baggage_member : Text
invalid_baggage_member = codes "durable W3C baggage member is invalid"

-- What stands before the separator and, if there is one, what stands behind it.
abbrev pub halves : Text → Option (Text × Text) → Text × Option Text
halves whole none = (whole, none)
halves whole (some (front, rest)) = (front, some rest)

abbrev pub valid_optional_value : Option Text → Bool
valid_optional_value none = true
valid_optional_value (some value) = valid_baggage_value (trim_ows value)

-- The loop over the properties of a member, with the keys of those before.
unfoldable pub validate_properties : List Text → List Text → Result Text (Unit {0})
unfolding valid_baggage_key split_once trim_ows valid_baggage_value
validate_properties keys [] = ok tt
validate_properties keys (raw_property ∷ raw_properties) =
    let property = trim_ows raw_property in
    let pair = halves property (split_once b'=' property) in
    let key = trim_ows pair.0 in
    (do
      ensure (not (is_empty property)) invalid_property
      ensure (valid_baggage_key key && not (any (text_eq key) keys)) invalid_property
      ensure (valid_optional_value pair.1) (codes "durable W3C baggage property value is invalid")
      validate_properties (key ∷ keys) raw_properties)

unfoldable pub validate_optional_properties : Option Text → Result Text (Unit {0})
unfolding validate_properties
validate_optional_properties none = ok tt
validate_optional_properties (some raw_properties) =
    validate_properties [] (split b';' raw_properties)

-- What stands behind the key of a member.
unfoldable pub validate_member_value : Text → Result Text (Unit {0})
unfolding validate_optional_properties
validate_member_value raw =
    let value = halves raw (split_once b';' raw) in
    (do
      ensure (valid_baggage_value (trim_ows value.0)) (codes "durable W3C baggage value is invalid")
      validate_optional_properties value.1)

-- The loop over the members, with the keys of those before.
unfoldable pub validate_baggage_members : List Text → List Text → Result Text (Unit {0})
unfolding validate_member_value
validate_baggage_members keys [] = ok tt
validate_baggage_members keys (raw_member ∷ raw_members) = do
  ensure (not (is_empty (trim_ows raw_member))) invalid_baggage_member
  (key, raw_value) ← ok_or (split_once b'=' (trim_ows raw_member)) invalid_baggage_member
  ensure (valid_baggage_key (trim_ows key) && not (any (text_eq (trim_ows key)) keys))
      invalid_baggage_member
  validate_member_value raw_value
  validate_baggage_members (trim_ows key ∷ keys) raw_members

unfoldable pub validate_baggage_header : Text → Result Text (Unit {0})
unfolding validate_baggage_members
validate_baggage_header value = do
  ensure (not (is_empty value)) (codes "durable W3C baggage is empty")
  ensure (not (ltb max_baggage_header_bytes (length value)))
      (codes "durable W3C baggage exceeds 8192 bytes")
  ensure (not (ltb max_baggage_members (length (split b',' value))))
      (codes "durable W3C baggage exceeds 64 members")
  validate_baggage_members [] (split b',' value)
