-- ===== src/Propagation/Tracestate.antt =====
-- `validate_tracestate_header` of libs/playground-telemetry/src/propagation.rs and its tests.
use parallax_telemetry_playg.Prelude.{
  ℕ, suc, Bool, true, false, not, ◌&&◌, ◌||◌, List, [], ◌∷◌, Text, codes, Result, ok, ensure, ok_or,
  ◌>>=◌, ◌>>◌, ◌==◌, ltb, leb, length, is_empty, all, any, text_eq, split, pieces, split_once,
  is_ascii_digit, is_ascii_lowercase,
}
use parallax_telemetry_playg.Propagation.Bytes.{
  max_tracestate_header_bytes, max_tracestate_members, max_tracestate_member_bytes, is_ows,
  trim_ows,
}

abbrev pub is_key_byte : ℕ → Bool
is_key_byte byte =
    is_ascii_lowercase byte
    || is_ascii_digit byte
    || byte == b'_'
    || byte == b'-'
    || byte == b'*'
    || byte == b'/'

-- The bytes from an index on: the first one is a letter or a digit.
unfoldable pub key_bytes : ℕ → Text → Bool
key_bytes index [] = true
key_bytes index (byte ∷ bytes) =
    (is_key_byte byte && (ltb 0 index || is_ascii_lowercase byte || is_ascii_digit byte))
    && key_bytes (suc index) bytes

unfoldable pub valid_tracestate_key_part : Text → ℕ → Bool
unfolding key_bytes
valid_tracestate_key_part value max_length =
    not (is_empty value) && leb (length value) max_length && key_bytes 0 value

-- The parts around `@`.
unfoldable pub valid_key_parts : Text → List Text → Bool
valid_key_parts first [] = valid_tracestate_key_part first 256
valid_key_parts first (second ∷ []) =
    valid_tracestate_key_part first 241 && valid_tracestate_key_part second 14
valid_key_parts first (second ∷ third ∷ rest) = false

unfoldable pub valid_tracestate_key : Text → Bool
unfolding pieces valid_key_parts
valid_tracestate_key value = valid_key_parts (pieces b'@' value).0 (pieces b'@' value).1

-- `str::ends_with` of a space or a tab.
unfoldable pub ends_with_ows : Text → Bool
ends_with_ows [] = false
ends_with_ows (b ∷ []) = is_ows b
ends_with_ows (a ∷ b ∷ bs) = ends_with_ows (b ∷ bs)

abbrev pub is_value_byte : ℕ → Bool
is_value_byte byte = leb 0x20 byte && leb byte 0x7e && not (byte == b',' || byte == b'=')

unfoldable pub valid_tracestate_value : Text → Bool
unfolding ends_with_ows
valid_tracestate_value value = not (ends_with_ows value) && all is_value_byte value

abbrev pub invalid_member : Text
invalid_member = codes "durable W3C tracestate member is invalid"

-- The test of one member, given the keys before it.
unfoldable pub valid_member : List Text → Text → Text → Text → Bool
unfolding valid_tracestate_key valid_tracestate_key_part valid_tracestate_value
valid_member keys member key member_value =
    not (is_empty member)
    && leb (length member) max_tracestate_member_bytes
    && valid_tracestate_key key
    && not (is_empty member_value)
    && leb (length member_value) max_tracestate_member_bytes
    && valid_tracestate_value member_value
    && not (any (text_eq key) keys)

unfoldable pub pair_key : List Text → Text → Text × Text → Result Text Text
unfolding valid_member
pair_key keys member (key, member_value) = do
  ensure (valid_member keys member key member_value) invalid_member
  ok key

-- One round of the loop, which adds a key to those of the members before.
unfoldable pub member_key : List Text → ℕ → Text → Result Text Text
unfolding pair_key trim_ows split_once
member_key keys member_count raw_member = do
  ensure (not (is_empty (trim_ows raw_member))) invalid_member
  ensure (not (ltb max_tracestate_members (suc member_count)))
      (codes "durable W3C tracestate has invalid members")
  pair ← ok_or (split_once b'=' (trim_ows raw_member)) invalid_member
  pair_key keys (trim_ows raw_member) pair

-- The loop over the members, with the keys and the number of those before.
unfoldable pub validate_members : List Text → ℕ → List Text → Result Text (Unit {0})
unfolding member_key
validate_members keys member_count [] =
    ensure (not (member_count == 0)) (codes "durable W3C tracestate has no members")
validate_members keys member_count (raw_member ∷ raw_members) = do
  key ← member_key keys member_count raw_member
  validate_members (key ∷ keys) (suc member_count) raw_members

unfoldable pub validate_tracestate_header : Text → Result Text (Unit {0})
unfolding validate_members
validate_tracestate_header value = do
  ensure (not (ltb max_tracestate_header_bytes (length value)))
      (codes "durable W3C tracestate exceeds 512 bytes")
  validate_members [] 0 (split b',' value)
