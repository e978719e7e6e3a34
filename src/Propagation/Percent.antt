-- ===== src/Propagation/Percent.antt =====
-- Percent-decoding of a baggage value, `decode_baggage_value` of
-- libs/playground-telemetry/src/propagation.rs, beside the encoding of RFC 3986, section 2.
use parallax_telemetry_playg.Prelude.{
  ℕ, ◌+◌, ◌*◌, ◌/◌, ◌%◌, ◌<◌, ◌≡◌, refl, Bool, true, ◌||◌, some, [], ◌∷◌, ◌++◌, Text, Result, ok,
  err, ◌>>=◌, ◌>>◌, ok_or, ensure, ltb, leb, ◌==◌, if◌then◌else◌, all, All, is_utf8, arith,
  Bool-cases, inl, inr, is_ascii_digit, is_ascii_lowercase, ◌&&◌,
}
use parallax_telemetry_playg.Propagation.Bytes.{hex_digit}

pub data TenantIdentityError : Type 0 where
  missing invalid conflicting : TenantIdentityError

abbrev Decoded : Type 0
Decoded = Result TenantIdentityError Text

abbrev pub push : ℕ → Decoded → Decoded
push b (ok bytes) = ok (b ∷ bytes)
push b (err e) = err e

-- The byte that two digits write, and then the rest.
unfoldable pub push_escaped : ℕ → ℕ → Decoded → Decoded
push_escaped h l rest = do
  high ← ok_or (hex_digit h) invalid
  low ← ok_or (hex_digit l) invalid
  push (high * 16 + low) rest

-- The loop over the bytes.
unfoldable pub decode_bytes : Text → Decoded
unfolding push_escaped
decode_bytes [] = ok []
decode_bytes (b ∷ []) = if b == b'%' then err invalid else ok (b ∷ [])
decode_bytes (b ∷ h ∷ []) =
    let next = decode_bytes (h ∷ []) in if b == b'%' then err invalid else push b next
decode_bytes (b ∷ h ∷ l ∷ rest) =
    let skipped = decode_bytes rest in
    let next = decode_bytes (h ∷ l ∷ rest) in
    if b == b'%' then push_escaped h l skipped else push b next

unfoldable pub decode_baggage_value : Text → Decoded
unfolding decode_bytes
decode_baggage_value value = do
  decoded ← decode_bytes value
  ensure (is_utf8 decoded) invalid
  ok decoded

-- The characters that RFC 3986 calls unreserved.
abbrev pub is_unreserved : ℕ → Bool
is_unreserved b =
    is_ascii_digit b
    || is_ascii_lowercase b
    || (leb b'A' b && leb b b'Z')
    || b == b'-'
    || b == b'.'
    || b == b'_'
    || b == b'~'

abbrev pub hex_char : ℕ → ℕ
hex_char d = if ltb d 10 then 48 + d else 55 + d

abbrev pub encode_byte : ℕ → Text
encode_byte b =
    if is_unreserved b then b ∷ [] else b'%' ∷ hex_char (b / 16) ∷ hex_char (b % 16) ∷ []

-- Percent-encoding of all but the unreserved characters.
unfoldable pub encode : Text → Text
encode [] = []
encode (b ∷ bs) = encode_byte b ++ encode bs

-- A byte, and not a larger number.
abbrev pub IsByte : ℕ → Type 0
IsByte b = b < 256

pub hex_digit-hex_char : (d : ℕ) → d < 16 → hex_digit (hex_char d) ≡ some d
unfolding hex_digit
hex_digit-hex_char d h = ground arith

pub decode_bytes-plain :
    (b : ℕ) (rest : Text)
    → (b == b'%') ≡ Bool.false
    → decode_bytes (b ∷ rest) ≡ push b (decode_bytes rest)
unfolding decode_bytes
decode_bytes-plain b [] h = rw h refl
decode_bytes-plain b (x ∷ []) h = rw h refl
decode_bytes-plain b (x ∷ y ∷ rest) h = rw h refl

decode_bytes-escaped :
    (b : ℕ) (rest : Text)
    → b < 256
    → decode_bytes (b'%' ∷ hex_char (b / 16) ∷ hex_char (b % 16) ∷ rest)
      ≡ push b (decode_bytes rest)
unfolding decode_bytes push_escaped
decode_bytes-escaped b rest h =
    let whole : (b / 16) * 16 + b % 16 ≡ b = omega arith in
    rw (hex_digit-hex_char (b / 16) (omega arith))
      (rw (hex_digit-hex_char (b % 16) (omega arith)) (rw whole refl))

decode_bytes-encode : (s : Text) → All IsByte s → decode_bytes (encode s) ≡ ok s
unfolding encode decode_bytes
decode_bytes-encode [] h = refl
decode_bytes-encode (b ∷ bs) h = elim (Bool-cases (is_unreserved b)) [
  | inl plain ↦
      rw plain (
        rw (decode_bytes-plain b (encode bs) (ground arith)) (rw (decode_bytes-encode bs h.1) refl))
  | inr other ↦
      rw other (rw (decode_bytes-escaped b (encode bs) h.0) (rw (decode_bytes-encode bs h.1) refl))
]

-- Decoding the percent-encoding of UTF-8 text gives the text back.
pub decode_baggage_value-encode :
    (s : Text) → All IsByte s → is_utf8 s ≡ true → decode_baggage_value (encode s) ≡ ok s
unfolding decode_baggage_value
decode_baggage_value-encode s h valid = rw (decode_bytes-encode s h) (rw valid refl)

-- Bytes, by a run.
pub bytes : (s : Text) → all (λ b. ltb b 256) s ≡ true → All IsByte s
bytes [] h = tt
bytes (b ∷ bs) h = (ground (arith, h), bytes bs (ground (arith, h)))
