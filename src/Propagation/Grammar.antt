-- ===== src/Propagation/Grammar.antt =====
-- The values that `valid_baggage_value` of libs/playground-telemetry/src/propagation.rs accepts,
-- as the grammar of W3C baggage writes them, and their decoding.
use parallax_telemetry_playg.Prelude.{
  ℕ, ◌+◌, ◌*◌, ◌/◌, ◌%◌, ◌<◌, ◌≡◌, ◌↔◌, ◌⊎◌, ◌≤◌, refl, true, inl, inr, Bool-cases, Option, none,
  some, [], ◌∷◌, Text, ok, ◌==◌, ==_iff, All, arith, subst, sym,
}
use parallax_telemetry_playg.Propagation.Bytes.{hex_digit, is_some}
use parallax_telemetry_playg.Propagation.Percent.{
  push, push_escaped, decode_bytes, encode, is_unreserved, hex_char, IsByte, decode_bytes-plain,
  hex_digit-hex_char,
}
use parallax_telemetry_playg.Propagation.Baggage.{is_baggage_octet, valid_baggage_value}

-- `baggage-octet`, without the percent sign, which stands for itself only as `%25`.
abbrev pub IsOctet : ℕ → Type 0
IsOctet b =
    (b ≡ 0x21)
    ⊎ ((0x23 ≤ b) × (b ≤ 0x24))
    ⊎ ((0x26 ≤ b) × (b ≤ 0x2b))
    ⊎ ((0x2d ≤ b) × (b ≤ 0x3a))
    ⊎ ((0x3c ≤ b) × (b ≤ 0x5b))
    ⊎ ((0x5d ≤ b) × (b ≤ 0x7e))

-- `HEXDIG`, in either case.
abbrev pub IsHex : ℕ → Type 0
IsHex b = ((0x30 ≤ b) × (b ≤ 0x39)) ⊎ ((0x41 ≤ b) × (b ≤ 0x46)) ⊎ ((0x61 ≤ b) × (b ≤ 0x66))

-- `value = *( baggage-octet / pct-encoded )`, with `pct-encoded = "%" HEXDIG HEXDIG`.
pub data BaggageValue : Text → Type 0 where
  empty : BaggageValue []
  octet : (b : ℕ) (rest : Text) → IsOctet b → BaggageValue rest → BaggageValue (b ∷ rest)
  escaped :
      (h l : ℕ) (rest : Text)
      → IsHex h
      → IsHex l
      → BaggageValue rest
      → BaggageValue (0x25 ∷ h ∷ l ∷ rest)

allowed_iff : (b : ℕ) → (is_baggage_octet b ≡ true) ↔ IsOctet b
unfolding is_baggage_octet
allowed_iff b = ground arith

digit_iff : (b : ℕ) → (is_some (hex_digit b) ≡ true) ↔ IsHex b
unfolding hex_digit
digit_iff b = ground arith

valid-octet :
    (b : ℕ) (rest : Text)
    → is_baggage_octet b ≡ true
    → valid_baggage_value (b ∷ rest) ≡ valid_baggage_value rest
unfolding valid_baggage_value is_baggage_octet
valid-octet b [] h = ground (arith, h)
valid-octet b (x ∷ []) h = ground (arith, h)
valid-octet b (x ∷ y ∷ rest) h = ground (arith, h)

of_grammar : (s : Text) → BaggageValue s → valid_baggage_value s ≡ true
unfolding valid_baggage_value
of_grammar _ empty = refl
of_grammar _ (octet b rest h g) = rw (valid-octet b rest ((allowed_iff b).1 h)) (of_grammar rest g)
of_grammar _ (escaped h l rest hh hl g) =
    rw ((digit_iff h).1 hh) (rw ((digit_iff l).1 hl) (of_grammar rest g))

to_grammar : (s : Text) → valid_baggage_value s ≡ true → BaggageValue s
unfolding valid_baggage_value
to_grammar [] h = empty
to_grammar (b ∷ []) h = octet b [] ((allowed_iff b).0 (ground (arith, h))) empty
to_grammar (b ∷ x ∷ []) h =
    octet b (x ∷ []) ((allowed_iff b).0 (ground (arith, h)))
      (to_grammar (x ∷ []) (ground (arith, h)))
to_grammar (b ∷ x ∷ y ∷ rest) h = elim (Bool-cases (b == b'%')) [
  | inl mark ↦
      subst (λ c. BaggageValue (c ∷ x ∷ y ∷ rest)) (sym ((==_iff b b'%').0 mark))
        (escaped x y rest ((digit_iff x).0 (ground (arith, h)))
          ((digit_iff y).0 (ground (arith, h))) (to_grammar rest (ground (arith, h))))
  | inr plain ↦
      octet b (x ∷ y ∷ rest) ((allowed_iff b).0 (ground (arith, h)))
        (to_grammar (x ∷ y ∷ rest) (ground (arith, h)))
]

-- A baggage value is valid exactly when the grammar of W3C baggage writes it: it is a sequence of
-- the octets 0x21, 0x23 to 0x2B, 0x2D to 0x3A, 0x3C to 0x5B and 0x5D to 0x7E, without the percent
-- sign 0x25, and of escapes of that sign and two hexadecimal digits.
pub valid_baggage_value_iff : (s : Text) → (valid_baggage_value s ≡ true) ↔ BaggageValue s
valid_baggage_value_iff s = (to_grammar s, of_grammar s)

digit-some : (o : Option ℕ) → is_some o ≡ true → (d : ℕ) × (o ≡ some d)
digit-some none e = absurd (cc)
digit-some (some d) e = (d, refl)

plain-decode :
    (b : ℕ) (rest : Text)
    → is_baggage_octet b ≡ true
    → decode_bytes (b ∷ rest) ≡ push b (decode_bytes rest)
unfolding is_baggage_octet
plain-decode b rest h = decode_bytes-plain b rest (ground (arith, h))

-- A valid baggage value decodes, to as many bytes as the grammar has characters.
decodes : (s : Text) → BaggageValue s → (bytes : Text) × (decode_bytes s ≡ ok bytes)
unfolding decode_bytes push_escaped
decodes _ empty = ([], refl)
decodes _ (octet b rest h g) =
    let (bytes, e) = decodes rest g in
    (b ∷ bytes, rw (plain-decode b rest ((allowed_iff b).1 h)) (rw e refl))
decodes _ (escaped h l rest hh hl g) =
    let (bytes, e) = decodes rest g in
    let (high, eh) = digit-some (hex_digit h) ((digit_iff h).1 hh) in
    let (low, el) = digit-some (hex_digit l) ((digit_iff l).1 hl) in
    ((high * 16 + low) ∷ bytes, rw eh (rw el (rw e refl)))

-- A baggage value that durable work may carry never has a malformed escape: its bytes decode.
pub valid-decode_bytes :
    (s : Text) → valid_baggage_value s ≡ true → (bytes : Text) × (decode_bytes s ≡ ok bytes)
valid-decode_bytes s h = decodes s (to_grammar s h)

hex_char-digit : (d : ℕ) → d < 16 → IsHex (hex_char d)
hex_char-digit d h = (digit_iff (hex_char d)).0 (rw (hex_digit-hex_char d h) refl)

encoded : (s : Text) → All IsByte s → BaggageValue (encode s)
unfolding encode is_baggage_octet
encoded [] h = empty
encoded (b ∷ bs) h = elim (Bool-cases (is_unreserved b)) [
  | inl plain ↦
      rw plain (octet b (encode bs) ((allowed_iff b).0 (ground (arith, plain))) (encoded bs h.1))
  | inr other ↦ rw other (
      escaped (hex_char (b / 16)) (hex_char (b % 16)) (encode bs)
        (hex_char-digit (b / 16) (omega (arith, h.0))) (hex_char-digit (b % 16) (omega arith))
        (encoded bs h.1))
]

-- The percent-encoding of any bytes is a valid baggage value.
pub valid-encode : (s : Text) → All IsByte s → valid_baggage_value (encode s) ≡ true
valid-encode s h = of_grammar (encode s) (encoded s h)
