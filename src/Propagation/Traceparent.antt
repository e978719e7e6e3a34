-- ===== src/Propagation/Traceparent.antt =====
-- `validate_traceparent_header` of libs/playground-telemetry/src/propagation.rs.
use parallax_telemetry_playg.Prelude.{
  ℕ, all_iff, length-++, ◌+◌, ◌≡◌, ◌↔◌, refl, sym, ap, ◌∙◌, Bool, true, false, not, ◌&&◌, List, [],
  ◌∷◌, Text, codes, Result, ok, ensure, ◌==◌, All, length, text_eq, text_eq_iff, split, pieces,
  join, tails, join-split, split-join, Lacks, arith,
}
use parallax_telemetry_playg.Propagation.Bytes.{
  max_traceparent_header_bytes, is_lower_hex_byte, is_lower_hex, all_zero_hex,
}

-- The four parts pass the tests.
unfoldable pub is_traceparent : List Text → Bool
is_traceparent (version ∷ trace_id ∷ span_id ∷ flags ∷ []) =
    text_eq version (codes "00")
    && is_lower_hex trace_id 32
    && not (all_zero_hex trace_id)
    && is_lower_hex span_id 16
    && not (all_zero_hex span_id)
    && is_lower_hex flags 2
is_traceparent _ = false

unfoldable pub validate_traceparent_header : Text → Result Text (Unit {0})
unfolding pieces is_traceparent
validate_traceparent_header value =
    ensure (length value == max_traceparent_header_bytes && is_traceparent (split b'-' value))
      (codes "durable W3C traceparent is invalid")

-- A hexadecimal number of so many digits.
abbrev pub IsHex : ℕ → Text → Type 0
IsHex count t = (length t ≡ count) × All (λ b. is_lower_hex_byte b ≡ true) t

-- `00-<trace>-<span>-<flags>` with a trace and a span that are not all zeros.
pub record Traceparent (value : Text) : Type 0 where
  pub trace_id : Text
  pub span_id : Text
  pub flags : Text
  pub written : value ≡ join b'-' (codes "00" ∷ trace_id ∷ span_id ∷ flags ∷ [])
  pub trace_hex : IsHex 32 trace_id
  pub trace_nonzero : all_zero_hex trace_id ≡ false
  pub span_hex : IsHex 16 span_id
  pub span_nonzero : all_zero_hex span_id ≡ false
  pub flags_hex : IsHex 2 flags

is_lower_hex_iff : (t : Text) (count : ℕ) → (is_lower_hex t count ≡ true) ↔ IsHex count t
unfolding is_lower_hex
is_lower_hex_iff t count = ground (arith, all_iff is_lower_hex_byte t)

hex-Lacks : (t : Text) → All (λ b. is_lower_hex_byte b ≡ true) t → Lacks b'-' t
hex-Lacks [] h = tt
hex-Lacks (b ∷ bs) h = (digit b h.0, hex-Lacks bs h.1)
  where
    digit : (b : ℕ) → is_lower_hex_byte b ≡ true → (b == b'-') ≡ false
    digit b h = ground arith

parts-Traceparent :
    (value : Text) (parts : List Text)
    → join b'-' parts ≡ value
    → is_traceparent parts ≡ true
    → Traceparent value
unfolding is_traceparent join tails
parts-Traceparent value (version ∷ trace_id ∷ span_id ∷ flags ∷ []) e h = record {
  trace_id = trace_id;
  span_id = span_id;
  flags = flags;
  written =
      sym e
      ∙ ap (λ v. join b'-' (v ∷ trace_id ∷ span_id ∷ flags ∷ []))
          ((text_eq_iff version (codes "00")).0 (ground arith));
  trace_hex = (is_lower_hex_iff trace_id 32).0 (ground arith);
  trace_nonzero = ground arith;
  span_hex = (is_lower_hex_iff span_id 16).0 (ground arith);
  span_nonzero = ground arith;
  flags_hex = (is_lower_hex_iff flags 2).0 (ground arith);
}
parts-Traceparent value [] e h = absurd (cc)
parts-Traceparent value (a ∷ []) e h = absurd (cc)
parts-Traceparent value (a ∷ b ∷ []) e h = absurd (cc)
parts-Traceparent value (a ∷ b ∷ c ∷ []) e h = absurd (cc)
parts-Traceparent value (a ∷ b ∷ c ∷ d ∷ f ∷ rest) e h = absurd (cc)

length-tails :
    (c : ℕ) (p : Text) (ps : List Text)
    → length (tails c (p ∷ ps)) ≡ 1 + (length p + length (tails c ps))
unfolding tails
length-tails c p ps = omega (arith, length-++ p (tails c ps))

module _ (value : Text) (t : Traceparent value) where
  split-Traceparent : split b'-' value ≡ codes "00" ∷ t.trace_id ∷ t.span_id ∷ t.flags ∷ []
  split-Traceparent =
      ap (split b'-') t.written
      ∙ split-join b'-' (codes "00") (t.trace_id ∷ t.span_id ∷ t.flags ∷ []) (
        (refl, (refl, tt)),
        (
          hex-Lacks t.trace_id t.trace_hex.1,
          (hex-Lacks t.span_id t.span_hex.1, (hex-Lacks t.flags t.flags_hex.1, tt)),
        ),
      )

  pub length-Traceparent : length value ≡ max_traceparent_header_bytes
  unfolding join tails
  length-Traceparent =
      ap length t.written
      ∙ ground (
        arith,
        t.trace_hex.0,
        t.span_hex.0,
        t.flags_hex.0,
        length-tails b'-' t.trace_id (t.span_id ∷ t.flags ∷ []),
        length-tails b'-' t.span_id (t.flags ∷ []),
        length-tails b'-' t.flags [],
      )

  parts-pass : is_traceparent (codes "00" ∷ t.trace_id ∷ t.span_id ∷ t.flags ∷ []) ≡ true
  unfolding is_traceparent text_eq
  parts-pass = rw ((is_lower_hex_iff t.trace_id 32).1 t.trace_hex) (
      rw ((is_lower_hex_iff t.span_id 16).1 t.span_hex) (
        rw ((is_lower_hex_iff t.flags 2).1 t.flags_hex)
          (rw t.trace_nonzero (rw t.span_nonzero refl))))

-- A traceparent is accepted exactly when it is written `00-<trace>-<span>-<flags>` with lower-case
-- hexadecimal numbers of 32, 16 and 2 digits, of which the trace and the span are not all zeros.
pub validate_traceparent_header_iff :
    (value : Text) → (validate_traceparent_header value ≡ ok tt) ↔ Traceparent value
unfolding validate_traceparent_header
validate_traceparent_header_iff value = (
  (λ h. parts-Traceparent value (split b'-' value) (join-split b'-' value) (ground arith)),
  (λ t.
      rw (length-Traceparent value t)
        (rw (split-Traceparent value t) (rw (parts-pass value t) refl))),
)
