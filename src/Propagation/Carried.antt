-- ===== src/Propagation/Carried.antt =====
-- A tenant written into a baggage header and resolved from it: `resolve_tenant_candidates` of
-- libs/playground-telemetry/src/propagation.rs.
use parallax_telemetry_playg.Prelude.{
  ℕ, length, subst, ◌<◌, ◌/◌, ◌%◌, ◌⊎◌, ◌≡◌, refl, sym, ap, ◌∙◌, true, false, Bool-cases, inl, inr,
  none, some, List, [], ◌∷◌, ◌++◌, Text, ok, ◌==◌, All, All-imp, All-++, ++-nil, arith, text_eq,
  trim, is_utf8, split, join, pieces, pieces-Lacks, Lacks, lacks, split_once, split_once-++,
  split-join,
}
use parallax_telemetry_playg.Propagation.Bytes.{tenant_id_key}
use parallax_telemetry_playg.Propagation.Percent.{
  encode, encode_byte, is_unreserved, hex_char, IsByte, decode_baggage_value-encode,
}
use parallax_telemetry_playg.Propagation.Tenant.{
  normalize_tenant_candidate, tenant_of_pair, member_identity, resolve_tenant_candidates,
}
use parallax_telemetry_playg.Propagation.Agreement.{members_claims, resolve_tenant_candidates_iff}
use parallax_telemetry_playg.Propagation.Trim.{IsVisible, trim-visible}

-- The member of a baggage header for the tenant.
abbrev pub tenant_member : Text → Text
tenant_member t = tenant_id_key ++ (b'=' ∷ encode t)

-- What the encoding writes: visible, and no separator of a baggage header.
abbrev IsToken : ℕ → Type 0
IsToken b = IsVisible b × ((b == b',') ≡ false) × ((b == b';') ≡ false)

encode-IsToken : (s : Text) → All IsByte s → All IsToken (encode s)
unfolding encode
encode-IsToken [] h = tt
encode-IsToken (b ∷ bs) h =
    All-++ IsToken (encode_byte b) (encode bs) (byte (Bool-cases (is_unreserved b)))
      (encode-IsToken bs h.1)
  where
    digit : (d : ℕ) → d < 16 → IsToken (hex_char d)
    digit d h = ground arith

    byte : (is_unreserved b ≡ true) ⊎ (is_unreserved b ≡ false) → All IsToken (encode_byte b)
    byte (inl plain) = rw plain (ground (arith, plain), tt)
    byte (inr other) =
        rw other
          (ground arith, (digit (b / 16) (omega (arith, h.0)), (digit (b % 16) (omega arith), tt)))

-- A member that is no pair or whose key is not the tenant's.
abbrev pub IsOther : Text → Type 0
IsOther member = Lacks b',' member × (tenant_of_pair (split_once b'=' member) ≡ none)

module _ (t : Text) (bytes : All IsByte t) (valid : is_utf8 t ≡ true)
    (normal : normalize_tenant_candidate t ≡ ok t) where
  tokens : All IsToken (encode t)
  tokens = encode-IsToken t bytes

  visible : All IsVisible (encode t)
  visible = All-imp IsToken IsVisible (λ b h. h.0) (encode t) tokens

  tenant-Lacks : Lacks b',' (tenant_member t)
  tenant-Lacks =
      All-++ (λ b. (b == b',') ≡ false) tenant_id_key (b'=' ∷ encode t)
        (lacks b',' tenant_id_key refl)
        (refl, All-imp IsToken (λ b. (b == b',') ≡ false) (λ b h. h.1) (encode t) tokens)

  tenant-pair : tenant_of_pair (split_once b'=' (tenant_member t)) ≡ some (encode t)
  unfolding tenant_of_pair text_eq trim
  tenant-pair =
      ap tenant_of_pair
        (split_once-++ b'=' tenant_id_key (encode t) (lacks b'=' tenant_id_key refl))

  tenant-identity : member_identity (encode t) ≡ ok t
  unfolding member_identity
  tenant-identity =
      let plain : trim (pieces b';' (encode t)).0 ≡ encode t =
        ap (λ p. trim p.0)
          (pieces-Lacks b';' (encode t)
            (All-imp IsToken (λ b. (b == b';') ≡ false) (λ b h. h.2) (encode t) tokens))
        ∙ trim-visible (encode t) visible in
      rw plain (rw (decode_baggage_value-encode t bytes valid) normal)

others-claims :
    (members rest : List Text)
    → All IsOther members
    → members_claims (members ++ rest) ≡ members_claims rest
others-claims [] rest h = refl
others-claims (m ∷ ms) rest h = rw h.0.1 (others-claims ms rest h.1)

split-members :
    (members rest : List Text) (m : Text)
    → All (Lacks b',') (members ++ (m ∷ rest))
    → split b',' (join b',' (members ++ (m ∷ rest))) ≡ members ++ (m ∷ rest)
split-members [] rest m h = split-join b',' m rest h
split-members (x ∷ xs) rest m h = split-join b',' x (xs ++ (m ∷ rest)) h

-- A tenant identity that a sender percent-encodes into a baggage header, among members for
-- other keys, is the identity that the receiver resolves from the header.
pub resolve-encode :
    (t : Text) (before after : List Text)
    → All IsByte t
    → is_utf8 t ≡ true
    → normalize_tenant_candidate t ≡ ok t
    → All IsOther before
    → All IsOther after
    → resolve_tenant_candidates none [] (join b',' (before ++ (tenant_member t ∷ after)) ∷ [])
      ≡ ok t
resolve-encode t before after bytes valid normal h g =
    let members = before ++ (tenant_member t ∷ after) in
    let apart =
      λ (ms : List Text) (o : All IsOther ms). All-imp IsOther (Lacks b',') (λ m p. p.0) ms o in
    let parts = split-members before after (tenant_member t) (
      All-++ (Lacks b',') before (tenant_member t ∷ after) (apart before h)
        (tenant-Lacks t bytes valid normal, apart after g)) in
    let own : members_claims (tenant_member t ∷ after) ≡ ok t ∷ [] =
      rw (tenant-pair t bytes valid normal) (
        rw (tenant-identity t bytes valid normal) (
          ap (λ ks. ok t ∷ ks)
            (ap members_claims (sym (++-nil after)) ∙ others-claims after [] g))) in
    let all_claims : members_claims (split b',' (join b',' members)) ++ [] ≡ ok t ∷ [] =
      ++-nil _ ∙ ap members_claims parts ∙ others-claims before (tenant_member t ∷ after) h ∙ own in
    (resolve_tenant_candidates_iff t none [] (join b',' members ∷ [])).1 (
      subst (λ ks. (0 < length ks) × All (λ k. k ≡ ok t) ks) (sym all_claims)
        (omega arith, (refl, tt)))
