-- ===== src/Propagation/Refusal.antt =====
-- Which tenants `resolve_tenant_candidates` of libs/playground-telemetry/src/propagation.rs
-- resolves, and when it finds none.
use parallax_telemetry_playg.Prelude.{
  All-++, ℕ, ◌*◌, ◌+◌, ◌≤◌, ◌<◌, ◌≡◌, ◌↔◌, refl, true, false, Bool, ◌||◌, Option, none, some, List,
  [], ◌∷◌, map, Text, ok, err, ◌>>=◌, ◌>>◌, ensure, ok_or, if◌then◌else◌, pieces, subst, text_eq,
  not, any, arith, All, length, is_empty, ltb, trim, has_control, split, split_once, is_utf8, ◌==◌,
}
use parallax_telemetry_playg.Propagation.Bytes.{max_business_baggage_value_length, hex_digit}
use parallax_telemetry_playg.Propagation.Percent.{
  TenantIdentityError, missing, invalid, conflicting, push, push_escaped, decode_bytes,
  decode_baggage_value,
}
use parallax_telemetry_playg.Propagation.Tenant.{
  Identity, normalize_tenant_candidate, tenant_of_pair, member_identity, agree, Candidates,
  resolve_tenant_candidates,
}
use parallax_telemetry_playg.Propagation.Agreement.{
  request_claims, member_claims, members_claims, baggage_claims, claims, collect, resolve-collect,
  resolve_tenant_candidates_iff,
}

abbrev pub IsTenant : Text → Type 0
IsTenant t =
    (0 < length t) × (length t ≤ max_business_baggage_value_length) × (has_control t ≡ false)

-- Nothing but a tenant is resolved, and no refusal but `invalid` is given.
abbrev IsSound : (Text → Type 0) → Identity → Type 0
IsSound P (ok t) = P t
IsSound P (err e) = e ≡ invalid

abbrev Anything : Text → Type 0
Anything t = Unit {0}

push-IsSound : (b : ℕ) (r : Identity) → IsSound Anything r → IsSound Anything (push b r)
push-IsSound b (ok t) h = tt
push-IsSound b (err e) h = h

escaped-IsSound :
    (h l : ℕ) (r : Identity) → IsSound Anything r → IsSound Anything (push_escaped h l r)
unfolding push_escaped
escaped-IsSound h l r s = digits (hex_digit h) (hex_digit l)
  where
    digits :
        (a b : Option ℕ)
        → IsSound Anything
            (do high ← ok_or a invalid; low ← ok_or b invalid; push (high * 16 + low) r)
    digits none b = refl
    digits (some high) none = refl
    digits (some high) (some low) = push-IsSound (high * 16 + low) r s

if-IsSound :
    (P : Text → Type 0) (b : Bool) (r q : Identity)
    → (b ≡ true → IsSound P r)
    → (b ≡ false → IsSound P q)
    → IsSound P (if b then r else q)
if-IsSound P true r q h g = h refl
if-IsSound P false r q h g = g refl

decode_bytes-IsSound : (s : Text) → IsSound Anything (decode_bytes s)
unfolding decode_bytes
decode_bytes-IsSound [] = tt
decode_bytes-IsSound (b ∷ []) = if-IsSound Anything (b == b'%') _ _ (λ _. refl) (λ _. tt)
decode_bytes-IsSound (b ∷ h ∷ []) =
    if-IsSound Anything (b == b'%') _ _ (λ _. refl)
      (λ _. push-IsSound b _ (decode_bytes-IsSound (h ∷ [])))
decode_bytes-IsSound (b ∷ h ∷ l ∷ rest) =
    if-IsSound Anything (b == b'%') _ _ (λ _. escaped-IsSound h l _ (decode_bytes-IsSound rest))
      (λ _. push-IsSound b _ (decode_bytes-IsSound (h ∷ l ∷ rest)))

bind-IsSound :
    (P Q : Text → Type 0) (r : Identity) (f : Text → Identity)
    → IsSound P r
    → ((t : Text) → IsSound Q (f t))
    → IsSound Q (r >>= f)
bind-IsSound P Q (ok t) f h g = g t
bind-IsSound P Q (err e) f h g = h

decode-IsSound : (s : Text) → IsSound Anything (decode_baggage_value s)
unfolding decode_baggage_value
decode-IsSound s =
    bind-IsSound Anything Anything (decode_bytes s) _ (decode_bytes-IsSound s)
      (λ t. valid t (is_utf8 t))
  where
    valid : (t : Text) (b : Bool) → IsSound Anything (ensure b invalid >> ok t)
    valid t true = tt
    valid t false = refl

normalize-IsSound : (s : Text) → IsSound IsTenant (normalize_tenant_candidate s)
unfolding normalize_tenant_candidate
normalize-IsSound s =
    if-IsSound IsTenant
      (is_empty (trim s)
        || ltb max_business_baggage_value_length (length (trim s))
        || has_control (trim s))
      _ _ (λ _. refl) (λ good. fits (trim s) good)
  where
    fits :
        (t : Text)
        → (is_empty t || ltb max_business_baggage_value_length (length t) || has_control t) ≡ false
        → IsTenant t
    fits [] h = absurd (cc)
    fits (b ∷ bs) h = ground arith

member-IsSound : (s : Text) → IsSound IsTenant (member_identity s)
unfolding member_identity
member-IsSound s =
    bind-IsSound Anything IsTenant (decode_baggage_value (trim (pieces b';' s).0))
      normalize_tenant_candidate (decode-IsSound _) normalize-IsSound

explicit-Sound :
    (values : List Text) → All (IsSound IsTenant) (map normalize_tenant_candidate values)
explicit-Sound [] = tt
explicit-Sound (value ∷ values) = (normalize-IsSound value, explicit-Sound values)

members-Sound : (members : List Text) → All (IsSound IsTenant) (members_claims members)
members-Sound [] = tt
members-Sound (member ∷ members) =
    All-++ (IsSound IsTenant) (member_claims (tenant_of_pair (split_once b'=' member))) _
      (own (tenant_of_pair (split_once b'=' member))) (members-Sound members)
  where
    own : (o : Option Text) → All (IsSound IsTenant) (member_claims o)
    own none = tt
    own (some raw_value) = (member-IsSound raw_value, tt)

baggage-Sound : (values : List Text) → All (IsSound IsTenant) (baggage_claims values)
baggage-Sound [] = tt
baggage-Sound (value ∷ values) =
    All-++ (IsSound IsTenant) _ _ (members-Sound (split b',' value)) (baggage-Sound values)

request-Sound : (o : Option Text) → All (IsSound IsTenant) (request_claims o)
request-Sound none = tt
request-Sound (some value) = (normalize-IsSound value, tt)

claims-Sound :
    (request_tenant : Option Text) (explicit baggage : List Text)
    → All (IsSound IsTenant) (claims request_tenant explicit baggage)
claims-Sound request_tenant explicit baggage =
    All-++ (IsSound IsTenant) _ _ (request-Sound request_tenant)
      (All-++ (IsSound IsTenant) _ _ (explicit-Sound explicit) (baggage-Sound baggage))

collect-invalid :
    (ks : List Identity)
    → All (IsSound IsTenant) ks
    → (e : TenantIdentityError) → collect ks ≡ err e
    → e ≡ invalid
collect-invalid [] h e p = absurd (cc)
collect-invalid (err x ∷ ks) h e p = cc
collect-invalid (ok c ∷ ks) h e p = rest (collect ks) (collect-invalid ks h.1 e) p
  where
    rest :
        (r : Candidates)
        → (r ≡ err e → e ≡ invalid)
        → (do cs ← r; ok (c ∷ cs)) ≡ err e
        → e ≡ invalid
    rest (ok cs) g p = absurd (cc)
    rest (err x) g p = g (cc)

agree-named :
    (c : Text) (r : Candidates)
    → ((e : TenantIdentityError) → r ≡ err e → e ≡ invalid)
    → ((do cs ← r; ok (c ∷ cs)) >>= agree) ≡ err missing
    → ⊥
unfolding agree
agree-named c (err x) g p = let same : x ≡ invalid = g x refl in cc
agree-named c (ok cs) g p = test (any (λ d. not (text_eq d c)) (c ∷ cs)) p
  where
    test : (b : Bool) → ◌≡◌ {A = Identity} (if b then err conflicting else ok c) (err missing) → ⊥
    test true p = cc
    test false p = cc

missing_iff :
    (ks : List Identity)
    → All (IsSound IsTenant) ks
    → ((collect ks >>= agree) ≡ err missing) ↔ (ks ≡ [])
unfolding agree
missing_iff [] h = (λ _. refl, λ _. refl)
missing_iff (err e ∷ ks) h = (λ p. absurd (cc), λ p. absurd (cc))
missing_iff (ok c ∷ ks) h =
    (λ p. absurd (agree-named c (collect ks) (collect-invalid ks h.1) p), λ p. absurd (cc))

-- A request is refused as lacking a tenant exactly when no source names one: a source that names
-- none that is valid is never passed over.
pub resolve-missing_iff :
    (request_tenant : Option Text) (explicit baggage : List Text)
    → (resolve_tenant_candidates request_tenant explicit baggage ≡ err missing)
      ↔ (claims request_tenant explicit baggage ≡ [])
resolve-missing_iff request_tenant explicit baggage =
    rw (resolve-collect request_tenant explicit baggage) (
      missing_iff (claims request_tenant explicit baggage)
        (claims-Sound request_tenant explicit baggage))

-- A tenant that is resolved is not empty, has at most 128 bytes and no control character.
pub resolve-IsTenant :
    (t : Text) (request_tenant : Option Text) (explicit baggage : List Text)
    → resolve_tenant_candidates request_tenant explicit baggage ≡ ok t
    → IsTenant t
resolve-IsTenant t request_tenant explicit baggage e =
    let both = (resolve_tenant_candidates_iff t request_tenant explicit baggage).0 e in
    named (claims request_tenant explicit baggage) both.0 both.1
      (claims-Sound request_tenant explicit baggage)
  where
    named :
        (ks : List Identity)
        → 0 < length ks
        → All (λ k. k ≡ ok t) ks
        → All (IsSound IsTenant) ks
        → IsTenant t
    named [] some_one same sound = absurd (omega (arith, some_one))
    named (k ∷ ks) some_one same sound = subst (IsSound IsTenant) same.0 sound.0
