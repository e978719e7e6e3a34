-- ===== src/Propagation/Examples.antt =====
-- The properties of propagation at concrete headers, and runs of the code.
use parallax_telemetry_playg.Prelude.{
  lacks, tails, split_once, ◌≤◌, ◌<◌, ◌≡◌, ◌↔◌, refl, true, none, some, List, [], ◌∷◌, ◌++◌, Text,
  codes, ok, err, length, All, split, join, text_eq, is_utf8, trim, has_control, pieces,
}
use parallax_telemetry_playg.Propagation.Bytes.{
  hex_digit, max_tracestate_header_bytes, max_tracestate_members, is_lower_hex, all_zero_hex,
}
use parallax_telemetry_playg.Propagation.Percent.{
  bytes, missing, conflicting, encode, decode_baggage_value, decode_baggage_value-encode,
}
use parallax_telemetry_playg.Propagation.Tenant.{
  member_identity, tenant_of_pair, normalize_tenant_candidate, resolve_tenant_candidates,
}
use parallax_telemetry_playg.Propagation.Agreement.{claims, resolve_tenant_candidates_iff}
use parallax_telemetry_playg.Propagation.Refusal.{resolve-missing_iff}
use parallax_telemetry_playg.Propagation.Traceparent.{
  Traceparent, validate_traceparent_header, validate_traceparent_header_iff,
}
use parallax_telemetry_playg.Propagation.Tracestate.{validate_tracestate_header}
use parallax_telemetry_playg.Propagation.Members.{AreEntries, validate_tracestate_header_iff}
use parallax_telemetry_playg.Propagation.Baggage.{valid_baggage_value, validate_baggage_header}
use parallax_telemetry_playg.Propagation.Grammar.{BaggageValue, valid_baggage_value_iff}
use parallax_telemetry_playg.Propagation.Carried.{tenant_member, resolve-encode}
use parallax_telemetry_playg.Propagation.Durable.{validate_durable_context}
use parallax_telemetry_playg.Propagation.Complete.{Durable, validate_durable_context_iff}
use parallax_telemetry_playg.Propagation.Business.{with_business_context_from_parent}
use parallax_telemetry_playg.Propagation.Safety.{
  ContextSafe, with_business_context_from_parent-IsSafe,
}
use parallax_telemetry_playg.Propagation.Samples.{
  header_api, traceparent, tracestate, carrier, bag_api, bag_laws, secret,
}

-- A name with an umlaut and a space.
abbrev cafe : Text
cafe = 67 ∷ 97 ∷ 102 ∷ 195 ∷ 169 ∷ 32 ∷ 49 ∷ []

cafe-valid : is_utf8 cafe ≡ true
unfolding is_utf8
cafe-valid = refl

cafe-normal : normalize_tenant_candidate cafe ≡ ok cafe
unfolding normalize_tenant_candidate trim has_control
cafe-normal = refl

decode_baggage_value-encode_example : decode_baggage_value (encode cafe) ≡ ok cafe
decode_baggage_value-encode_example = decode_baggage_value-encode cafe (bytes cafe refl) cafe-valid

resolve_tenant_candidates_iff_example :
    (resolve_tenant_candidates (some (codes "acme")) [] (codes "region=eu, tenant.id=acme" ∷ [])
      ≡ ok (codes "acme"))
    ↔ ((0 < length (claims (some (codes "acme")) [] (codes "region=eu, tenant.id=acme" ∷ [])))
        × All
            (λ k. k ≡ ok (codes "acme"))
            (claims (some (codes "acme")) [] (codes "region=eu, tenant.id=acme" ∷ [])))
resolve_tenant_candidates_iff_example =
    resolve_tenant_candidates_iff (codes "acme") (some (codes "acme")) []
      (codes "region=eu, tenant.id=acme" ∷ [])

-- Two sources agree, two differ, and none.
resolve_agreed :
    resolve_tenant_candidates
      (some (codes " acme "))
      []
      (codes "region=eu, tenant.id=ac%6De;x=1" ∷ [])
    ≡ ok (codes "acme")
unfolding resolve_tenant_candidates normalize_tenant_candidate trim has_control text_eq
    decode_baggage_value is_utf8 split_once pieces member_identity hex_digit
resolve_agreed = refl

resolve_differing :
    resolve_tenant_candidates (some (codes "acme")) (codes "zeta" ∷ []) [] ≡ err conflicting
unfolding resolve_tenant_candidates normalize_tenant_candidate trim has_control text_eq
    decode_baggage_value is_utf8
resolve_differing = refl

resolve-missing_iff_example :
    (resolve_tenant_candidates none [] (codes "region=eu" ∷ []) ≡ err missing)
    ↔ (claims none [] (codes "region=eu" ∷ []) ≡ [])
resolve-missing_iff_example = resolve-missing_iff none [] (codes "region=eu" ∷ [])

resolve-encode_example :
    resolve_tenant_candidates none [] (
      join b',' ((codes "region=eu" ∷ []) ++ (tenant_member cafe ∷ (codes "user.tier=free" ∷ [])))
      ∷ [])
    ≡ ok cafe
unfolding tenant_of_pair split_once text_eq trim
resolve-encode_example =
    resolve-encode cafe (codes "region=eu" ∷ []) (codes "user.tier=free" ∷ []) (bytes cafe refl)
      cafe-valid cafe-normal ((lacks b',' (codes "region=eu") refl, refl), tt)
      ((lacks b',' (codes "user.tier=free") refl, refl), tt)

validate_traceparent_header_iff_example :
    (validate_traceparent_header traceparent ≡ ok tt) ↔ Traceparent traceparent
validate_traceparent_header_iff_example = validate_traceparent_header_iff traceparent

validate_tracestate_header_iff_example : (validate_tracestate_header tracestate ≡ ok tt) ↔ (
    (length tracestate ≤ max_tracestate_header_bytes)
    × (length (split b',' tracestate) ≤ max_tracestate_members)
    × ((entries : List (Text × Text)) × AreEntries [] (split b',' tracestate) entries))
validate_tracestate_header_iff_example = validate_tracestate_header_iff tracestate

valid_baggage_value_iff_example :
    (valid_baggage_value (codes "caf%C3%A9") ≡ true) ↔ BaggageValue (codes "caf%C3%A9")
valid_baggage_value_iff_example = valid_baggage_value_iff (codes "caf%C3%A9")

validate_durable_context_iff_example :
    (validate_durable_context header_api carrier ≡ ok tt) ↔ Durable header_api carrier
validate_durable_context_iff_example = validate_durable_context_iff header_api carrier

-- The carrier is complete.
carrier_accepted : validate_durable_context header_api carrier ≡ ok tt
unfolding validate_durable_context validate_traceparent_header validate_tracestate_header
    validate_baggage_header text_eq is_lower_hex all_zero_hex join tails
carrier_accepted = refl

with_business_context_from_parent-IsSafe_example : ContextSafe bag_api bag_laws (
    with_business_context_from_parent bag_api secret secret
      (codes "acme")
      (codes "free")
      (codes "standard")
      (codes "eu")
      (codes "normal"))
with_business_context_from_parent-IsSafe_example =
    with_business_context_from_parent-IsSafe bag_api bag_laws secret secret (codes "acme")
      (codes "free") (codes "standard") (codes "eu") (codes "normal")
