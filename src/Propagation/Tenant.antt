-- ===== src/Propagation/Tenant.antt =====
-- The tenant identity of a request: `resolve_http_tenant_identity`,
-- `resolve_grpc_tenant_identity` and `resolve_tenant_candidates` of
-- libs/playground-telemetry/src/propagation.rs.
use parallax_telemetry_playg.Prelude.{
  not, ◌||◌, Option, none, some, List, [], ◌∷◌, ◌++◌, Text, codes, Result, ok, err, ◌>>=◌, ltb,
  if◌then◌else◌, length, is_empty, any, text_eq, trim, has_control, split, split_once, pieces,
}
use parallax_telemetry_playg.Propagation.Bytes.{max_business_baggage_value_length, tenant_id_key}
use parallax_telemetry_playg.Propagation.Percent.{
  TenantIdentityError, missing, invalid, conflicting, decode_baggage_value,
}
use parallax_telemetry_playg.Propagation.Headers.{HeaderApi, texts_of}

abbrev pub Identity : Type 0
Identity = Result TenantIdentityError Text

abbrev pub Candidates : Type 0
Candidates = Result TenantIdentityError (List Text)

unfoldable pub normalize_tenant_candidate : Text → Identity
normalize_tenant_candidate raw =
    let value = trim raw in
    if is_empty value || ltb max_business_baggage_value_length (length value) || has_control value
    then err invalid
    else ok value

-- The candidate of the request, when it names one.
unfoldable pub request_candidates : Option Text → Candidates
request_candidates none = ok []
request_candidates (some value) = do
  candidate ← normalize_tenant_candidate value
  ok (candidate ∷ [])

-- The loop over the explicit headers.
unfoldable pub explicit_candidates : List Text → Candidates
explicit_candidates [] = ok []
explicit_candidates (value ∷ values) = do
  candidate ← normalize_tenant_candidate value
  candidates ← explicit_candidates values
  ok (candidate ∷ candidates)

-- The raw value of a member `key=value` whose key is the tenant's.
unfoldable pub tenant_of_pair : Option (Text × Text) → Option Text
tenant_of_pair none = none
tenant_of_pair (some (key, raw_value)) =
    if text_eq (trim key) tenant_id_key then some raw_value else none

-- The value before the properties, decoded.
unfoldable pub member_identity : Text → Identity
unfolding pieces
member_identity raw_value = do
  value ← decode_baggage_value (trim (pieces b';' raw_value).0)
  normalize_tenant_candidate value

-- A member that is no pair, or has another key, is passed over.
unfoldable pub member_candidates : Option Text → Candidates
member_candidates none = ok []
member_candidates (some raw_value) = do candidate ← member_identity raw_value; ok (candidate ∷ [])

-- The loop over the members of one baggage header.
unfoldable pub members_candidates : List Text → Candidates
unfolding tenant_of_pair member_candidates
members_candidates [] = ok []
members_candidates (member ∷ members) = do
  candidate ← member_candidates (tenant_of_pair (split_once b'=' member))
  candidates ← members_candidates members
  ok (candidate ++ candidates)

-- The loop over the baggage headers.
unfoldable pub baggage_candidates : List Text → Candidates
unfolding members_candidates
baggage_candidates [] = ok []
baggage_candidates (value ∷ values) = do
  candidates ← members_candidates (split b',' value)
  others ← baggage_candidates values
  ok (candidates ++ others)

-- The candidates have to agree.
unfoldable pub agree : List Text → Identity
agree [] = err missing
agree (first ∷ rest) =
    if any (λ candidate. not (text_eq candidate first)) (first ∷ rest)
    then err conflicting
    else ok first

unfoldable pub resolve_tenant_candidates : Option Text → List Text → List Text → Identity
unfolding request_candidates explicit_candidates baggage_candidates agree
resolve_tenant_candidates request_tenant explicit baggage = do
  requested ← request_candidates request_tenant
  named ← explicit_candidates explicit
  carried ← baggage_candidates baggage
  agree (requested ++ (named ++ carried))

module _ {H V : Type 0} (api : HeaderApi H V) where
  -- Over the header map of the crate http.
  unfoldable pub resolve_http_tenant_identity : H → Option Text → Identity
  unfolding texts_of resolve_tenant_candidates
  resolve_http_tenant_identity headers request_tenant = do
    first ← texts_of api invalid (api.get_all headers (codes "x-tenant-id"))
    second ← texts_of api invalid (api.get_all headers (codes "tenant-id"))
    baggage ← texts_of api invalid (api.get_all headers (codes "baggage"))
    resolve_tenant_candidates request_tenant (first ++ second) baggage

  -- Over the metadata map of the crate tonic.
  unfoldable pub resolve_grpc_tenant_identity : H → Option Text → Identity
  unfolding texts_of resolve_tenant_candidates
  resolve_grpc_tenant_identity metadata request_tenant = do
    first ← texts_of api invalid (api.get_all metadata (codes "x-tenant-id"))
    second ← texts_of api invalid (api.get_all metadata (codes "tenant-id"))
    baggage ← texts_of api invalid (api.get_all metadata (codes "baggage"))
    resolve_tenant_candidates request_tenant (first ++ second) baggage
