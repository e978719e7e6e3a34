-- ===== src/Notifications/Carriers.antt =====
-- The W3C headers of a notification: `record_delivery`, `job_context_headers`, `insert_header`,
-- `header_value` and `header_values` of services/notifications/src/store.rs, and the tenant of
-- `notify_inner` of services/notifications/src/api.rs.
use parallax_telemetry_playg.Prelude.{
  ℕ, Option, none, some, List, [], ◌∷◌, Text, codes, Result, ok, err, ok_or, ◌>>=◌, ◌>>◌, join,
}
use parallax_telemetry_playg.Propagation.Percent.{
  TenantIdentityError, missing, invalid, conflicting,
}
use parallax_telemetry_playg.Propagation.Headers.{HeaderApi, HeaderBuild, durable_error}
use parallax_telemetry_playg.Propagation.Tenant.{Identity, resolve_http_tenant_identity}
use parallax_telemetry_playg.Propagation.Durable.{validate_durable_context}
use parallax_telemetry_playg.Notifications.Schema.{Carrier, Db, Json, Config}
use parallax_telemetry_playg.Notifications.Enqueue.{
  NotificationRequest, NotifyResponse, notify_inner,
}

module _ {H V : Type 0} (api : HeaderApi H V) where
  abbrev pub first_text : List V → Option Text
  first_text [] = none
  first_text (v ∷ vs) = api.to_str v

  unfoldable pub header_value : H → Text → Option Text
  header_value headers name = first_text (api.get_all headers name)

  abbrev pub readable : Option Text → List Text → List Text
  readable none texts = texts
  readable (some text) texts = text ∷ texts

  -- The values that are text.
  abbrev pub readable_values : List V → List Text
  readable_values [] = []
  readable_values (v ∷ vs) = readable (api.to_str v) (readable_values vs)

  abbrev pub joined : List Text → Option Text
  joined [] = none
  joined (t ∷ ts) = some (join b',' (t ∷ ts))

  unfoldable pub header_values : H → Text → Option Text
  header_values headers name = joined (readable_values (api.get_all headers name))

  -- The carrier that `record_delivery` stores, once the headers are valid.
  unfoldable pub carrier_of : H → Result Text Carrier
  unfolding header_value header_values validate_durable_context
  carrier_of headers = do
    validate_durable_context api headers
    ok (record {
      traceparent = header_value headers (codes "traceparent");
      tracestate = header_value headers (codes "tracestate");
      baggage = header_values headers (codes "baggage");
    })

  -- `Json<Value>` keeps the code of the error.
  abbrev pub tenant_identity_error : TenantIdentityError → NotifyResponse
  tenant_identity_error missing = record { status = 400; body = err (codes "tenant_required") }
  tenant_identity_error invalid = record { status = 400; body = err (codes "invalid_tenant") }
  tenant_identity_error conflicting = record {
    status = 409;
    body = err (codes "identity_conflict");
  }

  module _ {J : Type 0} (json : Json J) where
    -- The handler behind the resolution of the tenant.
    unfoldable pub notify_as :
        Config → ℕ → Text → NotificationRequest J → H → Db J → Identity → NotifyResponse × Db J
    unfolding carrier_of
    notify_as config now id request headers db (err e) = (tenant_identity_error e, db)
    notify_as config now id request headers db (ok tenant_id) =
        notify_inner json config now id tenant_id request (carrier_of headers) db

    unfoldable pub notify :
        Config → ℕ → Text → NotificationRequest J → H → Db J → NotifyResponse × Db J
    unfolding notify_as
    notify config now id request headers db =
        notify_as config now id request headers db
          (resolve_http_tenant_identity api headers request.tenant_id)

module _ {H V : Type 0} (api : HeaderApi H V) (build : HeaderBuild H V) where
  unfoldable pub insert_header : H → Text → Option Text → Result Text H
  insert_header headers name value = do
    text ← ok_or value (durable_error name (codes "missing"))
    header ← ok_or (build.try_from text) (durable_error name (codes "invalid"))
    ok (build.insert headers name header)

  -- The headers of a stored carrier, when they are valid.
  unfoldable pub job_context_headers : Carrier → Result Text H
  unfolding insert_header validate_durable_context
  job_context_headers carrier = do
    with_traceparent ← insert_header build.new (codes "traceparent") carrier.traceparent
    with_tracestate ← insert_header with_traceparent (codes "tracestate") carrier.tracestate
    headers ← insert_header with_tracestate (codes "baggage") carrier.baggage
    validate_durable_context api headers
    ok headers

  abbrev forget : Result Text H → Result Text (Unit {0})
  forget (ok headers) = ok tt
  forget (err e) = err e

  -- The verdict of the worker on a stored carrier.
  unfoldable pub verdict : Carrier → Result Text (Unit {0})
  unfolding job_context_headers
  verdict carrier = forget (job_context_headers carrier)
