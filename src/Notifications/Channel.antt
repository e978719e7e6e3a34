-- ===== src/Notifications/Channel.antt =====
-- Which endpoint a notification goes to: `resolve_channel_endpoint`, `require_channel_endpoint`
-- and `channel_provider` of services/notifications/src/store.rs.
use parallax_telemetry_playg.Prelude.{
  Option, none, some, ◌++◌, Text, codes, String, text_eq, trim, is_empty, Result, ok_or,
  if◌then◌else◌,
}
use parallax_telemetry_playg.Notifications.Schema.{Json, Config}

pub record ChannelEndpoint : Type 0 where
  pub url : Text
  pub provider : String

-- `payload.get("url").or_else(|| payload.get("endpoint"))`.
abbrev pub or_else {ℓ} : {A : Type ℓ} → Option A → Option A → Option A
or_else none b = b
or_else (some a) b = some a

-- A URL that is not blank, trimmed: the two `filter`s, of which one trims after and one before.
abbrev pub not_blank : Option Text → Option Text
not_blank none = none
not_blank (some s) = if is_empty (trim s) then none else some (trim s)

abbrev pub endpoint_of : String → Option Text → Option ChannelEndpoint
endpoint_of provider none = none
endpoint_of provider (some url) = some (record { url = url; provider = provider })

-- The `match channel`.
unfoldable pub configured_endpoint : Text → Config → Option ChannelEndpoint
configured_endpoint channel config =
    if text_eq channel (codes "webhook")
    then endpoint_of "NOTIFICATIONS_WEBHOOK_URL" (not_blank config.webhook_url)
    else if text_eq channel (codes "email")
    then endpoint_of "NOTIFICATIONS_EMAIL_URL" (not_blank config.email_url)
    else none

module _ {J : Type 0} (json : Json J) where
  abbrev pub as_text : Option J → Option Text
  as_text none = none
  as_text (some v) = json.as_str v

  unfoldable pub request_url : J → Option Text
  request_url payload =
      not_blank
        (as_text (or_else (json.get payload (codes "url")) (json.get payload (codes "endpoint"))))

  unfoldable pub resolve_channel_endpoint : Text → J → Config → Option ChannelEndpoint
  unfolding request_url configured_endpoint
  resolve_channel_endpoint channel payload config =
      or_else (endpoint_of "request_endpoint" (request_url payload))
        (configured_endpoint channel config)

  unfoldable pub require_channel_endpoint : Text → J → Config → Result Text ChannelEndpoint
  unfolding resolve_channel_endpoint
  require_channel_endpoint channel payload config =
      ok_or (resolve_channel_endpoint channel payload config)
        (codes "notification channel " ++ channel ++ codes " has no configured real provider")

  abbrev pub provider_of : Option ChannelEndpoint → String
  provider_of none = "unconfigured"
  provider_of (some endpoint) = endpoint.provider

  unfoldable pub channel_provider : Text → J → Config → String
  unfolding resolve_channel_endpoint
  channel_provider channel payload config =
      if text_eq channel (codes "in_app")
      then "in_app_durable_sink"
      else provider_of (resolve_channel_endpoint channel payload config)
