-- ===== src/Pricing/Cache.antt =====
-- The use of the cache: `calculate_quote` of services/pricing/src/application.rs, over what its
-- calls return.
use parallax_telemetry_playg.Prelude.{
  Bool, Option, none, some, Text, codes, text_eq, Result, ok, err, ◌>>=◌, ◌>>◌, if◌then◌else◌,
}
use parallax_telemetry_playg.Pricing.Quote.{Status, CachedQuote, SystemTime, consume_at}
use parallax_telemetry_playg.Pricing.Request.{QuoteRequest, cache_key}
use parallax_telemetry_playg.Pricing.Validate.{validate_request}
use parallax_telemetry_playg.Pricing.Calculate.{Queries, calculate_quote}

-- The variant of the flag, unless it timed out; `RedisRepository::get`, which returns nothing without a
-- cache; the decoding of an entry; the query of the version; and the clock at the reading of the
-- entry and at the calculation.
pub record Calls : Type 0 where
  pub variant : Option Text
  pub get : Text → Option (Result Text (Option Text))
  pub decode : Text → Result Text CachedQuote
  pub version : Text → Result Status Text
  pub queries : Queries
  pub read_at : SystemTime
  pub calculated_at : SystemTime

unfoldable pub use_cache : Option Text → Bool
use_cache none = Bool.true
use_cache (some mode) = text_eq mode (codes "cached")

-- A quote that is decoded, if it can be served.
unfoldable pub current_quote :
    SystemTime → Result Status Text → CachedQuote → Result Status (Option CachedQuote)
current_quote now version quote = elim (consume_at quote now) [
  | err e ↦ ok none
  | ok u ↦ (do
    pricing_version ← version
    ok (if text_eq quote.pricing_version pricing_version then some quote else none))
]

unfoldable pub decoded :
    SystemTime → Result Status Text → Result Text CachedQuote → Result Status (Option CachedQuote)
unfolding current_quote
decoded now version (err e) = ok none
decoded now version (ok quote) = current_quote now version quote

unfoldable pub cached_quote :
    Calls → Text → Option (Result Text (Option Text)) → Result Status (Option CachedQuote)
unfolding decoded
cached_quote c tenant_id none = ok none
cached_quote c tenant_id (some (err e)) = ok none
cached_quote c tenant_id (some (ok none)) = ok none
cached_quote c tenant_id (some (ok (some value))) =
    decoded c.read_at (c.version tenant_id) (c.decode value)

-- The quote, and the key of the call of `RedisRepository::set`, if it is called.
pub record Served : Type 0 where
  pub quote : CachedQuote
  pub populated : Option Text

unfoldable pub from_source : Calls → QuoteRequest → Option Text → Result Status Served
unfolding calculate_quote
from_source c request key = do
  quote ← calculate_quote c.queries c.calculated_at request
  ok (record { quote = quote; populated = key })

unfoldable pub or_source :
    Calls → QuoteRequest → Option Text → Option CachedQuote → Result Status Served
unfolding from_source
or_source c request key none = from_source c request key
or_source c request key (some quote) = ok (record { quote = quote; populated = none })

unfoldable pub serve_quote : Calls → QuoteRequest → Result Status Served
unfolding validate_request use_cache cached_quote or_source from_source cache_key
serve_quote c request = do
  validate_request request
  if use_cache c.variant
      then (do
        hit ← cached_quote c request.tenant_id (c.get (cache_key request))
        or_source c request (some (cache_key request)) hit)
      else from_source c request none
