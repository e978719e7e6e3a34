-- ===== src/Pricing/Quote.antt =====
-- A priced quote and its validity: `CachedQuote`, `quote_expiry_from`, `unix_millis` and
-- `to_proto_at` of services/pricing/src/domain.rs.
use parallax_telemetry_playg.Prelude.{
  ℕ, ◌+◌, ◌-◌, ◌*◌, ◌/◌, ℤ, pos, negsuc, u32_max, i64_max, true, not, some, List, map, Text, String,
  codes, leb, ◌==◌, Result, ok, err, ensure, ◌>>=◌, ◌>>◌, if◌then◌else◌,
}
use parallax_telemetry_playg.Checkout.Quotes.{Money, QuoteLine, QuoteResponse}

-- `tonic::Status`.
pub data Code : Type 0 where
  invalid_argument failed_precondition not_found out_of_range internal : Code

pub record Status : Type 0 where
  pub code : Code
  pub message : Text

abbrev pub status : Code → String → Status
status code message = record { code = code; message = codes message }

abbrev pub quote_ttl_seconds : ℕ
quote_ttl_seconds = 45

abbrev pub millis_per_second : ℕ
millis_per_second = 1000

pub record CachedLine : Type 0 where
  pub product_id : Text
  pub sku : Text
  pub quantity : ℕ
  pub unit_minor : ℤ
  pub line_minor : ℤ

pub record CachedQuote : Type 0 where
  pub quote_id : Text
  pub lines : List CachedLine
  pub subtotal_minor : ℤ
  pub discount_minor : ℤ
  pub grand_total_minor : ℤ
  pub currency : Text
  pub pricing_version : Text
  pub price_source : Text
  pub expires_at_unix_ms : ℤ

-- `SystemTime`: before the Unix epoch, or so many milliseconds after it.
pub data SystemTime : Type 0 where
  before_epoch : SystemTime
  at : ℕ → SystemTime

unfoldable pub unix_millis : SystemTime → Result Status ℕ
unix_millis before_epoch = err (status internal "system clock predates the Unix epoch")
unix_millis (at n) =
    if leb n i64_max
    then ok n
    else err (status internal "system clock exceeds quote timestamp limits")

-- A checked operation on i64 whose result is not negative.
abbrev pub checked : ℕ → Status → Result Status ℕ
checked n e = if leb n i64_max then ok n else err e

abbrev pub expiry_overflow : Status
expiry_overflow = status internal "quote expiry arithmetic overflowed"

unfoldable pub remaining_from : ℤ → ℕ → Result Status ℕ
remaining_from (negsuc t) now = ok 0
remaining_from (pos t) now = if leb t now then ok 0 else (do
  remaining ← checked (t - now) expiry_overflow
  rounded ← checked (remaining + (millis_per_second - 1)) expiry_overflow
  if leb (rounded / millis_per_second) u32_max
      then ok (rounded / millis_per_second)
      else err (status internal "quote validity exceeds protocol limits"))

unfoldable pub remaining_validity_seconds : CachedQuote → SystemTime → Result Status ℕ
unfolding unix_millis remaining_from
remaining_validity_seconds quote now = do
  now_unix_ms ← unix_millis now
  remaining_from quote.expires_at_unix_ms now_unix_ms

unfoldable pub consume_at : CachedQuote → SystemTime → Result Status (Unit {0})
unfolding remaining_validity_seconds
consume_at quote now = do
  remaining ← remaining_validity_seconds quote now
  ensure (not (remaining == 0)) (status failed_precondition "quote has expired")

unfoldable pub quote_expiry_from : SystemTime → Result Status ℕ
unfolding unix_millis
quote_expiry_from now = do
  now_unix_ms ← unix_millis now
  ttl_ms ←
      checked (quote_ttl_seconds * millis_per_second)
        (status internal "quote TTL arithmetic overflowed")
  checked (now_unix_ms + ttl_ms) expiry_overflow

abbrev pub money : Text → ℤ → Money
money currency amount = record { currency_code = currency; amount_minor = amount }

abbrev pub line_to_proto : Text → CachedLine → QuoteLine
line_to_proto currency line = record {
  sku = line.sku;
  quantity = line.quantity;
  unit_price = some (money currency line.unit_minor);
  line_total = some (money currency line.line_minor);
}

unfoldable pub to_proto_at : CachedQuote → SystemTime → Result Status QuoteResponse
unfolding consume_at remaining_validity_seconds
to_proto_at quote now = do
  consume_at quote now
  valid_for_seconds ← remaining_validity_seconds quote now
  ok (record {
    quote_id = quote.quote_id;
    ready = true;
    lines = map (line_to_proto quote.currency) quote.lines;
    subtotal = some (money quote.currency quote.subtotal_minor);
    discount_total = some (money quote.currency quote.discount_minor);
    tax_total = some (money quote.currency (pos 0));
    grand_total = some (money quote.currency quote.grand_total_minor);
    valid_for_seconds = valid_for_seconds;
    pricing_version = quote.pricing_version;
  })
