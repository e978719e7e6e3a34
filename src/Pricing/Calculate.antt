-- ===== src/Pricing/Calculate.antt =====
-- The calculation of a quote: `calculate_quote` and `promotion_discount` of
-- services/pricing/src/infrastructure.rs, over what their queries return.
use parallax_telemetry_playg.Prelude.{
  ℕ, ◌+◌, ◌-◌, ◌*◌, min, ℤ, pos, negsuc, Bool, not, ◌&&◌, Option, none, some, List, [], ◌∷◌, ◌++◌,
  Text, codes, text_eq, any, is_empty, leb, ◌==◌, Result, ok, err, ensure, ok_or, ◌>>=◌, ◌>>◌,
  if◌then◌else◌,
}
use parallax_telemetry_playg.Pricing.Quote.{
  Status, status, invalid_argument, not_found, out_of_range, internal, CachedLine, CachedQuote,
  SystemTime, checked, quote_expiry_from,
}
use parallax_telemetry_playg.Pricing.Request.{QuoteItem, QuoteRequest, or_empty, request_id}

pub record SelectedPrice : Type 0 where
  pub product_id : Text
  pub unit_minor : ℤ
  pub currency : Text
  pub price_source : Text

-- What the queries return: the price of a SKU, the version of the prices, the products of the
-- promotion with a code (when one is in force), and its discount on an eligible subtotal, which the
-- source computes in `f64` and rounds to an integer.
pub record Queries : Type 0 where
  pub price : Text → Option SelectedPrice
  pub pricing_version : Text
  pub promotion : Text → ℕ → Option (List Text)
  pub raw_discount : Text → ℕ → Result Status ℕ

-- A line with its amounts, none of which is negative.
pub record Line : Type 0 where
  pub product_id : Text
  pub sku : Text
  pub quantity : ℕ
  pub unit : ℕ
  pub total : ℕ

unfoldable pub unit_of : ℤ → Result Status ℕ
unit_of (pos unit) = ok unit
unit_of (negsuc n) = err (status internal "pricing source returned a negative price")

unfoldable pub price_line : Text → QuoteItem → SelectedPrice → Result Status Line
unfolding unit_of
price_line currency item price = do
  unit ← unit_of price.unit_minor
  ensure (text_eq price.currency currency)
      (status invalid_argument "currency is not supported for the SKU")
  total ← checked (unit * item.quantity) (status out_of_range "quote line amount overflowed")
  ok (record {
    product_id = price.product_id;
    sku = item.sku;
    quantity = item.quantity;
    unit = unit;
    total = total;
  })

abbrev pub unknown_sku : Text → Status
unknown_sku sku = record { code = not_found; message = codes "unknown priced SKU: " ++ sku }

-- The loop over the items.
unfoldable pub price_lines : Queries → Text → List QuoteItem → Result Status (List Line)
unfolding price_line
price_lines q currency [] = ok []
price_lines q currency (item ∷ items) = do
  price ← ok_or (q.price item.sku) (unknown_sku item.sku)
  line ← price_line currency item price
  lines ← price_lines q currency items
  ok (line ∷ lines)

-- `try_fold` with `checked_add`, over the lines that pass a test.
unfoldable pub sum_lines : (Line → Bool) → Status → ℕ → List Line → Result Status ℕ
sum_lines test overflow subtotal [] = ok subtotal
sum_lines test overflow subtotal (line ∷ lines) =
    if test line
    then (do next ← checked (subtotal + line.total) overflow; sum_lines test overflow next lines)
    else sum_lines test overflow subtotal lines

-- The discount of a promotion for some products.
unfoldable pub discount_for : Queries → Text → List Line → List Text → Result Status ℕ
unfolding sum_lines
discount_for q code lines [] = ok 0
discount_for q code lines (product_id ∷ product_ids) = do
  eligible_subtotal ←
      sum_lines (λ line. any (text_eq line.product_id) (product_id ∷ product_ids))
        (status out_of_range "promotion subtotal overflowed") 0 lines
  if eligible_subtotal == 0
      then ok 0
      else (do raw ← q.raw_discount code eligible_subtotal; ok (min raw eligible_subtotal))

unfoldable pub promotion_discount :
    Queries → Text → List Line → Option (List Text) → Result Status ℕ
unfolding discount_for
promotion_discount q code lines none = ok 0
promotion_discount q code lines (some product_ids) = discount_for q code lines product_ids

abbrev pub or_standard : Option Text → Text
or_standard none = codes "standard"
or_standard (some strategy) = strategy

-- The promotion applies to the promotional strategy with a code.
unfoldable pub discount_of : Queries → QuoteRequest → List Line → ℕ → Result Status ℕ
unfolding promotion_discount
discount_of q request lines subtotal =
    let code = or_empty (request.context (codes "promotion_code")) in
    if text_eq (or_standard (request.context (codes "pricing_strategy"))) (codes "promotional")
      && not (is_empty code)
    then promotion_discount q code lines (q.promotion code subtotal)
    else ok 0

-- `checked_sub` on i64, which does not overflow for amounts that are not negative.
unfoldable pub minus : ℕ → ℕ → ℤ
minus a b = if leb b a then pos (a - b) else negsuc ((b - a) - 1)

abbrev pub cached_line : Line → CachedLine
cached_line line = record {
  product_id = line.product_id;
  sku = line.sku;
  quantity = line.quantity;
  unit_minor = pos line.unit;
  line_minor = pos line.total;
}

abbrev pub cached_lines : List Line → List CachedLine
cached_lines [] = []
cached_lines (line ∷ lines) = cached_line line ∷ cached_lines lines

-- The source of the price of the first item.
abbrev pub source_of : Queries → List QuoteItem → Option Text
source_of q [] = none
source_of q (item ∷ items) = elim (q.price item.sku) [
  | none ↦ none
  | some price ↦ some price.price_source
]

unfoldable pub calculate_quote : Queries → SystemTime → QuoteRequest → Result Status CachedQuote
unfolding price_lines sum_lines discount_of minus quote_expiry_from request_id
calculate_quote q now request = do
  lines ← price_lines q request.currency_code request.items
  subtotal ← sum_lines (λ line. Bool.true) (status out_of_range "quote subtotal overflowed") 0 lines
  discount ← discount_of q request lines subtotal
  expiry ← quote_expiry_from now
  source ←
      ok_or (source_of q request.items)
        (status internal "pricing batch query returned no price source")
  ok (record {
    quote_id = request_id request;
    lines = cached_lines lines;
    subtotal_minor = pos subtotal;
    discount_minor = pos discount;
    grand_total_minor = minus subtotal discount;
    currency = request.currency_code;
    pricing_version = q.pricing_version;
    price_source = source;
    expires_at_unix_ms = pos expiry;
  })
