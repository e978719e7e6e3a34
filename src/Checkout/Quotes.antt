-- ===== src/Checkout/Quotes.antt =====
-- The check of a quote: `validate_quote_response`, `quote_money` and `i32_amount` of
-- services/checkout/src/application.rs. The response is of the generated protocol.
use parallax_telemetry_playg.Prelude.{
  ℕ, ◌+◌, ◌-◌, ◌*◌, ℤ, pos, negsuc, i32_max, i64_max, Bool, not, ◌&&◌, ◌||◌, Option, none, some,
  List, [], ◌∷◌, ◌++◌, Text, String, codes, text_eq, trim, is_empty, length, any, leb, ◌==◌, ok,
  err, ensure, ok_or, ◌>>=◌, ◌>>◌, if◌then◌else◌,
}
use parallax_telemetry_playg.Checkout.Errors.{ApiError, api_error, ApiResult}

-- Of the protocol.
pub record Money : Type 0 where
  pub currency_code : Text
  pub amount_minor : ℤ

pub record QuoteLine : Type 0 where
  pub sku : Text
  pub quantity : ℕ
  pub unit_price : Option Money
  pub line_total : Option Money

pub record QuoteResponse : Type 0 where
  pub quote_id : Text
  pub ready : Bool
  pub lines : List QuoteLine
  pub subtotal : Option Money
  pub discount_total : Option Money
  pub tax_total : Option Money
  pub grand_total : Option Money
  pub valid_for_seconds : ℕ
  pub pricing_version : Text

pub record CheckoutItemInput : Type 0 where
  pub sku : Text
  pub quantity : ℕ

-- The parts of the request that the check reads.
pub record CheckoutInput : Type 0 where
  pub items : List CheckoutItemInput
  pub currency_code : Text

abbrev pub protocol_error : String → ApiError
protocol_error message = api_error 502 "pricing_protocol_error" message

abbrev pub money_error : Text → ApiError
money_error message = record {
  status = 502;
  code = codes "pricing_protocol_error";
  message = message;
}

unfoldable pub amount_of : Text → ℤ → ApiResult ℕ
amount_of field (pos amount) = ok amount
amount_of field (negsuc n) = err (money_error (codes "quote " ++ (field ++ codes " is negative")))

unfoldable pub quote_money : Option Money → Text → Text → ApiResult ℕ
unfolding amount_of
quote_money option currency field = do
  money ← ok_or option (money_error (codes "quote has no " ++ field))
  ensure (text_eq money.currency_code currency)
      (money_error (codes "quote " ++ (field ++ codes " currency mismatch")))
  amount_of field money.amount_minor

-- `i32::try_from` of an amount that is not negative.
unfoldable pub i32_amount : ℕ → ApiResult (Unit {0})
i32_amount amount =
    ensure (leb amount i32_max)
      (api_error 422 "amount_out_of_range" "amount exceeds PostgreSQL integer range")

-- The entry of a SKU in the map of expected quantities.
unfoldable pub expected_quantity : Text → List CheckoutItemInput → Option ℕ
expected_quantity sku [] = none
expected_quantity sku (item ∷ items) =
    if text_eq item.sku sku then some item.quantity else expected_quantity sku items

-- The map after all insertions, in which the last for a SKU stays.
unfoldable pub expected : List CheckoutItemInput → List CheckoutItemInput
expected [] = []
expected (item ∷ items) =
    let others = expected items in
    if any (λ x. text_eq x.sku item.sku) others then others else item ∷ others

-- `checked_mul` and `checked_add` of amounts that are not negative.
abbrev pub checked : ApiError → ℕ → ApiResult ℕ
checked e n = if leb n i64_max then ok n else err e

-- One round of the loop over the lines, up to the new subtotal.
unfoldable pub line_subtotal :
    Text → List CheckoutItemInput → List Text → ℕ → QuoteLine → ApiResult ℕ
unfolding expected_quantity quote_money i32_amount
line_subtotal currency items seen subtotal line = do
  quantity ←
      ok_or (expected_quantity line.sku items)
        (protocol_error "pricing returned an unexpected quote line")
  ensure (not (any (text_eq line.sku) seen) && line.quantity == quantity)
      (protocol_error "pricing returned duplicate or mismatched quote quantities")
  unit ← quote_money line.unit_price currency (codes "line unit price")
  line_total ← quote_money line.line_total currency (codes "line total")
  i32_amount unit
  i32_amount line_total
  expected_total ←
      checked (protocol_error "quote line arithmetic overflowed") (unit * line.quantity)
  ensure (expected_total == line_total)
      (protocol_error "quote line amount does not match unit price and quantity")
  checked (protocol_error "quote subtotal arithmetic overflowed") (subtotal + line_total)

-- The loop over the lines, with the SKUs seen and the subtotal so far.
unfoldable pub lines_subtotal :
    Text → List CheckoutItemInput → List Text → ℕ → List QuoteLine → ApiResult (List Text × ℕ)
unfolding line_subtotal
lines_subtotal currency items seen subtotal [] = ok (seen, subtotal)
lines_subtotal currency items seen subtotal (line ∷ lines) = do
  next ← line_subtotal currency items seen subtotal line
  lines_subtotal currency items (line.sku ∷ seen) next lines

-- The totals against the subtotal of the lines.
unfoldable pub validate_totals : Text → QuoteResponse → ℕ → ApiResult (Unit {0})
unfolding quote_money i32_amount
validate_totals currency quote subtotal_from_lines = do
  subtotal ← quote_money quote.subtotal currency (codes "subtotal")
  discount ← quote_money quote.discount_total currency (codes "discount")
  tax ← quote_money quote.tax_total currency (codes "tax")
  total ← quote_money quote.grand_total currency (codes "grand_total")
  ensure (subtotal == subtotal_from_lines && leb discount subtotal)
      (protocol_error "quote totals do not match its lines")
  expected_total ←
      checked (protocol_error "quote total arithmetic overflowed") ((subtotal - discount) + tax)
  ensure (total == expected_total) (protocol_error "quote totals do not balance")
  i32_amount subtotal
  i32_amount discount
  i32_amount tax
  i32_amount total

unfoldable pub validate_quote_lines :
    CheckoutInput → QuoteResponse → List Text × ℕ → ApiResult (Unit {0})
unfolding expected validate_totals
validate_quote_lines input quote (seen, subtotal) = do
  ensure (length seen == length (expected input.items))
      (protocol_error "pricing omitted a requested quote line")
  validate_totals input.currency_code quote subtotal

unfoldable pub validate_quote_response : CheckoutInput → QuoteResponse → ApiResult (Unit {0})
unfolding lines_subtotal expected validate_quote_lines
validate_quote_response input quote = do
  ensure quote.ready (protocol_error "pricing returned a quote that is not ready")
  ensure (not (is_empty (trim quote.quote_id) || is_empty (trim quote.pricing_version)))
      (protocol_error "pricing returned an unidentified quote")
  ensure (not (quote.valid_for_seconds == 0))
      (protocol_error "pricing returned a quote without an expiration")
  ensure (length quote.lines == length input.items)
      (protocol_error "pricing returned an incomplete quote")
  found ← lines_subtotal input.currency_code (expected input.items) [] 0 quote.lines
  validate_quote_lines input quote found
