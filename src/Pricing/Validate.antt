-- ===== src/Pricing/Validate.antt =====
-- The validation of a request: `validate_request` of services/pricing/src/domain.rs.
use parallax_telemetry_playg.Prelude.{
  ℕ, ◌-◌, Bool, true, not, ◌||◌, Option, none, some, List, [], ◌∷◌, ◌++◌, Text, codes, text_eq, any,
  all, map, length, is_empty, trim, ltb, ◌==◌, is_ascii_uppercase, is_ascii_lowercase, has_control,
  Result, ok, ensure, ◌>>◌, if◌then◌else◌,
}
use parallax_telemetry_playg.Pricing.Quote.{Status, status, invalid_argument}
use parallax_telemetry_playg.Pricing.Request.{QuoteItem, QuoteRequest}

abbrev pub max_items : ℕ
max_items = 50

abbrev pub max_quantity : ℕ
max_quantity = 100

abbrev pub max_identifier_length : ℕ
max_identifier_length = 128

-- `u8::to_ascii_uppercase` and `u8::is_ascii_alphabetic`.
abbrev pub to_ascii_uppercase : ℕ → ℕ
to_ascii_uppercase byte = if is_ascii_lowercase byte then byte - 32 else byte

abbrev pub is_ascii_alphabetic : ℕ → Bool
is_ascii_alphabetic byte = is_ascii_uppercase byte || is_ascii_lowercase byte

unfoldable pub is_currency : Text → Bool
is_currency code = not (
    not (length code == 3)
    || not (text_eq code (map to_ascii_uppercase code))
    || not (all is_ascii_alphabetic code))

-- The body of the loop over the items and the loop, with the SKUs of the set.
unfoldable pub validate_item : List Text → QuoteItem → Result Status (Unit {0})
validate_item skus item = do
  ensure (not (is_empty (trim item.sku) || ltb max_identifier_length (length item.sku)))
      (status invalid_argument "each quote item needs a valid SKU")
  ensure (not (item.quantity == 0 || ltb max_quantity item.quantity))
      (status invalid_argument "each quote item needs a quantity from one to one hundred")
  ensure (not (any (text_eq item.sku) skus)) (status invalid_argument "quote SKUs must be unique")

unfoldable pub validate_items : List Text → List QuoteItem → Result Status (Unit {0})
unfolding validate_item
validate_items skus [] = ok tt
validate_items skus (item ∷ items) = do
  validate_item skus item
  validate_items (item.sku ∷ skus) items

abbrev pub context_names : List Text
context_names =
    codes "promotion_code"
    ∷ codes "pricing_strategy"
    ∷ codes "customer_segment"
    ∷ codes "customer_tier"
    ∷ codes "region"
    ∷ codes "request_priority"
    ∷ []

unfoldable pub is_context_value : Option Text → Bool
unfolding has_control
is_context_value none = true
is_context_value (some value) = not (ltb max_identifier_length (length value) || has_control value)

abbrev pub context_error : Text → Status
context_error name = record {
  code = invalid_argument;
  message = name ++ codes " exceeds the maximum length";
}

unfoldable pub validate_context : (Text → Option Text) → List Text → Result Status (Unit {0})
unfolding is_context_value
validate_context context [] = ok tt
validate_context context (name ∷ names) = do
  ensure (is_context_value (context name)) (context_error name)
  validate_context context names

unfoldable pub is_strategy : Option Text → Bool
is_strategy none = true
is_strategy (some strategy) =
    text_eq strategy (codes "standard") || text_eq strategy (codes "promotional")

unfoldable pub validate_request : QuoteRequest → Result Status (Unit {0})
unfolding is_currency validate_items validate_context is_strategy
validate_request request = do
  ensure (not (is_empty (trim request.tenant_id))) (status invalid_argument "tenant_id is required")
  ensure (not (ltb 128 (length request.tenant_id)))
      (status invalid_argument "tenant_id exceeds maximum length")
  ensure (not (is_empty (trim request.customer_id)))
      (status invalid_argument "customer_id is required")
  ensure (not (ltb max_identifier_length (length request.customer_id)))
      (status invalid_argument "customer_id exceeds maximum length")
  ensure (not (is_empty request.items))
      (status invalid_argument "at least one quote item is required")
  ensure (not (ltb max_items (length request.items)))
      (status invalid_argument "too many quote items")
  ensure (is_currency request.currency_code)
      (status invalid_argument "currency_code must be a three-letter uppercase code")
  validate_items [] request.items
  validate_context request.context context_names
  ensure (is_strategy (request.context (codes "pricing_strategy")))
      (status invalid_argument "pricing_strategy is not supported")
