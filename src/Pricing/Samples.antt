-- ===== src/Pricing/Samples.antt =====
-- A request, its prices and its quote for the examples.
use parallax_telemetry_playg.Prelude.{
  ℕ, pos, true, none, some, Option, [], ◌∷◌, Text, codes, text_eq, ok, if◌then◌else◌,
}
use parallax_telemetry_playg.Pricing.Quote.{CachedQuote, at}
use parallax_telemetry_playg.Pricing.Request.{QuoteRequest}
use parallax_telemetry_playg.Pricing.Cache.{Calls}
use parallax_telemetry_playg.Pricing.Calculate.{SelectedPrice, Queries}
use parallax_telemetry_playg.Checkout.Quotes.{Money, QuoteResponse, CheckoutInput}

abbrev pub no_context : Text → Option Text
no_context key = none

abbrev pub request : QuoteRequest
request = record {
  tenant_id = codes "acme";
  customer_id = codes "ava";
  items = record { sku = codes "mug-1"; quantity = 2 } ∷ [];
  currency_code = codes "USD";
  context = no_context;
  request_id = codes "r1";
}

abbrev pub cached : CachedQuote
cached = record {
  quote_id = codes "q1";
  lines = [];
  subtotal_minor = pos 0;
  discount_minor = pos 0;
  grand_total_minor = pos 0;
  currency = codes "USD";
  pricing_version = codes "price-change-1";
  price_source = codes "default";
  expires_at_unix_ms = pos 46000;
}

abbrev usd : ℕ → Option Money
usd n = some (record { currency_code = codes "USD"; amount_minor = pos n })

abbrev pub input : CheckoutInput
input = record {
  items = record { sku = codes "mug-1"; quantity = 2 } ∷ [];
  currency_code = codes "USD";
}

abbrev pub response : QuoteResponse
response = record {
  quote_id = codes "q1";
  ready = true;
  lines =
      record { sku = codes "mug-1"; quantity = 2; unit_price = usd 250; line_total = usd 500 } ∷ [];
  subtotal = usd 500;
  discount_total = usd 50;
  tax_total = usd 0;
  grand_total = usd 450;
  valid_for_seconds = 45;
  pricing_version = codes "price-change-1";
}

abbrev mug : SelectedPrice
mug = record {
  product_id = codes "p1";
  unit_minor = pos 250;
  currency = codes "USD";
  price_source = codes "default";
}

-- One product, and a promotion that takes fifty off.
abbrev pub queries : Queries
queries = record {
  price = λ sku. if text_eq sku (codes "mug-1") then some mug else none;
  pricing_version = codes "price-change-1";
  promotion = λ code subtotal. some (codes "p1" ∷ []);
  raw_discount = λ code eligible. ok 50;
}

abbrev promotional : Text → Option Text
promotional key =
    if text_eq key (codes "pricing_strategy")
    then some (codes "promotional")
    else if text_eq key (codes "promotion_code")
    then some (codes "SPRING")
    else none

abbrev pub promoted : QuoteRequest
promoted = record {
  tenant_id = codes "acme";
  customer_id = codes "ava";
  items = record { sku = codes "mug-1"; quantity = 2 } ∷ [];
  currency_code = codes "USD";
  context = promotional;
  request_id = codes "r1";
}

abbrev pub calculated : CachedQuote
calculated = record {
  quote_id = codes "r1";
  lines =
      record {
        product_id = codes "p1";
        sku = codes "mug-1";
        quantity = 2;
        unit_minor = pos 250;
        line_minor = pos 500;
      }
      ∷ [];
  subtotal_minor = pos 500;
  discount_minor = pos 50;
  grand_total_minor = pos 450;
  currency = codes "USD";
  pricing_version = codes "price-change-1";
  price_source = codes "default";
  expires_at_unix_ms = pos 46000;
}

-- The cache has the calculated quote.
abbrev pub calls : Calls
calls = record {
  variant = none;
  get = λ key. some (ok (some key));
  decode = λ value. ok calculated;
  version = λ tenant_id. ok (codes "price-change-1");
  queries = queries;
  read_at = at 2000;
  calculated_at = at 3000;
}
