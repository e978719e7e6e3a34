-- ===== src/Pricing/Request.antt =====
-- A request for a quote: `request_id`, `stable_request_fingerprint` and `cache_key` of
-- services/pricing/src/domain.rs.
use parallax_telemetry_playg.Prelude.{
  ℕ, zero, suc, ◌+◌, ◌*◌, ◌/◌, ◌%◌, ◌^◌, Option, none, some, List, [], ◌∷◌, ◌++◌, Text, codes, trim,
  is_empty, ltb, if◌then◌else◌,
}

pub record QuoteItem : Type 0 where
  pub sku : Text
  pub quantity : ℕ

-- Of the protocol; the map of the context is a function.
pub record QuoteRequest : Type 0 where
  pub tenant_id : Text
  pub customer_id : Text
  pub items : List QuoteItem
  pub currency_code : Text
  pub context : Text → Option Text
  pub request_id : Text

-- `to_string` of an unsigned integer, with at most so many digits more.
unfoldable pub decimal_from : ℕ → ℕ → Text
decimal_from zero n = []
decimal_from (suc fuel) n =
    let front = decimal_from fuel (n / 10) in
    if ltb n 10 then (48 + n) ∷ [] else front ++ ((48 + n % 10) ∷ [])

-- A u64 has at most twenty digits.
unfoldable pub decimal : ℕ → Text
unfolding decimal_from
decimal n = decimal_from 20 n

abbrev pub or_empty : Option Text → Text
or_empty none = []
or_empty (some value) = value

unfoldable pub context_part : (Text → Option Text) → Text → Text
context_part context key = b'|' ∷ (key ++ (b'=' ∷ or_empty (context key)))

unfoldable pub context_parts : (Text → Option Text) → Text
unfolding context_part
context_parts context =
    context_part context (codes "pricing_strategy")
    ++ (context_part context (codes "promotion_code")
        ++ (context_part context (codes "customer_segment")
            ++ (context_part context (codes "customer_tier")
                ++ (context_part context (codes "region")
                    ++ context_part context (codes "request_priority")))))

unfoldable pub item_parts : List QuoteItem → Text
unfolding decimal
item_parts [] = []
item_parts (item ∷ items) =
    (b'|' ∷ (item.sku ++ (b':' ∷ decimal item.quantity))) ++ item_parts items

-- `wrapping_mul(31).wrapping_add(byte)` on u64, over the bytes.
unfoldable pub hash_from : ℕ → Text → ℕ
hash_from hash [] = hash
hash_from hash (byte ∷ bytes) = hash_from (((hash * 31) % 2 ^ 64 + byte) % 2 ^ 64) bytes

unfoldable pub fingerprint_text : QuoteRequest → Text
unfolding context_parts item_parts
fingerprint_text request =
    request.tenant_id
    ++ (b'|'
        ∷ (request.customer_id
            ++ (b'|'
                ∷ (request.currency_code
                    ++ (context_parts request.context ++ item_parts request.items)))))

unfoldable pub stable_request_fingerprint : QuoteRequest → Text
unfolding hash_from fingerprint_text decimal
stable_request_fingerprint request = decimal (hash_from 0 (fingerprint_text request))

unfoldable pub request_id : QuoteRequest → Text
unfolding stable_request_fingerprint
request_id request =
    if is_empty (trim request.request_id)
    then codes "quote-" ++ stable_request_fingerprint request
    else request.request_id

unfoldable pub cache_key : QuoteRequest → Text
unfolding stable_request_fingerprint
cache_key request =
    codes "pricing:quote:"
    ++ (request.tenant_id
        ++ (b':'
            ∷ (request.customer_id
                ++ (b':'
                    ∷ (request.currency_code ++ (b':' ∷ stable_request_fingerprint request))))))
