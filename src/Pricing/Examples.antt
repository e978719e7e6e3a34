-- ===== src/Pricing/Examples.antt =====
-- The properties of quotes at sample requests, and runs of the code.
use parallax_telemetry_playg.Prelude.{
  none, ℕ, ◌+◌, ◌-◌, ◌*◌, ◌≤◌, ◌<◌, ◌≡◌, ◌↔◌, refl, [], ◌∷◌, ◌++◌, codes, ok, arith, text_eq, trim,
}
use parallax_telemetry_playg.Pricing.Quote.{
  quote_ttl_seconds, millis_per_second, at, remaining_validity_seconds, consume_at,
  quote_expiry_from,
}
use parallax_telemetry_playg.Pricing.Request.{cache_key}
use parallax_telemetry_playg.Pricing.Expiry.{quote_expiry_from-valid}
use parallax_telemetry_playg.Pricing.Collision.{asking, item, cache_key-collides}
use parallax_telemetry_playg.Checkout.Quotes.{validate_quote_response}
use parallax_telemetry_playg.Checkout.Balance.{Balanced, validate_quote_response-Balanced}
use parallax_telemetry_playg.Pricing.Samples.{
  request, cached, input, response, queries, promoted, calculated, calls,
}
use parallax_telemetry_playg.Pricing.Calculate.{calculate_quote}
use parallax_telemetry_playg.Pricing.Validate.{validate_request}
use parallax_telemetry_playg.Pricing.Accepted.{IsAccepted, validate_request_iff}
use parallax_telemetry_playg.Pricing.Cache.{Served, serve_quote}
use parallax_telemetry_playg.Pricing.Fresh.{IsServed, serve_quote-IsServed}
use parallax_telemetry_playg.Pricing.Balance.{Quoted, calculate_quote-Quoted}

made : quote_expiry_from (at 1000) ≡ ok 46000
unfolding quote_expiry_from
made = refl

quote_expiry_from-valid_example :
    ((consume_at cached (at 45500) ≡ ok tt)
      ↔ (45500 < 1000 + quote_ttl_seconds * millis_per_second))
    × (45500 < 46000
        → (s : ℕ) × (remaining_validity_seconds cached (at 45500) ≡ ok s)
          × (1 ≤ s)
          × (s ≤ quote_ttl_seconds)
          × (46000 ≤ 45500 + s * millis_per_second)
          × (s * millis_per_second < (46000 - 45500) + millis_per_second))
    × (46000 ≤ 45500 → remaining_validity_seconds cached (at 45500) ≡ ok 0)
quote_expiry_from-valid_example =
    quote_expiry_from-valid 1000 45500 46000 cached made refl (omega arith) (omega arith)

cache_key-collides_example :
    cache_key (asking request ([] ++ (item (codes "mug-" ++ (codes "Aa" ++ codes "1")) 2 ∷ [])))
    ≡ cache_key (asking request ([] ++ (item (codes "mug-" ++ (codes "BB" ++ codes "1")) 2 ∷ [])))
cache_key-collides_example = cache_key-collides request [] [] (codes "mug-") (codes "1") 2

accepted : validate_quote_response input response ≡ ok tt
unfolding validate_quote_response trim text_eq
accepted = refl

validate_quote_response-Balanced_example : Balanced input response
validate_quote_response-Balanced_example = validate_quote_response-Balanced input response accepted

priced : calculate_quote queries (at 1000) promoted ≡ ok calculated
unfolding calculate_quote trim text_eq
priced = refl

calculate_quote-Quoted_example : Quoted queries promoted calculated
calculate_quote-Quoted_example = calculate_quote-Quoted queries (at 1000) promoted calculated priced

valid : validate_request promoted ≡ ok tt
unfolding validate_request trim text_eq
valid = refl

validate_request_iff_example : (validate_request promoted ≡ ok tt) ↔ IsAccepted promoted
validate_request_iff_example = validate_request_iff promoted

valid-IsAccepted : IsAccepted promoted
valid-IsAccepted = (validate_request_iff promoted).0 valid

abbrev answer : Served
answer = record { quote = calculated; populated = none }

hit : serve_quote calls promoted ≡ ok answer
unfolding serve_quote trim text_eq consume_at
hit = refl

serve_quote-IsServed_example : IsServed calls promoted answer
serve_quote-IsServed_example = serve_quote-IsServed calls promoted answer hit
