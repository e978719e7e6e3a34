-- ===== src/Pricing/Fresh.antt =====
-- The quotes that services/pricing/src/application.rs serves.
use parallax_telemetry_playg.Prelude.{
  ◌≡◌, refl, sym, ap, ◌∙◌, true, ◌⊎◌, inl, inr, Bool-cases, Option, none, some, Text, text_eq,
  text_eq_iff, Result, ok, err, ◌>>=◌, Ensures, Ensures-ok, Ensures-err, Ensures-if, Ensures-bind,
  Ensures-then, if◌then◌else◌,
}
use parallax_telemetry_playg.Pricing.Quote.{Status, CachedQuote, SystemTime, consume_at}
use parallax_telemetry_playg.Pricing.Request.{QuoteRequest, cache_key}
use parallax_telemetry_playg.Pricing.Validate.{validate_request}
use parallax_telemetry_playg.Pricing.Calculate.{calculate_quote}
use parallax_telemetry_playg.Pricing.Cache.{
  Calls, use_cache, current_quote, decoded, cached_quote, Served, from_source, or_source,
  serve_quote,
}

-- A quote that was not expired when it was read, at the version of the prices.
pub record IsFresh (now : SystemTime) (version : Result Status Text) (quote : CachedQuote)
    : Type 0 where
  pub unexpired : consume_at quote now ≡ ok tt
  pub same_version : version ≡ ok quote.pricing_version

-- The entry that a quote is decoded from.
pub record IsEntry (c : Calls) (entry : Option (Result Text (Option Text))) (quote : CachedQuote)
    : Type 0 where
  pub value : Text
  pub stored : entry ≡ some (ok (some value))
  pub decodes : c.decode value ≡ ok quote

-- What is served, from the cache or from the source.
pub record IsHit (c : Calls) (request : QuoteRequest) (s : Served) : Type 0 where
  pub cached : use_cache c.variant ≡ true
  pub entry : IsEntry c (c.get (cache_key request)) s.quote
  pub fresh : IsFresh c.read_at (c.version request.tenant_id) s.quote
  pub kept : s.populated ≡ none

pub record IsCalculated (c : Calls) (request : QuoteRequest) (s : Served) : Type 0 where
  pub calculated : calculate_quote c.queries c.calculated_at request ≡ ok s.quote
  pub put : s.populated ≡ (if use_cache c.variant then some (cache_key request) else none)

abbrev OnSome : (CachedQuote → Type 0) → Option CachedQuote → Type 0
OnSome P none = Unit
OnSome P (some quote) = P quote

current_quote-IsFresh :
    (now : SystemTime) (version : Result Status Text) (quote : CachedQuote)
    → Ensures (OnSome (λ q. (q ≡ quote) × IsFresh now version q)) (current_quote now version quote)
unfolding current_quote
current_quote-IsFresh now version quote = at_consumed (consume_at quote now) refl
  where
    at_version :
        (version : Result Status Text)
        → consume_at quote now ≡ ok tt
        → Ensures (OnSome (λ q. (q ≡ quote) × IsFresh now version q)) (
            version >>= λ current.
            ok (if text_eq quote.pricing_version current then some quote else none))
    at_version (err e) h = Ensures-err e
    at_version (ok current) h = elim (Bool-cases (text_eq quote.pricing_version current)) [
      | inl same ↦ rw same (
          Ensures-ok (some quote) (
            refl,
            record {
              unexpired = h;
              same_version = ap ok (sym ((text_eq_iff quote.pricing_version current).0 same));
            },
          ))
      | inr differs ↦ rw differs (Ensures-ok none tt)
    ]

    at_consumed :
        (r : Result Status (Unit {0}))
        → consume_at quote now ≡ r
        → Ensures (OnSome (λ q. (q ≡ quote) × IsFresh now version q)) (elim r [
          | err e ↦ ok none
          | ok u ↦
              (version >>= λ current.
              ok (if text_eq quote.pricing_version current then some quote else none))
        ])
    at_consumed (err e) h = Ensures-ok none tt
    at_consumed (ok u) h = at_version version h

-- A quote of the cache is decoded from the entry.
cached_quote-IsFresh :
    (c : Calls) (tenant_id : Text) (entry : Option (Result Text (Option Text)))
    → Ensures
        (OnSome (λ q. IsEntry c entry q × IsFresh c.read_at (c.version tenant_id) q))
        (cached_quote c tenant_id entry)
unfolding cached_quote
cached_quote-IsFresh c tenant_id none = Ensures-ok none tt
cached_quote-IsFresh c tenant_id (some (err e)) = Ensures-ok none tt
cached_quote-IsFresh c tenant_id (some (ok none)) = Ensures-ok none tt
cached_quote-IsFresh c tenant_id (some (ok (some value))) = at_decoded (c.decode value) refl
  where
    found :
        (quote : CachedQuote)
        → c.decode value ≡ ok quote
        → (o : Option CachedQuote)
        → OnSome (λ q. (q ≡ quote) × IsFresh c.read_at (c.version tenant_id) q) o
        → OnSome
            (λ q. IsEntry c (some (ok (some value))) q × IsFresh c.read_at (c.version tenant_id) q)
            o
    found quote h none u = tt
    found quote h (some q) v =
        (record { value = value; stored = refl; decodes = h ∙ ap ok (sym v.0) }, v.1)

    at_decoded :
        (r : Result Text CachedQuote)
        → c.decode value ≡ r
        → Ensures
            (OnSome (λ q.
              IsEntry c (some (ok (some value))) q × IsFresh c.read_at (c.version tenant_id) q))
            (decoded c.read_at (c.version tenant_id) r)
    at_decoded (err e) h = Ensures-ok none tt
    at_decoded (ok quote) h = record {
      at = λ o e.
          found quote h o ((current_quote-IsFresh c.read_at (c.version tenant_id) quote).at o e);
    }

from_source-IsCalculated :
    (c : Calls) (request : QuoteRequest) (key : Option Text)
    → key ≡ (if use_cache c.variant then some (cache_key request) else none)
    → Ensures (IsCalculated c request) (from_source c request key)
unfolding from_source
from_source-IsCalculated c request key h =
    Ensures-bind (calculate_quote c.queries c.calculated_at request) _
      λ quote e. Ensures-ok _ (record { calculated = e; put = h })

abbrev pub IsServed : Calls → QuoteRequest → Served → Type 0
IsServed c request s =
    (validate_request request ≡ ok tt) × (IsHit c request s ⊎ IsCalculated c request s)

served : (c : Calls) (request : QuoteRequest) → Ensures (IsServed c request) (serve_quote c request)
unfolding serve_quote
served c request = Ensures-then (validate_request request) _ λ valid.
    Ensures-if (use_cache c.variant) _ _
      (λ cached.
        Ensures-bind (cached_quote c request.tenant_id (c.get (cache_key request))) _ λ hit e.
          answered valid cached hit
            ((cached_quote-IsFresh c request.tenant_id (c.get (cache_key request))).at hit e))
      λ bypassed. record {
        at = λ s e.
            (valid, inr ((from_source-IsCalculated c request none (rw bypassed refl)).at s e));
      }
  where
    answered :
        validate_request request ≡ ok tt
        → use_cache c.variant ≡ true
        → (hit : Option CachedQuote)
        → OnSome
            (λ q.
              IsEntry c (c.get (cache_key request)) q
              × IsFresh c.read_at (c.version request.tenant_id) q)
            hit
        → Ensures (IsServed c request) (or_source c request (some (cache_key request)) hit)
    answered valid cached none u = record {
      at = λ s e. (
        valid,
        inr (
            (from_source-IsCalculated c request (some (cache_key request)) (rw cached refl)).at s
              e),
      );
    }
    answered valid cached (some q) v =
        Ensures-ok _
          (valid, inl (record { cached = cached; entry = v.0; fresh = v.1; kept = refl }))

-- A quote is served for valid requests only. Either the cache is in use and the quote is decoded from the entry under the key of the request, was not expired when it was read, has the version that the query of the tenant returns, and `set` is not called; or it is the one that is calculated, and `set` is called under the key of the request exactly when the cache is in use.
pub serve_quote-IsServed :
    (c : Calls) (request : QuoteRequest) (s : Served)
    → serve_quote c request ≡ ok s
    → IsServed c request s
serve_quote-IsServed c request s h = (served c request).at s h
