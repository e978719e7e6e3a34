-- ===== src/Pricing/Collision.antt =====
-- Requests that `cache_key` of services/pricing/src/domain.rs does not tell apart.
use parallax_telemetry_playg.Prelude.{
  ℕ, ◌+◌, ◌*◌, ◌%◌, ◌^◌, ◌≡◌, refl, sym, ap, ◌∙◌, List, [], ◌∷◌, ◌++◌, Text, codes, arith,
}
use parallax_telemetry_playg.Pricing.Request.{
  QuoteItem, QuoteRequest, decimal, context_parts, item_parts, hash_from, fingerprint_text,
  stable_request_fingerprint, cache_key,
}

hash_from-++ : (h : ℕ) (a b : Text) → hash_from h (a ++ b) ≡ hash_from (hash_from h a) b
unfolding hash_from
hash_from-++ h [] b = refl
hash_from-++ h (x ∷ a) b = hash_from-++ (((h * 31) % 2 ^ 64 + x) % 2 ^ 64) a b

-- `Aa` and `BB` move the hash alike: 65 * 31 + 97 = 66 * 31 + 66.
hash_from-pair :
    (h : ℕ) (rest : Text) → hash_from h (codes "Aa" ++ rest) ≡ hash_from h (codes "BB" ++ rest)
unfolding hash_from
hash_from-pair h rest = ap (λ x. hash_from x rest) (omega arith)

-- Texts that move every hash alike.
abbrev HashAlike : Text → Text → Type 0
HashAlike a b = (h : ℕ) → hash_from h a ≡ hash_from h b

behind-HashAlike : (p a b : Text) → HashAlike a b → HashAlike (p ++ a) (p ++ b)
behind-HashAlike p a b same h = hash_from-++ h p a ∙ same (hash_from h p) ∙ sym (hash_from-++ h p b)

before-HashAlike : (a b s : Text) → HashAlike a b → HashAlike (a ++ s) (b ++ s)
before-HashAlike a b s same h =
    hash_from-++ h a s ∙ ap (λ x. hash_from x s) (same h) ∙ sym (hash_from-++ h b s)

one-HashAlike : (x : ℕ) (a b : Text) → HashAlike a b → HashAlike (x ∷ a) (x ∷ b)
one-HashAlike x a b same = behind-HashAlike (x ∷ []) a b same

items-HashAlike :
    (before after : List QuoteItem) (i j : QuoteItem)
    → HashAlike i.sku j.sku
    → i.quantity ≡ j.quantity
    → HashAlike (item_parts (before ++ (i ∷ after))) (item_parts (before ++ (j ∷ after)))
unfolding item_parts
items-HashAlike [] after i j same count =
    before-HashAlike (b'|' ∷ (i.sku ++ (b':' ∷ decimal i.quantity)))
      (b'|' ∷ (j.sku ++ (b':' ∷ decimal j.quantity))) (item_parts after)
      (one-HashAlike b'|' (i.sku ++ (b':' ∷ decimal i.quantity))
        (j.sku ++ (b':' ∷ decimal j.quantity))
        (λ h.
          before-HashAlike i.sku j.sku (b':' ∷ decimal i.quantity) same h
          ∙ ap (λ q. hash_from h (j.sku ++ (b':' ∷ decimal q))) count))
items-HashAlike (x ∷ before) after i j same count =
    behind-HashAlike (b'|' ∷ (x.sku ++ (b':' ∷ decimal x.quantity)))
      (item_parts (before ++ (i ∷ after))) (item_parts (before ++ (j ∷ after)))
      (items-HashAlike before after i j same count)

-- The request for other items.
abbrev pub asking : QuoteRequest → List QuoteItem → QuoteRequest
asking request items = record request { items = items }

abbrev pub item : Text → ℕ → QuoteItem
item sku quantity = record { sku = sku; quantity = quantity }

text-HashAlike :
    (request : QuoteRequest) (is js : List QuoteItem)
    → HashAlike (item_parts is) (item_parts js)
    → HashAlike (fingerprint_text (asking request is)) (fingerprint_text (asking request js))
unfolding fingerprint_text
text-HashAlike request is js same = behind-HashAlike request.tenant_id _ _ (
    one-HashAlike b'|' _ _ (
      behind-HashAlike request.customer_id _ _ (
        one-HashAlike b'|' _ _ (
          behind-HashAlike request.currency_code _ _ (
            behind-HashAlike (context_parts request.context) (item_parts is) (item_parts js)
              same)))))

fingerprint-alike :
    (request : QuoteRequest) (is js : List QuoteItem)
    → HashAlike (item_parts is) (item_parts js)
    → stable_request_fingerprint (asking request is)
      ≡ stable_request_fingerprint (asking request js)
unfolding stable_request_fingerprint
fingerprint-alike request is js same = ap decimal (text-HashAlike request is js same 0)

-- Two requests that differ only in that one SKU has `Aa` where the other has `BB` have the same
-- cache key, whatever else they ask for.
pub cache_key-collides :
    (request : QuoteRequest) (before after : List QuoteItem) (front rest : Text) (quantity : ℕ)
    → cache_key (asking request (before ++ (item (front ++ (codes "Aa" ++ rest)) quantity ∷ after)))
      ≡ cache_key
          (asking request (before ++ (item (front ++ (codes "BB" ++ rest)) quantity ∷ after)))
unfolding cache_key
cache_key-collides request before after front rest quantity =
    let a = item (front ++ (codes "Aa" ++ rest)) quantity in
    let b = item (front ++ (codes "BB" ++ rest)) quantity in
    let same =
      behind-HashAlike front (codes "Aa" ++ rest) (codes "BB" ++ rest)
        (λ h. hash_from-pair h rest) in
    ap
      (λ f.
        codes "pricing:quote:"
        ++ (request.tenant_id
            ++ (b':' ∷ (request.customer_id ++ (b':' ∷ (request.currency_code ++ (b':' ∷ f)))))))
      (fingerprint-alike request (before ++ (a ∷ after)) (before ++ (b ∷ after))
        (items-HashAlike before after a b same refl))
