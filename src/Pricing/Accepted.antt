-- ===== src/Pricing/Accepted.antt =====
-- The requests that `validate_request` of services/pricing/src/domain.rs lets through.
use parallax_telemetry_playg.Prelude.{
  ℕ, ◌≤◌, ◌≡◌, ◌≢◌, ◌↔◌, ◌⊎◌, refl, Bool, true, false, not, ◌&&◌, ◌||◌, Option, none, some, List,
  [], ◌∷◌, Text, codes, text_eq, text_eq_iff, any, any-text_eq_iff, all, All, map, length, is_empty,
  trim, ltb, ◌==◌, has_control, Result, ok, err, ensure, ensure-ok_iff, ◌>>◌, >>-eq-ok, arith,
}
use parallax_telemetry_playg.Pricing.Quote.{Status}
use parallax_telemetry_playg.Pricing.Request.{QuoteItem, QuoteRequest}
use parallax_telemetry_playg.Pricing.Validate.{
  max_items, max_quantity, max_identifier_length, is_currency, validate_item, validate_items,
  context_names, is_context_value, validate_context, is_strategy, validate_request,
  to_ascii_uppercase, is_ascii_alphabetic,
}

-- An item with a SKU that is not among others.
pub record IsItem (others : List Text) (i : QuoteItem) : Type 0 where
  pub named : is_empty (trim i.sku) ≡ false
  pub short : length i.sku ≤ max_identifier_length
  pub positive : 1 ≤ i.quantity
  pub few : i.quantity ≤ max_quantity
  pub fresh : All (λ sku. i.sku ≢ sku) others

-- A condition, and a computation, before the rest.
then_iff :
    {P Q : Type 0} (r m : Result Status (Unit {0}))
    → (r ≡ ok tt) ↔ P
    → (m ≡ ok tt) ↔ Q
    → ((r >> m) ≡ ok tt) ↔ (P × Q)
then_iff r m p q = (
  λ h. let parts : (r ≡ ok tt) × (m ≡ ok tt) = >>-eq-ok r m h in (p.0 parts.0, q.0 parts.1),
  λ h. together r m (p.1 h.0) (q.1 h.1),
)
  where
    together : (r m : Result Status (Unit {0})) → r ≡ ok tt → m ≡ ok tt → (r >> m) ≡ ok tt
    together (ok u) m h g = g
    together (err e) m h g = absurd (cc)

last_iff : {P : Type 0} (b : Bool) (e : Status) → (b ≡ true) ↔ P → (ensure b e ≡ ok tt) ↔ P
last_iff b e p = (λ h. p.0 ((ensure-ok_iff b e).0 h), λ h. (ensure-ok_iff b e).1 (p.1 h))

guard_iff :
    {P Q : Type 0} (b : Bool) (e : Status) (m : Result Status (Unit {0}))
    → (b ≡ true) ↔ P
    → (m ≡ ok tt) ↔ Q
    → ((ensure b e >> m) ≡ ok tt) ↔ (P × Q)
guard_iff b e m p q = then_iff (ensure b e) m (last_iff b e p) q

validate_item_iff :
    (skus : List Text) (i : QuoteItem) → (validate_item skus i ≡ ok tt) ↔ IsItem skus i
unfolding validate_item
validate_item_iff skus i =
    let parts : (validate_item skus i ≡ ok tt) ↔ (
        ((is_empty (trim i.sku) ≡ false) × (length i.sku ≤ max_identifier_length))
        × (((1 ≤ i.quantity) × (i.quantity ≤ max_quantity)) × All (λ sku. i.sku ≢ sku) skus)) =
      guard_iff (not (is_empty (trim i.sku) || ltb max_identifier_length (length i.sku))) _ _
        (ground arith)
        (guard_iff (not (i.quantity == 0 || ltb max_quantity i.quantity)) _ _ (ground arith) (
          last_iff (not (any (text_eq i.sku) skus)) _
            (ground (arith, any-text_eq_iff i.sku skus)))) in
    (
      λ h.
          let v : ((is_empty (trim i.sku) ≡ false) × (length i.sku ≤ max_identifier_length))
              × (((1 ≤ i.quantity) × (i.quantity ≤ max_quantity)) × All (λ sku. i.sku ≢ sku) skus) =
            parts.0 h in
          record { named = v.0.0; short = v.0.1; positive = v.1.0.0; few = v.1.0.1; fresh = v.1.1 },
      λ v. parts.1 ((v.named, v.short), ((v.positive, v.few), v.fresh)),
    )

-- Items of which each has a SKU that is neither among others nor that of an earlier item.
abbrev pub AreItems : List Text → List QuoteItem → Type 0
AreItems skus [] = Unit
AreItems skus (i ∷ items) = IsItem skus i × AreItems (i.sku ∷ skus) items

validate_items_iff :
    (skus : List Text) (items : List QuoteItem)
    → (validate_items skus items ≡ ok tt) ↔ AreItems skus items
unfolding validate_items
validate_items_iff skus [] = (λ _. tt, λ _. refl)
validate_items_iff skus (i ∷ items) =
    then_iff _ _ (validate_item_iff skus i) (validate_items_iff (i.sku ∷ skus) items)

abbrev IsLetter : ℕ → Type 0
IsLetter byte = (b'A' ≤ byte) × (byte ≤ b'Z')

letters_iff :
    (code : Text)
    → ((text_eq code (map to_ascii_uppercase code) && all is_ascii_alphabetic code) ≡ true)
      ↔ All IsLetter code
unfolding text_eq
letters_iff [] = (λ _. tt, λ _. refl)
letters_iff (byte ∷ code) = ground (arith, letters_iff code)

is_currency_iff :
    (code : Text) → (is_currency code ≡ true) ↔ ((length code ≡ 3) × All IsLetter code)
unfolding is_currency
is_currency_iff code = ground (arith, letters_iff code)

-- A value that is missing, or short and without control characters.
abbrev pub IsValue : Option Text → Type 0
IsValue none = Unit
IsValue (some value) = (length value ≤ max_identifier_length) × (has_control value ≡ false)

is_context_value_iff : (o : Option Text) → (is_context_value o ≡ true) ↔ IsValue o
unfolding is_context_value
is_context_value_iff none = (λ _. tt, λ _. refl)
is_context_value_iff (some value) = ground arith

validate_context_iff :
    (context : Text → Option Text) (names : List Text)
    → (validate_context context names ≡ ok tt) ↔ All (λ name. IsValue (context name)) names
unfolding validate_context
validate_context_iff context [] = (λ _. tt, λ _. refl)
validate_context_iff context (name ∷ names) =
    guard_iff _ _ _ (is_context_value_iff (context name)) (validate_context_iff context names)

-- The absent strategy and the two that are known.
abbrev pub IsStrategy : Option Text → Type 0
IsStrategy none = Unit
IsStrategy (some strategy) = (strategy ≡ codes "standard") ⊎ (strategy ≡ codes "promotional")

is_strategy_iff : (o : Option Text) → (is_strategy o ≡ true) ↔ IsStrategy o
unfolding is_strategy
is_strategy_iff none = (λ _. tt, λ _. refl)
is_strategy_iff (some strategy) =
    ground
      (arith, text_eq_iff strategy (codes "standard"), text_eq_iff strategy (codes "promotional"))

-- A text that names something.
abbrev pub IsName : Text → Type 0
IsName t = (is_empty (trim t) ≡ false) × (length t ≤ 128)

some_items_iff : (items : List QuoteItem) → (not (is_empty items) ≡ true) ↔ (1 ≤ length items)
some_items_iff [] = ground arith
some_items_iff (i ∷ items) = ground arith

abbrev pub IsAccepted : QuoteRequest → Type 0
IsAccepted r =
    IsName r.tenant_id
    × IsName r.customer_id
    × ((1 ≤ length r.items) × (length r.items ≤ max_items))
    × ((length r.currency_code ≡ 3) × All IsLetter r.currency_code)
    × AreItems [] r.items
    × All (λ name. IsValue (r.context name)) context_names
    × IsStrategy (r.context (codes "pricing_strategy"))

request-parts :
    (r : QuoteRequest)
    → (validate_request r ≡ ok tt) ↔ (
        (is_empty (trim r.tenant_id) ≡ false)
        × ((length r.tenant_id ≤ 128)
            × ((is_empty (trim r.customer_id) ≡ false)
                × ((length r.customer_id ≤ 128)
                    × ((1 ≤ length r.items)
                        × ((length r.items ≤ max_items)
                            × (((length r.currency_code ≡ 3) × All IsLetter r.currency_code)
                                × (AreItems [] r.items
                                    × (All (λ name. IsValue (r.context name)) context_names
                                        × IsStrategy (r.context (codes "pricing_strategy")))))))))))
unfolding validate_request
request-parts r = guard_iff (not (is_empty (trim r.tenant_id))) _ _ (ground arith) (
    guard_iff (not (ltb 128 (length r.tenant_id))) _ _ (ground arith) (
      guard_iff (not (is_empty (trim r.customer_id))) _ _ (ground arith) (
        guard_iff (not (ltb max_identifier_length (length r.customer_id))) _ _ (ground arith) (
          guard_iff (not (is_empty r.items)) _ _ (some_items_iff r.items) (
            guard_iff (not (ltb max_items (length r.items))) _ _ (ground arith) (
              guard_iff _ _ _ (is_currency_iff r.currency_code) (
                then_iff _ _ (validate_items_iff [] r.items) (
                  then_iff _ _ (validate_context_iff r.context context_names)
                    (last_iff _ _ (is_strategy_iff (r.context (codes "pricing_strategy"))))))))))))

-- A request is accepted exactly when its tenant and its customer are names of at most 128 bytes that are not blank, it has from one to fifty items, its currency is three letters from A to Z, each item has a SKU of at most 128 bytes that is not blank and differs from the earlier ones, and a quantity from one to a hundred, each of the six values of the context that are read is missing, or of at most 128 bytes without a control character, and the strategy is missing, `standard` or `promotional`.
pub validate_request_iff : (r : QuoteRequest) → (validate_request r ≡ ok tt) ↔ IsAccepted r
validate_request_iff r = (
  λ h.
      let v = (request-parts r).0 h in
      (
        (v.0, v.1.0),
        (v.1.1.0, v.1.1.1.0),
        (v.1.1.1.1.0, v.1.1.1.1.1.0),
        v.1.1.1.1.1.1.0,
        v.1.1.1.1.1.1.1.0,
        v.1.1.1.1.1.1.1.1.0,
        v.1.1.1.1.1.1.1.1.1,
      ),
  λ v.
      (request-parts r).1
        (v.0.0, (v.0.1, (v.1.0, (v.1.1, (v.2.0, (v.2.1, (v.3, (v.4, (v.5, v.6))))))))),
)
