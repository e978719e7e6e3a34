-- ===== src/Pricing/Balance.antt =====
-- The amounts of the quotes that services/pricing/src/infrastructure.rs calculates.
use parallax_telemetry_playg.Prelude.{
  ℕ, ◌+◌, ◌-◌, ◌*◌, min, ◌≤◌, ◌≡◌, refl, ap, ◌∙◌, ℤ, pos, negsuc, i64_max, Bool, true, not, ◌&&◌,
  Option, none, some, List, [], ◌∷◌, Text, codes, text_eq, any, sum_by, is_empty, leb, ◌==◌, ok,
  err, ok_or, Ensures, Ensures-ok, Ensures-err, Ensures-if, Ensures-bind, Ensures-ensure, arith,
}
use parallax_telemetry_playg.Pricing.Quote.{
  Status, status, out_of_range, CachedQuote, SystemTime, checked, quote_expiry_from,
}
use parallax_telemetry_playg.Pricing.Request.{QuoteItem, QuoteRequest, or_empty}
use parallax_telemetry_playg.Pricing.Calculate.{
  Queries, SelectedPrice, Line, unit_of, price_line, unknown_sku, price_lines, sum_lines,
  discount_for, promotion_discount, or_standard, discount_of, minus, cached_lines, source_of,
  calculate_quote,
}

-- A line of an item at the price of its SKU, in the currency of the request.
pub record IsPriced (q : Queries) (currency : Text) (i : QuoteItem) (line : Line) : Type 0 where
  pub price : SelectedPrice
  pub found : q.price i.sku ≡ some price
  pub same_currency : text_eq price.currency currency ≡ true
  pub same_unit : price.unit_minor ≡ pos line.unit
  pub same_sku : line.sku ≡ i.sku
  pub same_quantity : line.quantity ≡ i.quantity
  pub exact : line.total ≡ line.unit * line.quantity

abbrev pub ArePriced : Queries → Text → List QuoteItem → List Line → Type 0
ArePriced q currency [] [] = Unit {0}
ArePriced q currency [] (line ∷ lines) = ⊥
ArePriced q currency (i ∷ items) [] = ⊥
ArePriced q currency (i ∷ items) (line ∷ lines) =
    IsPriced q currency i line × ArePriced q currency items lines

abbrev pub total : Line → ℕ
total line = line.total

-- The amounts of a quote over its lines.
pub record IsBalanced (request : QuoteRequest) (lines : List Line) (discount : ℕ)
    (quote : CachedQuote) : Type 0 where
  pub same_lines : quote.lines ≡ cached_lines lines
  pub subtotal : quote.subtotal_minor ≡ pos (sum_by total lines)
  pub discounted : quote.discount_minor ≡ pos discount
  pub at_most : discount ≤ sum_by total lines
  pub grand_total : quote.grand_total_minor ≡ pos (sum_by total lines - discount)
  pub same_currency : quote.currency ≡ request.currency_code

checked-exact : (n : ℕ) (e : Status) → Ensures (λ m. m ≡ n) (checked n e)
checked-exact n e =
    Ensures-if (leb n i64_max) (ok n) (err e) (λ _. Ensures-ok n refl) λ _. Ensures-err e

unit_of-exact : (z : ℤ) → Ensures (λ unit. z ≡ pos unit) (unit_of z)
unfolding unit_of
unit_of-exact (pos n) = Ensures-ok n refl
unit_of-exact (negsuc n) = Ensures-err _

price_line-IsPriced :
    (q : Queries) (currency : Text) (i : QuoteItem) (price : SelectedPrice)
    → q.price i.sku ≡ some price
    → Ensures (IsPriced q currency i) (price_line currency i price)
unfolding price_line
price_line-IsPriced q currency i price found = Ensures-bind (unit_of price.unit_minor) _ λ unit got.
    Ensures-ensure (text_eq price.currency currency) _ _ λ same.
      Ensures-bind (checked (unit * i.quantity) _) _ λ line_total multiplied. Ensures-ok _ (record {
        price = price;
        found = found;
        same_currency = same;
        same_unit = (unit_of-exact price.unit_minor).at unit got;
        same_sku = refl;
        same_quantity = refl;
        exact = (checked-exact (unit * i.quantity) _).at line_total multiplied;
      })

ok_or-some : {A : Type 0} (o : Option A) (e : Status) → Ensures (λ a. o ≡ some a) (ok_or o e)
ok_or-some none e = Ensures-err e
ok_or-some (some a) e = Ensures-ok a refl

price_lines-ArePriced :
    (q : Queries) (currency : Text) (items : List QuoteItem)
    → Ensures (ArePriced q currency items) (price_lines q currency items)
unfolding price_lines
price_lines-ArePriced q currency [] = Ensures-ok [] tt
price_lines-ArePriced q currency (i ∷ items) =
    Ensures-bind (ok_or (q.price i.sku) (unknown_sku i.sku)) _ λ price found.
      Ensures-bind (price_line currency i price) _ λ line priced.
        Ensures-bind (price_lines q currency items) _ λ lines others. Ensures-ok (line ∷ lines) (
          (price_line-IsPriced q currency i price
                ((ok_or-some (q.price i.sku) _).at price found)).at
              line priced,
          (price_lines-ArePriced q currency items).at lines others,
        )

-- The sum of all lines.
sum_lines-all :
    (overflow : Status) (start : ℕ) (lines : List Line)
    → Ensures (λ s. s ≡ start + sum_by total lines) (sum_lines (λ line. true) overflow start lines)
unfolding sum_lines
sum_lines-all overflow start [] = Ensures-ok start (omega arith)
sum_lines-all overflow start (line ∷ lines) =
    Ensures-bind (checked (start + line.total) overflow) _ λ next added. record {
      at = λ s e. omega (
        arith,
        (sum_lines-all overflow next lines).at s e,
        (checked-exact (start + line.total) overflow).at next added,
      );
    }

-- The sum of some lines is at most the sum of all.
sum_lines-some :
    (test : Line → Bool) (overflow : Status) (start : ℕ) (lines : List Line)
    → Ensures (λ s. s ≤ start + sum_by total lines) (sum_lines test overflow start lines)
unfolding sum_lines
sum_lines-some test overflow start [] = Ensures-ok start (omega arith)
sum_lines-some test overflow start (line ∷ lines) =
    Ensures-if (test line) _ _
      (λ _. Ensures-bind (checked (start + line.total) overflow) _ λ next added. record {
        at = λ s e. omega (
          arith,
          (sum_lines-some test overflow next lines).at s e,
          (checked-exact (start + line.total) overflow).at next added,
        );
      })
      λ _. record { at = λ s e. omega (arith, (sum_lines-some test overflow start lines).at s e) }

min-right : (m n : ℕ) → min m n ≤ n
min-right m n = omega arith

discount_for-most :
    (q : Queries) (code : Text) (lines : List Line) (ids : List Text)
    → Ensures (λ d. d ≤ sum_by total lines) (discount_for q code lines ids)
unfolding discount_for
discount_for-most q code lines [] = Ensures-ok 0 (omega arith)
discount_for-most q code lines (id ∷ ids) =
    let test : Line → Bool = λ line. any (text_eq line.product_id) (id ∷ ids) in
    Ensures-bind (sum_lines test (status out_of_range "promotion subtotal overflowed") 0 lines) _
      λ eligible summed.
        let bound : eligible ≤ 0 + sum_by total lines =
          (sum_lines-some test _ 0 lines).at eligible summed in
        Ensures-if (eligible == 0) _ _ (λ _. Ensures-ok 0 (omega arith))
          λ _.
            Ensures-bind (q.raw_discount code eligible) _
              λ raw _. Ensures-ok (min raw eligible) (omega (arith, bound, min-right raw eligible))

promotion_discount-most :
    (q : Queries) (code : Text) (lines : List Line) (ids : Option (List Text))
    → Ensures (λ d. d ≤ sum_by total lines) (promotion_discount q code lines ids)
unfolding promotion_discount
promotion_discount-most q code lines none = Ensures-ok 0 (omega arith)
promotion_discount-most q code lines (some ids) = discount_for-most q code lines ids

discount_of-most :
    (q : Queries) (request : QuoteRequest) (lines : List Line) (subtotal : ℕ)
    → Ensures (λ d. d ≤ sum_by total lines) (discount_of q request lines subtotal)
unfolding discount_of
discount_of-most q request lines subtotal =
    Ensures-if
      (text_eq (or_standard (request.context (codes "pricing_strategy"))) (codes "promotional")
        && not (is_empty (or_empty (request.context (codes "promotion_code")))))
      _ _ (λ _. promotion_discount-most q _ lines _) λ _. Ensures-ok 0 (omega arith)

minus-exact : (a b : ℕ) → b ≤ a → minus a b ≡ pos (a - b)
unfolding minus
minus-exact a b h = ground arith

abbrev pub Quoted : Queries → QuoteRequest → CachedQuote → Type 0
Quoted q request quote =
    (lines : List Line) × (discount : ℕ) × ArePriced q request.currency_code request.items lines
    × IsBalanced request lines discount quote

calculated-Quoted :
    (q : Queries) (now : SystemTime) (request : QuoteRequest)
    → Ensures (Quoted q request) (calculate_quote q now request)
unfolding calculate_quote
calculated-Quoted q now request =
    Ensures-bind (price_lines q request.currency_code request.items) _ λ lines priced.
      Ensures-bind
        (sum_lines (λ line. true) (status out_of_range "quote subtotal overflowed") 0 lines) _
        λ subtotal summed. Ensures-bind (discount_of q request lines subtotal) _ λ discount found.
          Ensures-bind (quote_expiry_from now) _ λ expiry _.
            Ensures-bind (ok_or (source_of q request.items) _) _ λ source _.
              let same : subtotal ≡ sum_by total lines =
                omega (arith, (sum_lines-all _ 0 lines).at subtotal summed) in
              let most : discount ≤ sum_by total lines =
                (discount_of-most q request lines subtotal).at discount found in
              Ensures-ok _ (
                lines,
                discount,
                (price_lines-ArePriced q request.currency_code request.items).at lines priced,
                record {
                  same_lines = refl;
                  subtotal = ap pos same;
                  discounted = refl;
                  at_most = most;
                  grand_total =
                      ap (λ s. minus s discount) same
                      ∙ minus-exact (sum_by total lines) discount most;
                  same_currency = refl;
                },
              )

-- A quote that is calculated has one line for each item, in the order of the request, at the price of its SKU, which is in the currency of the request, and its total is unit price times quantity. Its subtotal is the sum of the lines, its discount is at most that, and its grand total is the difference.
pub calculate_quote-Quoted :
    (q : Queries) (now : SystemTime) (request : QuoteRequest) (quote : CachedQuote)
    → calculate_quote q now request ≡ ok quote
    → Quoted q request quote
calculate_quote-Quoted q now request quote h = (calculated-Quoted q now request).at quote h
