-- ===== src/Checkout/Balance.antt =====
-- The quotes that `validate_quote_response` of services/checkout/src/application.rs accepts.
use parallax_telemetry_playg.Prelude.{
  ℕ, ◌+◌, ◌-◌, ◌*◌, ◌≤◌, ◌<◌, ◌≡◌, ◌≢◌, refl, ap, subst, ◌∙◌, ℤ, pos, negsuc, i32_max, i64_max,
  true, not, ◌&&◌, ◌||◌, Option, none, some, List, [], ◌∷◌, Text, codes, text_eq, text_eq_iff,
  any-text_eq_iff, trim, is_empty, length, any, All, leb, ◌==◌, ok, ok_or-inv, ok_or, Ensures,
  Ensures-ok, Ensures-err, Ensures-if, Ensures-bind, Ensures-ensure, Ensures-then, ensure-ok_iff,
  arith,
}
use parallax_telemetry_playg.Checkout.Errors.{ApiError}
use parallax_telemetry_playg.Checkout.Quotes.{
  Money, QuoteLine, QuoteResponse, CheckoutItemInput, CheckoutInput, amount_of, quote_money,
  i32_amount, expected_quantity, expected, checked, line_subtotal, lines_subtotal, validate_totals,
  validate_quote_lines, validate_quote_response,
}

-- The field is there, in the currency, and not negative.
abbrev pub IsAmount : Text → Option Money → ℕ → Type 0
IsAmount currency option n =
    option ≡ some (record { currency_code = currency; amount_minor = pos n })

amount_of-IsAmount :
    (currency field : Text) (m : Money)
    → text_eq m.currency_code currency ≡ true
    → Ensures (IsAmount currency (some m)) (amount_of field m.amount_minor)
unfolding amount_of
amount_of-IsAmount currency field m same = by_amount m.amount_minor refl
  where
    money_of :
        (z : ℤ) → m.amount_minor ≡ z → m ≡ record { currency_code = currency; amount_minor = z }
    money_of z e =
        let c : m.currency_code ≡ currency = (text_eq_iff m.currency_code currency).0 same in cc

    by_amount :
        (z : ℤ) → m.amount_minor ≡ z → Ensures (IsAmount currency (some m)) (amount_of field z)
    by_amount (pos n) e = Ensures-ok n (ap some (money_of (pos n) e))
    by_amount (negsuc n) e = Ensures-err _

quote_money-IsAmount :
    (option : Option Money) (currency field : Text)
    → Ensures (IsAmount currency option) (quote_money option currency field)
unfolding quote_money
quote_money-IsAmount none currency field = Ensures-err _
quote_money-IsAmount (some m) currency field =
    Ensures-ensure (text_eq m.currency_code currency) _ _
      λ same. amount_of-IsAmount currency field m same

-- A line of a requested SKU that was not seen, in the requested quantity, at a unit price.
pub record IsPriced (currency : Text) (items : List CheckoutItemInput) (seen : List Text)
    (line : QuoteLine) (unit : ℕ) : Type 0 where
  pub requested : expected_quantity line.sku items ≡ some line.quantity
  pub fresh : All (λ sku. line.sku ≢ sku) seen
  pub unit_price : IsAmount currency line.unit_price unit
  pub line_total : IsAmount currency line.line_total (unit * line.quantity)
  pub fits : unit * line.quantity ≤ i32_max

record Added (currency : Text) (items : List CheckoutItemInput) (seen : List Text) (subtotal : ℕ)
    (line : QuoteLine) (next : ℕ) : Type 0 where
  unit : ℕ
  priced : IsPriced currency items seen line unit
  sum : next ≡ subtotal + unit * line.quantity

checked-Ensures : (e : ApiError) (n : ℕ) → Ensures (λ m. m ≡ n) (checked e n)
checked-Ensures e n = Ensures-if (leb n i64_max) _ _ (λ _. Ensures-ok n refl) (λ _. Ensures-err e)

line_subtotal-Added :
    (currency : Text) (items : List CheckoutItemInput) (seen : List Text) (subtotal : ℕ)
    (line : QuoteLine)
    → Ensures
        (Added currency items seen subtotal line)
        (line_subtotal currency items seen subtotal line)
unfolding line_subtotal i32_amount
line_subtotal-Added currency items seen subtotal line =
    Ensures-bind (ok_or (expected_quantity line.sku items) _) _ λ q found.
      Ensures-ensure (not (any (text_eq line.sku) seen) && line.quantity == q) _ _ λ apart.
        Ensures-bind (quote_money line.unit_price currency (codes "line unit price")) _
          λ unit got_unit.
            Ensures-bind (quote_money line.line_total currency (codes "line total")) _
              λ total got_total. Ensures-then (i32_amount unit) _ λ _.
                Ensures-then (i32_amount total) _ λ fits.
                  Ensures-bind (checked _ (unit * line.quantity)) _ λ product multiplied.
                    Ensures-ensure (product == total) _ _ λ same. record {
                      at = λ next e.
                          let small : total ≤ i32_max =
                            ground (arith, (ensure-ok_iff (leb total i32_max) _).0 fits) in
                          let exact : total ≡ unit * line.quantity = ground (
                            arith,
                            same,
                            (checked-Ensures _ (unit * line.quantity)).at product multiplied,
                          ) in
                          record {
                            unit = unit;
                            priced = record {
                              requested =
                                  ok_or-inv _ (expected_quantity line.sku items) found
                                  ∙ ap some (ground (arith, apart));
                              fresh = (any-text_eq_iff line.sku seen).0 (ground (arith, apart));
                              unit_price =
                                  (quote_money-IsAmount line.unit_price currency
                                      (codes "line unit price")).at
                                    unit got_unit;
                              line_total = subst (IsAmount currency line.line_total) exact (
                                  (quote_money-IsAmount line.line_total currency
                                      (codes "line total")).at
                                    total got_total);
                              fits = subst (λ n. n ≤ i32_max) exact small;
                            };
                            sum =
                                (checked-Ensures _ (subtotal + total)).at next e
                                ∙ ap (λ n. subtotal + n) exact;
                          };
                    }

-- The lines, each priced and with a SKU unlike those before it, at these unit prices.
abbrev pub ArePriced : Text → List CheckoutItemInput → List Text → List QuoteLine → List ℕ → Type 0
ArePriced currency items seen [] [] = Unit {0}
ArePriced currency items seen (line ∷ lines) (unit ∷ units) =
    IsPriced currency items seen line unit × ArePriced currency items (line.sku ∷ seen) lines units
ArePriced currency items seen _ _ = ⊥

abbrev pub total_of : List QuoteLine → List ℕ → ℕ
total_of (line ∷ lines) (unit ∷ units) = unit * line.quantity + total_of lines units
total_of _ _ = 0

record Summed (currency : Text) (items : List CheckoutItemInput) (seen : List Text) (subtotal : ℕ)
    (lines : List QuoteLine) (found : List Text × ℕ) : Type 0 where
  units : List ℕ
  priced : ArePriced currency items seen lines units
  sum : found.1 ≡ subtotal + total_of lines units
  long : length found.0 ≡ length seen + length lines

lines_subtotal-Summed :
    (currency : Text) (items : List CheckoutItemInput) (seen : List Text) (subtotal : ℕ)
    (lines : List QuoteLine)
    → Ensures
        (Summed currency items seen subtotal lines)
        (lines_subtotal currency items seen subtotal lines)
unfolding lines_subtotal
lines_subtotal-Summed currency items seen subtotal [] =
    Ensures-ok (seen, subtotal)
      (record { units = []; priced = tt; sum = omega arith; long = omega arith })
lines_subtotal-Summed currency items seen subtotal (line ∷ lines) =
    Ensures-bind (line_subtotal currency items seen subtotal line) _ λ next done. record {
      at = λ found e.
          let one = (line_subtotal-Added currency items seen subtotal line).at next done in
          let rest =
            (lines_subtotal-Summed currency items (line.sku ∷ seen) next lines).at found e in
          record {
            units = one.unit ∷ rest.units;
            priced = (one.priced, rest.priced);
            sum = omega (arith, rest.sum, one.sum);
            long = omega (arith, rest.long);
          };
    }

-- What an accepted quote says: each requested item is priced once, and nothing else; the subtotal is the sum
-- of the lines; and the total is the subtotal less the discount plus the tax.
pub record Balanced (input : CheckoutInput) (quote : QuoteResponse) : Type 0 where
  pub units : List ℕ
  pub discount : ℕ
  pub tax : ℕ
  pub total : ℕ
  pub priced : ArePriced input.currency_code (expected input.items) [] quote.lines units
  pub all_items : length quote.lines ≡ length (expected input.items)
  pub subtotal_amount : IsAmount input.currency_code quote.subtotal (total_of quote.lines units)
  pub discount_amount : IsAmount input.currency_code quote.discount_total discount
  pub tax_amount : IsAmount input.currency_code quote.tax_total tax
  pub total_amount : IsAmount input.currency_code quote.grand_total total
  pub balance : total + discount ≡ total_of quote.lines units + tax
  pub discount_bounded : discount ≤ total_of quote.lines units
  pub total_bounded : total ≤ i32_max
  pub unexpired : 0 < quote.valid_for_seconds

record Totals (currency : Text) (quote : QuoteResponse) (subtotal : ℕ) : Type 0 where
  discount : ℕ
  tax : ℕ
  total : ℕ
  subtotal_amount : IsAmount currency quote.subtotal subtotal
  discount_amount : IsAmount currency quote.discount_total discount
  tax_amount : IsAmount currency quote.tax_total tax
  total_amount : IsAmount currency quote.grand_total total
  balance : total + discount ≡ subtotal + tax
  discount_bounded : discount ≤ subtotal
  total_bounded : total ≤ i32_max

validate_totals-Totals :
    (currency : Text) (quote : QuoteResponse) (lines_total : ℕ)
    → Ensures (λ u. Totals currency quote lines_total) (validate_totals currency quote lines_total)
unfolding validate_totals i32_amount
validate_totals-Totals currency quote lines_total =
    Ensures-bind (quote_money quote.subtotal currency (codes "subtotal")) _ λ subtotal got_subtotal.
      Ensures-bind (quote_money quote.discount_total currency (codes "discount")) _
        λ discount got_discount.
          Ensures-bind (quote_money quote.tax_total currency (codes "tax")) _ λ tax got_tax.
            Ensures-bind (quote_money quote.grand_total currency (codes "grand_total")) _
              λ total got_total.
                Ensures-ensure (subtotal == lines_total && leb discount subtotal) _ _ λ whole.
                  Ensures-bind (checked _ ((subtotal - discount) + tax)) _ λ sum added.
                    Ensures-ensure (total == sum) _ _ λ even.
                      Ensures-then (i32_amount subtotal) _ λ _.
                        Ensures-then (i32_amount discount) _ λ _.
                          Ensures-then (i32_amount tax) _ λ _. record {
                            at = λ u small.
                                let same : subtotal ≡ lines_total = ground (arith, whole) in
                                let less : discount ≤ subtotal = ground (arith, whole) in
                                let exact : total ≡ (subtotal - discount) + tax = ground (
                                  arith,
                                  even,
                                  (checked-Ensures _ ((subtotal - discount) + tax)).at sum added,
                                ) in
                                record {
                                  discount = discount;
                                  tax = tax;
                                  total = total;
                                  subtotal_amount = subst (IsAmount currency quote.subtotal) same (
                                      (quote_money-IsAmount quote.subtotal currency
                                          (codes "subtotal")).at
                                        subtotal got_subtotal);
                                  discount_amount =
                                      (quote_money-IsAmount quote.discount_total currency
                                          (codes "discount")).at
                                        discount got_discount;
                                  tax_amount =
                                      (quote_money-IsAmount quote.tax_total currency
                                          (codes "tax")).at
                                        tax got_tax;
                                  total_amount =
                                      (quote_money-IsAmount quote.grand_total currency
                                          (codes "grand_total")).at
                                        total got_total;
                                  balance = omega (arith, same, less, exact);
                                  discount_bounded = omega (arith, same, less);
                                  total_bounded =
                                      ground (arith, (ensure-ok_iff (leb total i32_max) _).0 small);
                                };
                          }

checks :
    (input : CheckoutInput) (quote : QuoteResponse)
    → Ensures (λ u. Balanced input quote) (validate_quote_response input quote)
unfolding validate_quote_response validate_quote_lines
checks input quote = Ensures-ensure quote.ready _ _ λ _.
    Ensures-ensure (not (is_empty (trim quote.quote_id) || is_empty (trim quote.pricing_version))) _
      _
      λ _. Ensures-ensure (not (quote.valid_for_seconds == 0)) _ _ λ valid.
        Ensures-ensure (length quote.lines == length input.items) _ _ λ _.
          Ensures-bind (lines_subtotal input.currency_code (expected input.items) [] 0 quote.lines)
            _
            λ found summed.
              Ensures-ensure (length found.0 == length (expected input.items)) _ _ λ complete.
                record {
                  at = λ u e.
                      let lines =
                        (lines_subtotal-Summed input.currency_code (expected input.items) [] 0
                            quote.lines).at
                          found summed in
                      let totals =
                        (validate_totals-Totals input.currency_code quote found.1).at u e in
                      let sum : found.1 ≡ total_of quote.lines lines.units =
                        omega (arith, lines.sum) in
                      record {
                        units = lines.units;
                        discount = totals.discount;
                        tax = totals.tax;
                        total = totals.total;
                        priced = lines.priced;
                        all_items = ground (arith, complete, lines.long);
                        subtotal_amount =
                            subst (IsAmount input.currency_code quote.subtotal) sum
                              totals.subtotal_amount;
                        discount_amount = totals.discount_amount;
                        tax_amount = totals.tax_amount;
                        total_amount = totals.total_amount;
                        balance = omega (arith, sum, totals.balance);
                        discount_bounded = omega (arith, sum, totals.discount_bounded);
                        total_bounded = totals.total_bounded;
                        unexpired = ground (arith, valid);
                      };
                }

-- A quote that the checkout accepts prices each requested SKU once, in the requested quantity and
-- currency, and nothing else; the amount of a line is its unit price times its quantity, the
-- subtotal is the sum of the lines, and the total with the discount is the subtotal with the tax; the
-- total fits 32 bits, the discount is at most the subtotal, and the quote has not expired.
pub validate_quote_response-Balanced :
    (input : CheckoutInput) (quote : QuoteResponse)
    → validate_quote_response input quote ≡ ok tt
    → Balanced input quote
validate_quote_response-Balanced input quote h = (checks input quote).at tt h
