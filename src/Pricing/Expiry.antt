-- ===== src/Pricing/Expiry.antt =====
-- How long a quote of services/pricing/src/domain.rs is valid.
use parallax_telemetry_playg.Prelude.{
  ℕ, Ensures, Ensures-if, Ensures-ok, Ensures-err, Ensures-bind, ◌+◌, ◌-◌, ◌*◌, ◌/◌, ◌≤◌, ◌<◌, ◌≡◌,
  ◌↔◌, refl, sym, subst, inl, inr, Bool-cases, pos, u32_max, i64_max, true, false, not, leb, ◌==◌,
  Result, ok, err, ensure-ok_iff, arith, if◌then◌else◌,
}
use parallax_telemetry_playg.Pricing.Quote.{
  Status, status, internal, quote_ttl_seconds, millis_per_second, CachedQuote, at, unix_millis,
  checked, remaining_from, remaining_validity_seconds, consume_at, quote_expiry_from,
  expiry_overflow,
}

checked-ok : (n : ℕ) (e : Status) → n ≤ i64_max → checked n e ≡ ok n
checked-ok n e h = ground (arith, h)

checked-inv : (n : ℕ) (e : Status) (m : ℕ) → checked n e ≡ ok m → m ≡ n
checked-inv n e m h = elim (Bool-cases (leb n i64_max)) [
  | inl fits ↦ sym (ok-inj (subst (λ b. (if b then ok n else err e) ≡ ok m) fits h))
  | inr over ↦ absurd (bad (subst (λ b. (if b then ok n else err e) ≡ ok m) over h))
]
  where
    ok-inj : {a b : ℕ} → ◌≡◌ {A = Result Status ℕ} (ok a) (ok b) → a ≡ b
    ok-inj h = cc

    bad : {b : ℕ} → ◌≡◌ {A = Result Status ℕ} (err e) (ok b) → ⊥
    bad h = cc

-- The expiry is the time of the quote and forty-five seconds.
start-inv : (n : ℕ) → Ensures (λ start. start ≡ n) (unix_millis (at n))
unfolding unix_millis
start-inv n = Ensures-if (leb n i64_max) _ _ (λ _. Ensures-ok n refl) (λ _. Ensures-err _)

expiry-inv :
    (n : ℕ)
    → Ensures
        (λ e. (e ≡ n + quote_ttl_seconds * millis_per_second) × (e ≤ i64_max))
        (quote_expiry_from (at n))
unfolding quote_expiry_from
expiry-inv n = Ensures-bind (unix_millis (at n)) _ λ start begun.
    Ensures-bind
      (checked (quote_ttl_seconds * millis_per_second)
        (status internal "quote TTL arithmetic overflowed"))
      (λ ttl. checked (start + ttl) expiry_overflow)
      λ ttl long.
        Ensures-if (leb (start + ttl) i64_max) (ok (start + ttl)) (err expiry_overflow)
          (λ fits. Ensures-ok (start + ttl) (
            omega (
              arith,
              (start-inv n).at start begun,
              checked-inv (quote_ttl_seconds * millis_per_second)
                  (status internal "quote TTL arithmetic overflowed") ttl long,
            ),
            ground (arith, fits),
          ))
          (λ _. Ensures-err expiry_overflow)

-- The remaining seconds, rounded up.
remaining-some :
    (e m : ℕ)
    → m < e
    → e ≤ m + quote_ttl_seconds * millis_per_second
    → e ≤ i64_max
    → remaining_from (pos e) m ≡ ok (((e - m) + 999) / 1000)
unfolding remaining_from
remaining-some e m h near fits =
    let early : leb e m ≡ false = ground (arith, h) in
    let small : leb (((e - m) + 999) / 1000) u32_max ≡ true = ground (arith, near) in
    rw early (
      rw (checked-ok (e - m) expiry_overflow (omega (arith, fits)))
        (rw (checked-ok ((e - m) + 999) expiry_overflow (omega (arith, near))) (rw small refl)))

remaining-none : (e m : ℕ) → e ≤ m → remaining_from (pos e) m ≡ ok 0
unfolding remaining_from
remaining-none e m h = let late : leb e m ≡ true = ground (arith, h) in rw late refl

-- A quote that was made at a time is valid for forty-five seconds: from then on it can be consumed
-- exactly until its expiry; its remaining validity is the time left in seconds, rounded up, from one to
-- forty-five, and it is zero afterwards.
pub quote_expiry_from-valid :
    (n m e : ℕ) (quote : CachedQuote)
    → quote_expiry_from (at n) ≡ ok e
    → quote.expires_at_unix_ms ≡ pos e
    → n ≤ m
    → m ≤ i64_max
    → ((consume_at quote (at m) ≡ ok tt) ↔ (m < n + quote_ttl_seconds * millis_per_second))
      × (m < e
          → (s : ℕ) × (remaining_validity_seconds quote (at m) ≡ ok s)
            × (1 ≤ s)
            × (s ≤ quote_ttl_seconds)
            × (e ≤ m + s * millis_per_second)
            × (s * millis_per_second < (e - m) + millis_per_second))
      × (e ≤ m → remaining_validity_seconds quote (at m) ≡ ok 0)
unfolding consume_at remaining_validity_seconds unix_millis
quote_expiry_from-valid n m e quote made expires later fits =
    let (exact, small) = (expiry-inv n).at e made in
    let now : leb m i64_max ≡ true = ground (arith, fits) in
    let s = ((e - m) + 999) / 1000 in
    let left = λ (h : m < e). remaining-some e m h (omega (arith, exact, later)) small in
    (
      elim (Bool-cases (leb e m)) [
        | inl late ↦ rw now (
            rw expires (
              rw (remaining-none e m (ground (arith, late)))
                (λ h. absurd (cc), λ h. absurd (omega (arith, h, exact, late_of late)))))
        | inr early ↦ rw now (
            rw expires (
              rw (left (early_of early)) (
                (λ h. omega (arith, exact, early_of early)),
                (λ h. (ensure-ok_iff (not (s == 0)) _).1 (ground (arith, early_of early))),
              )))
      ],
      (λ h. (
        s,
        rw now (rw expires (left h)),
        omega (arith, h),
        omega (arith, exact, later),
        omega arith,
        omega (arith, h),
      )),
      (λ h. rw now (rw expires (remaining-none e m h))),
    )
  where
    late_of : leb e m ≡ true → e ≤ m
    late_of h = ground (arith, h)

    early_of : leb e m ≡ false → m < e
    early_of h = ground (arith, h)
