-- ===== src/Checkout/Due.antt =====
-- The events that `claim_outbox_event` of services/checkout/src/infrastructure.rs may claim, before and
-- after it has given up others.
use parallax_telemetry_playg.Prelude.{
  ℕ, Bool-cases, inl, inr, ◌<◌, ◌≤◌, ◌≡◌, ◌↔◌, ◌⊎◌, refl, ap, sym, subst, Option, none, ◌||◌, ◌∙◌,
  true, false, ◌&&◌, some, List, [], ◌∷◌, Text, text_eq, text_Eq, arith, map, leb,
}
use parallax_telemetry_playg.Table.{find}
use parallax_telemetry_playg.Checkout.Outbox.{
  outbox_max_attempts, OutboxEvent, OutboxStatus, queued, processing, published, failed, is_queued,
  is_processing, has_expired, exhaust, event_id, is_exhausted, exhaust_if, is_claimable,
}
use parallax_telemetry_playg.Checkout.Refinement.{exhaust-id}

-- A claim whose time has come.
abbrev pub HasLapsed : ℕ → Option ℕ → Type 0
HasLapsed now none = ⊥
HasLapsed now (some t) = t ≤ now

-- An event that is to be sent: it was sent at most twice, and waits for a time that has come, or
-- for an answer to a claim that has lapsed.
pub record IsDue (now : ℕ) (e : OutboxEvent) : Type 0 where
  pub budget : e.attempts < 3
  pub waiting :
      ((e.status ≡ queued) × (e.available_at ≤ now))
      ⊎ ((e.status ≡ processing) × HasLapsed now e.claim_expires_at)

waiting_iff :
    (s : OutboxStatus) (o : Option ℕ) (available now : ℕ)
    → ((is_queued s && leb available now || (is_processing s && has_expired o now)) ≡ true)
      ↔ (((s ≡ queued) × (available ≤ now)) ⊎ ((s ≡ processing) × HasLapsed now o))
waiting_iff queued o available now = ground arith
waiting_iff processing none available now = ground arith
waiting_iff processing (some t) available now = ground arith
waiting_iff published o available now = ground arith
waiting_iff failed o available now = ground arith

pub is_claimable_iff : (now : ℕ) (e : OutboxEvent) → (is_claimable now e ≡ true) ↔ IsDue now e
unfolding is_claimable
is_claimable_iff now e =
    let waits = waiting_iff e.status e.claim_expires_at e.available_at now in
    (
      λ h. record { budget = ground (arith, h); waiting = waits.0 (ground (arith, h)) },
      λ d. ground (arith, d.budget, waits.1 d.waiting),
    )

pub find-map :
    (f : OutboxEvent → OutboxEvent)
    → ((e : OutboxEvent) → (f e).id ≡ e.id)
    → (k : Text) (es : List OutboxEvent) (x : OutboxEvent) → find event_id k es ≡ some x
    → find event_id k (map f es) ≡ some (f x)
unfolding find
find-map f same k [] x h = absurd (cc)
find-map f same k (e ∷ es) x h = elim (Bool-cases (text_eq e.id k)) [
  | inl hit ↦
      rw (ap (λ j. text_eq j k) (same e) ∙ hit) (ap (λ y. some (f y)) (some-inj (head hit h)))
  | inr miss ↦
      rw (ap (λ j. text_eq j k) (same e) ∙ miss) ((find-map f same k es x (ground (arith, miss))))
]
  where
    some-inj : {a b : OutboxEvent} → some a ≡ some b → a ≡ b
    some-inj h = cc

    head : text_eq e.id k ≡ true → find event_id k (e ∷ es) ≡ some x → some e ≡ some x
    head hit h = ground (arith, hit, h)

-- A claimable event has attempts left, so it is not given up.
pub claimable-kept : (now : ℕ) (x : OutboxEvent) → is_claimable now x ≡ true → exhaust_if now x ≡ x
unfolding is_claimable is_exhausted
claimable-kept now x h =
    let live : leb outbox_max_attempts x.attempts ≡ false = ground (arith, h) in rw live refl

-- A claimable event of the rows after the first statement was there before it.
find-unmap :
    (f : OutboxEvent → OutboxEvent)
    → ((e : OutboxEvent) → (f e).id ≡ e.id)
    → (k : Text) (es : List OutboxEvent) {y : OutboxEvent} → find event_id k (map f es) ≡ some y
    → (x : OutboxEvent) × (find event_id k es ≡ some x) × (f x ≡ y)
unfolding find
find-unmap f same k [] h = absurd (cc)
find-unmap f same k (e ∷ es) {y} h = elim (Bool-cases (text_eq e.id k)) [
  | inl hit ↦
      let hit' : text_eq (f e).id k ≡ true = ap (λ j. text_eq j k) (same e) ∙ hit in
      (e, rw hit refl, ground (arith, hit', h))
  | inr miss ↦
      let miss' : text_eq (f e).id k ≡ false = ap (λ j. text_eq j k) (same e) ∙ miss in
      let below = find-unmap f same k es {y = y} (ground (arith, miss', h)) in
      (below.0, rw miss below.1, below.2)
]

not_exhausted :
    (now : ℕ) (x : OutboxEvent) → is_claimable now (exhaust_if now x) ≡ true → exhaust_if now x ≡ x
unfolding is_claimable exhaust
not_exhausted now x h = elim (Bool-cases (is_exhausted now x)) [
  | inl spent ↦ absurd (ground (arith, spent, h))
  | inr live ↦ rw live refl
]

pub claimable-there :
    (now : ℕ) (es : List OutboxEvent) (e : OutboxEvent)
    → find event_id e.id (map (exhaust_if now) es) ≡ some e
    → is_claimable now e ≡ true
    → find event_id e.id es ≡ some e
claimable-there now es e row due =
    let old = find-unmap (exhaust_if now) (exhaust-id now) e.id es row in
    let kept = not_exhausted now old.0 (subst (λ y. is_claimable now y ≡ true) (sym old.2) due) in
    old.1 ∙ ap some (sym kept ∙ old.2)
