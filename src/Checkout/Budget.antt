-- ===== src/Checkout/Budget.antt =====
-- How often the publisher of services/checkout/src/infrastructure.rs sends.
use parallax_telemetry_playg.Prelude.{
  ℕ, ◌+◌, ◌-◌, ◌≤◌, ◌≡◌, refl, ap, Bool, true, false, Option, none, some, List, [], ◌∷◌, Text,
  text_eq, text_Eq, arith, ltb, leb, ◌&&◌, ◌||◌, ◌*◌, length, map, sum_by, All,
}
use parallax_telemetry_playg.Table.{find, sum_by-alter, Distinct}
use parallax_telemetry_playg.Notifications.Progress.{Pointwise-refl, Pointwise-map}
use parallax_telemetry_playg.Checkout.Outbox.{
  outbox_max_attempts, OutboxStatus, queued, processing, published, failed, OutboxEvent, event_id,
  is_queued, is_processing, has_expired, exhaust_if, is_claimable, candidate, claim,
  claim_candidate, claim_outbox_event, settle_claim, publish_one_outbox, Turn, take_turn,
  run_publisher,
}
use parallax_telemetry_playg.Checkout.Lifecycle.{
  Phase, waiting, sending, sent, dead, Next, take, retake, confirm, retry, give_up, expire, Steps,
  here, further, phase_of, phase,
}
use parallax_telemetry_playg.Checkout.Refinement.{
  Follows, AllFollow, Follows-refl, exhaust-Follows, exhaust-id, Distinct-map, candidate-inv,
  settle_claim-Follow, publish_one_outbox-Follow,
}

-- How many times more an event may be sent.
abbrev pub left_of : Phase → ℕ
left_of (waiting n) = outbox_max_attempts - n
left_of (sending n) = outbox_max_attempts - n
left_of sent = 0
left_of dead = 0

abbrev pub left : OutboxEvent → ℕ
left e = left_of (phase e)

Next-left : (p q : Phase) → Next p q → left_of q ≤ left_of p
Next-left _ _ (take n h) = omega arith
Next-left _ _ (retake n h) = omega arith
Next-left _ _ (confirm n) = omega arith
Next-left _ _ (retry n) = omega arith
Next-left _ _ (give_up n) = omega arith
Next-left _ _ (expire n h) = omega arith

Steps-left : (p q : Phase) → Steps p q → left_of q ≤ left_of p
Steps-left _ _ (here p) = omega arith
Steps-left _ _ (further p q r n s) = omega (arith, Next-left p q n, Steps-left q r s)

Follow-left : (es es' : List OutboxEvent) → AllFollow es es' → sum_by left es' ≤ sum_by left es
Follow-left [] [] h = omega arith
Follow-left [] (y ∷ ys) h = absurd h
Follow-left (x ∷ xs) [] h = absurd h
Follow-left (x ∷ xs) (y ∷ ys) h =
    omega (arith, Steps-left (phase x) (phase y) h.0.steps, Follow-left xs ys h.1)

claimed-left :
    (s : OutboxStatus) (n : ℕ) (a b : Bool)
    → (ltb n outbox_max_attempts && ((is_queued s && a) || (is_processing s && b))) ≡ true
    → left_of (sending (n + 1)) + 1 ≤ left_of (phase_of s n)
claimed-left queued n a b h = ground (arith, h)
claimed-left processing n a b h = ground (arith, h)
claimed-left published n a b h = absurd (ground arith)
claimed-left failed n a b h = absurd (ground arith)

claim-left :
    (now : ℕ) (token : Text) (e : OutboxEvent)
    → is_claimable now e ≡ true
    → left (claim now token e) + 1 ≤ left e
unfolding claim is_claimable
claim-left now token e h =
    claimed-left e.status e.attempts (leb e.available_at now) (has_expired e.claim_expires_at now) h

-- One for a claim.
abbrev pub sent_by : Option OutboxEvent → ℕ
sent_by none = 0
sent_by (some e) = 1

candidate-left :
    (now : ℕ) (token : Text) (es : List OutboxEvent) (o : Option OutboxEvent)
    → ((e : OutboxEvent)
        → o ≡ some e
        → (find event_id e.id es ≡ some e) × (is_claimable now e ≡ true))
    → sent_by (claim_candidate now token es o).0 + sum_by left (claim_candidate now token es o).1
      ≤ sum_by left es
unfolding claim_candidate
candidate-left now token es none h = omega arith
candidate-left now token es (some e) h =
    let (row, due) = h e refl in
    omega
      (arith, sum_by-alter event_id e.id (claim now token) left es row, claim-left now token e due)

-- A claim uses up one of the attempts that are left.
pub claim-budget :
    (locked : Text → Bool) (now : ℕ) (token : Text) (es : List OutboxEvent)
    → Distinct event_id es
    → sent_by (claim_outbox_event locked now token es).0
        + sum_by left (claim_outbox_event locked now token es).1
      ≤ sum_by left es
unfolding claim_outbox_event
claim-budget locked now token es d =
    let es1 = map (exhaust_if now) es in
    let d1 = Distinct-map (exhaust_if now) (exhaust-id now) es d in
    omega (
      arith,
      Follow-left es es1 (Pointwise-map Follows (exhaust_if now) (exhaust-Follows now) es),
      candidate-left now token es1 (candidate locked now es1)
          (λ e h. candidate-inv locked now es1 e d1 h),
    )

Follow-Distinct :
    (es es' : List OutboxEvent) → AllFollow es es' → Distinct event_id es → Distinct event_id es'
Follow-Distinct [] [] h d = tt
Follow-Distinct [] (y ∷ ys) h d = absurd h
Follow-Distinct (x ∷ xs) [] h d = absurd h
Follow-Distinct (x ∷ xs) (y ∷ ys) h d = (apart xs ys h.1 d.0, Follow-Distinct xs ys h.1 d.1)
  where
    apart :
        (us vs : List OutboxEvent)
        → AllFollow us vs
        → All (λ u. text_eq x.id u.id ≡ false) us
        → All (λ v. text_eq y.id v.id ≡ false) vs
    apart [] [] h a = tt
    apart [] (v ∷ vs) h a = absurd h
    apart (u ∷ us) [] h a = absurd h
    apart (u ∷ us) (v ∷ vs) g a =
        (rw (ap (λ c. c.id) h.0.same) (rw (ap (λ c. c.id) g.0.same) a.0), apart us vs g.1 a.1)

-- The messages that the publisher sends.
abbrev pub sends : List Turn → List OutboxEvent → ℕ
sends [] es = 0
sends (t ∷ ts) es =
    sent_by (claim_outbox_event t.locked t.now t.token es).0 + sends ts (take_turn t es)

turn-left :
    (t : Turn) (es : List OutboxEvent)
    → Distinct event_id es
    → sent_by (claim_outbox_event t.locked t.now t.token es).0 + sum_by left (take_turn t es)
      ≤ sum_by left es
unfolding take_turn publish_one_outbox
turn-left t es d =
    let r = claim_outbox_event t.locked t.now t.token es in
    omega (
      arith,
      claim-budget t.locked t.now t.token es d,
      Follow-left r.1 (settle_claim t.later t.send r).1
          (settle_claim-Follow t.later t.send r.1 r (Pointwise-refl Follows Follows-refl r.1)),
    )

take_turn-Follow :
    (t : Turn) (es : List OutboxEvent) → Distinct event_id es → AllFollow es (take_turn t es)
unfolding take_turn
take_turn-Follow t es d = publish_one_outbox-Follow t.locked t.now t.later t.token t.send es d

sends-left :
    (ts : List Turn) (es : List OutboxEvent)
    → Distinct event_id es
    → sends ts es + sum_by left (run_publisher ts es) ≤ sum_by left es
unfolding run_publisher
sends-left [] es d = omega arith
sends-left (t ∷ ts) es d =
    let next = take_turn t es in
    let d1 = Follow-Distinct es next (take_turn-Follow t es d) d in
    omega (arith, turn-left t es d, sends-left ts next d1)

left-le : (p : Phase) → left_of p ≤ outbox_max_attempts
left-le (waiting n) = omega arith
left-le (sending n) = omega arith
left-le sent = omega arith
left-le dead = omega arith

sum-left-le : (es : List OutboxEvent) → sum_by left es ≤ outbox_max_attempts * length es
sum-left-le [] = omega arith
sum-left-le (e ∷ es) = omega (arith, left-le (phase e), sum-left-le es)

-- However many turns the publisher takes, whatever others lock, however the broker answers and
-- however late the marks come, it sends at most three messages for each event in the outbox, when
-- no two events have the same identity.
pub run_publisher-bounded :
    (ts : List Turn) (es : List OutboxEvent)
    → Distinct event_id es
    → sends ts es ≤ outbox_max_attempts * length es
run_publisher-bounded ts es d = omega (arith, sends-left ts es d, sum-left-le es)
