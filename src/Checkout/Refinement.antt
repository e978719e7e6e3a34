-- ===== src/Checkout/Refinement.antt =====
-- `publish_one_outbox` of services/checkout/src/infrastructure.rs against the life of an event.
use parallax_telemetry_playg.Prelude.{
  ℕ, ◌+◌, ◌≡◌, refl, inl, inr, Bool, true, false, not, ◌&&◌, ◌||◌, Option, none, some, List, [],
  ◌∷◌, Text, Bool-cases, Option-cases, text_eq, text_Eq, ltb, leb, arith, ap, subst, sort_by,
  sort_by-All, keep, keep-passes, All, All-both, All-keep, sym, map, ok, err, if◌then◌else◌, ◌∙◌,
}
use parallax_telemetry_playg.Table.{find, update, update-inv, Distinct, Distinct-find}
use parallax_telemetry_playg.Notifications.Progress.{
  Pointwise, Pointwise-refl, Pointwise-map, Pointwise-alter,
}
use parallax_telemetry_playg.Checkout.Errors.{ApiError, ApiResult}
use parallax_telemetry_playg.Checkout.Outbox.{
  outbox_max_attempts, OutboxStatus, queued, processing, published, failed, OutboxEvent, event_id,
  is_queued, is_processing, has_expired, is_exhausted, exhaust, exhaust_if, is_claimable, candidate,
  first, claim, claim_candidate, claim_outbox_event, holds_claim, publish, outbox_failure_status,
  is_transient_outbox_error, classify, settled, settle, settle_claim, publish_one_outbox,
}
use parallax_telemetry_playg.Checkout.Lifecycle.{
  Phase, sending, sent, dead, Next, take, retake, confirm, retry, give_up, expire, Steps, here,
  further, Steps-trans, phase_of, phase,
}

-- What an event says.
pub record Content : Type 0 where
  pub id : Text
  pub tenant_id : Text
  pub event_key : Text
  pub event_type : Text
  pub payload : Text
  pub traceparent : Option Text
  pub tracestate : Option Text
  pub baggage : Option Text
  pub created_at : ℕ

abbrev pub content : OutboxEvent → Content
content e = record {
  id = e.id;
  tenant_id = e.tenant_id;
  event_key = e.event_key;
  event_type = e.event_type;
  payload = e.payload;
  traceparent = e.traceparent;
  tracestate = e.tracestate;
  baggage = e.baggage;
  created_at = e.created_at;
}

-- What becomes of an event: it moves along its life, and what it says stays.
pub record Follows (e e' : OutboxEvent) : Type 0 where
  pub steps : Steps (phase e) (phase e')
  pub same : content e' ≡ content e

pub Follows-refl : (e : OutboxEvent) → Follows e e
Follows-refl e = record { steps = here (phase e); same = refl }

Follows-trans : (a b c : OutboxEvent) → Follows a b → Follows b c → Follows a c
Follows-trans a b c h g = record {
  steps = Steps-trans (phase a) (phase b) (phase c) h.steps g.steps;
  same = g.same ∙ h.same;
}

Pointwise-trans :
    (xs ys zs : List OutboxEvent)
    → Pointwise Follows xs ys
    → Pointwise Follows ys zs
    → Pointwise Follows xs zs
Pointwise-trans [] [] zs h g = g
Pointwise-trans [] (y ∷ ys) zs h g = absurd h
Pointwise-trans (x ∷ xs) [] zs h g = absurd h
Pointwise-trans (x ∷ xs) (y ∷ ys) [] h g = absurd g
Pointwise-trans (x ∷ xs) (y ∷ ys) (z ∷ zs) h g =
    (Follows-trans x y z h.0 g.0, Pointwise-trans xs ys zs h.1 g.1)

one : {p q : Phase} → Next p q → Steps p q
one {p} {q} n = further p q q n (here q)

exhaust-Next :
    (s : OutboxStatus) (n : ℕ) (b : Bool)
    → (leb outbox_max_attempts n && (is_queued s || (is_processing s && b))) ≡ true
    → Next (phase_of s n) dead
exhaust-Next queued n b h = expire n (ground arith)
exhaust-Next processing n b h = give_up n
exhaust-Next published n b h = absurd (ground arith)
exhaust-Next failed n b h = absurd (ground arith)

claim-Next :
    (s : OutboxStatus) (n : ℕ) (a b : Bool)
    → (ltb n outbox_max_attempts && ((is_queued s && a) || (is_processing s && b))) ≡ true
    → Next (phase_of s n) (sending (n + 1))
claim-Next queued n a b h = take n (ground arith)
claim-Next processing n a b h = retake n (ground arith)
claim-Next published n a b h = absurd (ground arith)
claim-Next failed n a b h = absurd (ground arith)

publish-Next : (s : OutboxStatus) (n : ℕ) → is_processing s ≡ true → Next (phase_of s n) sent
publish-Next queued n h = absurd (cc)
publish-Next processing n h = confirm n
publish-Next published n h = absurd (cc)
publish-Next failed n h = absurd (cc)

classify-Next :
    (s : OutboxStatus) (n : ℕ) (b : Bool)
    → is_processing s ≡ true
    → Next (phase_of s n) (phase_of (if b then failed else queued) n)
classify-Next queued n b h = absurd (cc)
classify-Next processing n true h = give_up n
classify-Next processing n false h = retry n
classify-Next published n b h = absurd (cc)
classify-Next failed n b h = absurd (cc)

pub exhaust-Follows : (now : ℕ) (e : OutboxEvent) → Follows e (exhaust_if now e)
unfolding exhaust is_exhausted
exhaust-Follows now e = elim (Bool-cases (is_exhausted now e)) [
  | inl h ↦ rw h (record {
    steps = one (exhaust-Next e.status e.attempts (has_expired e.claim_expires_at now) h);
    same = refl;
  })
  | inr h ↦ rw h (Follows-refl e)
]

pub claim-Follows :
    (now : ℕ) (token : Text) (e : OutboxEvent)
    → is_claimable now e ≡ true
    → Follows e (claim now token e)
unfolding claim is_claimable
claim-Follows now token e h = record {
  steps = one (
      claim-Next e.status e.attempts (leb e.available_at now) (has_expired e.claim_expires_at now)
        h);
  same = refl;
}

publish-Follows :
    (now : ℕ) (token : Option Text) (e : OutboxEvent)
    → holds_claim now token e ≡ true
    → Follows e (publish now e)
unfolding publish holds_claim
publish-Follows now none e h = absurd (cc)
publish-Follows now (some token) e h = record {
  steps = one (publish-Next e.status e.attempts (ground (arith, h)));
  same = refl;
}

classify-Follows :
    (now n : ℕ) (error : ApiError) (token : Option Text) (e : OutboxEvent)
    → holds_claim now token e ≡ true
    → Follows e (classify now n error (outbox_failure_status n error.code) e)
unfolding classify holds_claim outbox_failure_status
classify-Follows now n error none e h = absurd (cc)
classify-Follows now n error (some token) e h = record {
  steps = one (
      classify-Next e.status e.attempts
        (not (is_transient_outbox_error error.code) || leb outbox_max_attempts n)
        (ground (arith, h)));
  same = refl;
}

first-inv :
    (es : List OutboxEvent) (e : OutboxEvent)
    → first es ≡ some e
    → (rest : List OutboxEvent) × (es ≡ e ∷ rest)
first-inv [] e h = absurd (cc)
first-inv (x ∷ xs) e h = (xs, ap (λ y. y ∷ xs) (cc))

-- The candidate is the row of its identity, and claimable.
pub candidate-inv :
    (locked : Text → Bool) (now : ℕ) (es : List OutboxEvent) (e : OutboxEvent)
    → Distinct event_id es
    → candidate locked now es ≡ some e
    → (find event_id e.id es ≡ some e) × (is_claimable now e ≡ true)
unfolding candidate
candidate-inv locked now es e distinct h =
    let le = λ (a b : OutboxEvent). leb a.created_at b.created_at in
    let test = λ (e : OutboxEvent). is_claimable now e && not (locked e.id) in
    let own = λ (y : OutboxEvent). find event_id y.id es ≡ some y in
    let good = λ (y : OutboxEvent). own y × (test y ≡ true) in
    let (rest, shape) = first-inv (sort_by le (keep test es)) e h in
    let both =
      All-both own (λ y. test y ≡ true) (keep test es)
        (All-keep own test es (Distinct-find event_id es distinct)) (keep-passes test es) in
    let head = subst (All good) shape (sort_by-All le good (keep test es) both) in
    (head.0.0, ground (arith, head.0.1))

content-id : (a b : OutboxEvent) → content a ≡ content b → a.id ≡ b.id
content-id a b h = ap (λ c. c.id) h

abbrev pub AllFollow : List OutboxEvent → List OutboxEvent → Type 0
AllFollow es es' = Pointwise Follows es es'

pub exhaust-id : (now : ℕ) (e : OutboxEvent) → (exhaust_if now e).id ≡ e.id
exhaust-id now e = ap (λ c. c.id) (exhaust-Follows now e).same

pub Distinct-map :
    (f : OutboxEvent → OutboxEvent)
    → ((e : OutboxEvent) → (f e).id ≡ e.id)
    → (es : List OutboxEvent) → Distinct event_id es
    → Distinct event_id (map f es)
Distinct-map f same [] d = tt
Distinct-map f same (x ∷ xs) d = (apart xs d.0, Distinct-map f same xs d.1)
  where
    apart :
        (ys : List OutboxEvent)
        → All (λ y. text_eq x.id y.id ≡ false) ys
        → All (λ y. text_eq (f x).id y.id ≡ false) (map f ys)
    apart [] h = tt
    apart (y ∷ ys) h = (rw (same x) (rw (same y) h.0), apart ys h.1)

claim_candidate-Follow :
    (now : ℕ) (token : Text) (es : List OutboxEvent) (o : Option OutboxEvent)
    → ((e : OutboxEvent)
        → o ≡ some e
        → (find event_id e.id es ≡ some e) × (is_claimable now e ≡ true))
    → AllFollow es (claim_candidate now token es o).1
unfolding claim_candidate
claim_candidate-Follow now token es none h = Pointwise-refl Follows Follows-refl es
claim_candidate-Follow now token es (some e) h =
    let (row, due) = h e refl in
    Pointwise-alter event_id Follows e.id (claim now token) es Follows-refl (λ a found.
      claim-Follows now token a
        (subst (λ x. is_claimable now x ≡ true) (some-inj (sym row ∙ found)) due))
  where
    some-inj : {a b : OutboxEvent} → some a ≡ some b → a ≡ b
    some-inj h = cc

claim_outbox_event-Follow :
    (locked : Text → Bool) (now : ℕ) (token : Text) (es : List OutboxEvent)
    → Distinct event_id es
    → AllFollow es (claim_outbox_event locked now token es).1
unfolding claim_outbox_event
claim_outbox_event-Follow locked now token es d =
    let es1 = map (exhaust_if now) es in
    let d1 = Distinct-map (exhaust_if now) (exhaust-id now) es d in
    Pointwise-trans es es1 _ (Pointwise-map Follows (exhaust_if now) (exhaust-Follows now) es) (
      claim_candidate-Follow now token es1 (candidate locked now es1)
        (λ e h. candidate-inv locked now es1 e d1 h))

module _ (answer : ApiResult Bool) (conflict : ApiError) (es : List OutboxEvent) (k : Text)
    (guard : OutboxEvent → Bool) (f : OutboxEvent → OutboxEvent)
    (step : (e : OutboxEvent) → guard e ≡ true → Follows e (f e)) where
  settled-Follow : AllFollow es (settled answer conflict es (update event_id k guard f es)).1
  settled-Follow = elim (Option-cases (update event_id k guard f es)) [
    | inl gone ↦ rw gone (Pointwise-refl Follows Follows-refl es)
    | inr ((e, es'), done) ↦ rw done (
        let (a, row, holds, last, rows) = update-inv event_id k guard f es done in
        subst (AllFollow es) (sym rows) (
          Pointwise-alter event_id Follows k f es Follows-refl
            (λ b found. step b (subst (λ x. guard x ≡ true) (some-inj (sym row ∙ found)) holds))))
  ]
    where
      some-inj : {a b : OutboxEvent} → some a ≡ some b → a ≡ b
      some-inj h = cc

-- A mark, however stale, takes every event along its life.
pub settle-Follow :
    (now : ℕ) (event : OutboxEvent) (r : ApiResult (Unit {0})) (es : List OutboxEvent)
    → AllFollow es (settle now event r es).1
unfolding settle
settle-Follow now event (ok u) es =
    settled-Follow _ _ es event.id (holds_claim now event.claim_token) (publish now)
      (publish-Follows now event.claim_token)
settle-Follow now event (err error) es =
    settled-Follow _ _ es event.id (holds_claim now event.claim_token) _
      (classify-Follows now event.attempts error event.claim_token)

pub settle_claim-Follow :
    (later : ℕ) (send : OutboxEvent → ApiResult (Unit {0})) (es : List OutboxEvent)
    (r : Option OutboxEvent × List OutboxEvent)
    → AllFollow es r.1
    → AllFollow es (settle_claim later send r).1
unfolding settle_claim
settle_claim-Follow later send es (none, es') h = h
settle_claim-Follow later send es (some event, es') h =
    Pointwise-trans es es' _ h (settle-Follow later event (send event) es')

-- Whatever is locked, whatever the broker answers and however late the mark comes, a round of the
-- publisher takes every event along its life, with what it says unchanged, when no two events
-- have the same identity.
pub publish_one_outbox-Follow :
    (locked : Text → Bool) (now later : ℕ) (token : Text)
    (send : OutboxEvent → ApiResult (Unit {0})) (es : List OutboxEvent)
    → Distinct event_id es
    → AllFollow es (publish_one_outbox locked now later token send es).1
unfolding publish_one_outbox
publish_one_outbox-Follow locked now later token send es d =
    settle_claim-Follow later send es _ (claim_outbox_event-Follow locked now token es d)
