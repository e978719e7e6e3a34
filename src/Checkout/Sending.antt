-- ===== src/Checkout/Sending.antt =====
-- A turn of the publisher of services/checkout/src/infrastructure.rs that succeeds.
use parallax_telemetry_playg.Prelude.{
  ℕ, ◌+◌, ◌<◌, ◌≡◌, refl, ap, none, ◌∙◌, Bool, true, false, not, ◌&&◌, some, List, [], ◌∷◌, Text,
  text_eq_refl, text_Eq, arith, map, is_empty, keep, sort_by-is_empty, leb, ok,
}
use parallax_telemetry_playg.Table.{
  find, alter, update_of_find, find-alter_self, find-keep, Distinct,
}
use parallax_telemetry_playg.Checkout.Errors.{ApiResult}
use parallax_telemetry_playg.Checkout.Outbox.{
  outbox_lease, OutboxEvent, published, event_id, exhaust_if, is_claimable, candidate, first, claim,
  claim_candidate, claim_outbox_event, holds_claim, publish, settle, settle_claim,
  publish_one_outbox,
}
use parallax_telemetry_playg.Checkout.Refinement.{exhaust-id, Distinct-map, candidate-inv}
use parallax_telemetry_playg.Checkout.Due.{
  IsDue, is_claimable_iff, find-map, claimable-kept, claimable-there,
}

-- An event is published: it was there and due, was counted once more, and now is marked as sent,
-- with no claim and no failure.
pub record Published (now later : ℕ) (answer : ApiResult Bool) (es es' : List OutboxEvent)
    : Type 0 where
  pub event : OutboxEvent
  pub there : find event_id event.id es ≡ some event
  pub due : IsDue now event
  pub answered : answer ≡ ok true
  pub row :
      find event_id event.id es'
      ≡ some (record event {
        status = published;
        attempts = event.attempts + 1;
        available_at = now + 30_000_000;
        published_at = some later;
        failure_code = none;
        failure_message = none;
        failed_at = none;
        claim_token = none;
        claim_expires_at = none;
      })

claim-id : (now : ℕ) (token : Text) (e : OutboxEvent) → (claim now token e).id ≡ e.id
unfolding claim
claim-id now token e = refl

published-literal :
    (now later : ℕ) (token : Text) (e : OutboxEvent)
    → publish later (claim now token e) ≡ record e {
      status = published;
      attempts = e.attempts + 1;
      available_at = now + 30_000_000;
      published_at = some later;
      failure_code = none;
      failure_message = none;
      failed_at = none;
      claim_token = none;
      claim_expires_at = none;
    }
unfolding publish claim
published-literal now later token e = refl

publish-id : (now : ℕ) (e : OutboxEvent) → (publish now e).id ≡ e.id
unfolding publish
publish-id now e = refl

-- A fresh claim holds until its lease ends.
claim-holds :
    (now later : ℕ) (token : Text) (e : OutboxEvent)
    → later < now + outbox_lease
    → holds_claim later (some token) (claim now token e) ≡ true
unfolding claim holds_claim
claim-holds now later token e h = rw (text_eq_refl token) (ground (arith, h))

module _ (now later : ℕ) (token : Text) (es : List OutboxEvent) (e : OutboxEvent)
    (row : find event_id e.id es ≡ some e) (soon : later < now + outbox_lease) where
  claimed : List OutboxEvent
  claimed = alter event_id e.id (claim now token) es

  claimed-row : find event_id e.id claimed ≡ some (claim now token e)
  unfolding claimed
  claimed-row = find-alter_self event_id e.id (claim now token) (claim-id now token) es row

  settle-row :
      settle later (claim now token e) (ok tt) claimed
      ≡ (ok true, alter event_id e.id (publish later) claimed)
  unfolding settle claim
  settle-row =
      rw
        (update_of_find event_id e.id (holds_claim later (some token)) (publish later) claimed
          (claim now token e) claimed-row (claim-holds now later token e soon))
        refl

  published-row :
      find event_id e.id (alter event_id e.id (publish later) claimed)
      ≡ some (publish later (claim now token e))
  published-row =
      find-alter_self event_id e.id (publish later) (publish-id later) claimed claimed-row

first-some : (es : List OutboxEvent) → is_empty es ≡ false → (e : OutboxEvent) × (first es ≡ some e)
first-some [] h = absurd (cc)
first-some (e ∷ es) h = (e, refl)

candidate-some :
    (locked : Text → Bool) (now : ℕ) (es : List OutboxEvent) (k : Text) (x : OutboxEvent)
    → find event_id k es ≡ some x
    → is_claimable now x ≡ true
    → locked x.id ≡ false
    → (e : OutboxEvent) × (candidate locked now es ≡ some e)
unfolding candidate
candidate-some locked now es k x row due open_row =
    let le = λ (a b : OutboxEvent). leb a.created_at b.created_at in
    let test = λ (e : OutboxEvent). is_claimable now e && not (locked e.id) in
    first-some _ (
      rw (sort_by-is_empty le (keep test es))
        (find-keep event_id k test es row (rw (due, open_row) refl)))

-- When some event is due that no one else has locked, the broker confirms every message and the
-- mark comes within thirty seconds of the claim, a turn of the publisher answers that it has
-- published, and an event that was due before is the row of its identity, counted once more and
-- marked as published at the time of the mark, without a claim or a failure. For that the identities
-- of the rows are distinct.
pub publish_one_outbox-Published :
    (locked : Text → Bool) (now later : ℕ) (token : Text)
    (send : OutboxEvent → ApiResult (Unit {0})) (es : List OutboxEvent) (x : OutboxEvent)
    → Distinct event_id es
    → find event_id x.id es ≡ some x
    → IsDue now x
    → locked x.id ≡ false
    → ((e : OutboxEvent) → send e ≡ ok tt)
    → later < now + 30_000_000
    → Published now later
        (publish_one_outbox locked now later token send es).0
        es
        (publish_one_outbox locked now later token send es).1
unfolding publish_one_outbox claim_outbox_event claim_candidate settle_claim alter claimed
publish_one_outbox-Published locked now later token send es x distinct row wanted open_row sends
      soon =
    let due = (is_claimable_iff now x).1 wanted in
    let es1 = map (exhaust_if now) es in
    let d1 = Distinct-map (exhaust_if now) (exhaust-id now) es distinct in
    let row1 =
      find-map (exhaust_if now) (exhaust-id now) x.id es x row
      ∙ ap some (claimable-kept now x due) in
    let (e, chosen) = candidate-some locked now es1 x.id x row1 due open_row in
    let (own, ready) = candidate-inv locked now es1 e d1 chosen in
    rw chosen (
      rw (sends (claim now token e)) (record {
        event = e;
        there = claimable-there now es e own ready;
        due = (is_claimable_iff now e).0 ready;
        answered = ap (λ r. r.0) (settle-row now later token es1 e own soon);
        row =
            ap (λ r. find event_id e.id r.1) (settle-row now later token es1 e own soon)
            ∙ published-row now later token es1 e own soon
            ∙ ap some (published-literal now later token e);
      }))
