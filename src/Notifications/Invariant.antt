-- ===== src/Notifications/Invariant.antt =====
-- The rows of the notification queue, under the updates of services/notifications/src/store.rs.
use parallax_telemetry_playg.Prelude.{
  ℕ, ◌≡◌, ◌≤◌, ◌<◌, refl, subst, Bool, true, false, not, ◌&&◌, Option, none, some, List, [], ◌∷◌,
  Text, All, All-keep, All-both, keep-passes, sort_by-All, arith, text_Eq, keep,
}
use parallax_telemetry_playg.Table.{find, Distinct, Distinct-find}
use parallax_telemetry_playg.Notifications.Schema.{
  DeliveryStatus, is_processing, delivered, Delivery, delivery_id, Message, message_id,
  max_attempts,
}
use parallax_telemetry_playg.Notifications.Progress.{Progress}
use parallax_telemetry_playg.Notifications.Claim.{
  DeliveryJob, is_claimable, by_turn, candidate, first, lease, is_exhausted, exhaust,
}
use parallax_telemetry_playg.Notifications.Marks.{has_lease, deliver, bury, requeue}
use parallax_telemetry_playg.Notifications.Enqueue.{touch}

abbrev pub is_some {ℓ} : {A : Type ℓ} → Option A → Bool
is_some none = false
is_some (some a) = true

abbrev pub is_delivered : DeliveryStatus → Bool
is_delivered delivered = true
is_delivered _ = false

module _ {J : Type 0} where
  -- There is a persisted message of the delivery.
  abbrev pub has_message : List (Message J) → Text → Bool
  has_message messages id = is_some (find message_id id messages)

  -- A delivery has been attempted four times at most; it has a lease, of a token and a time,
  -- exactly while it is processing, and then it has been attempted; and if it is delivered then
  -- its message is persisted and acknowledged.
  pub record Sane (messages : List (Message J)) (d : Delivery J) : Type 0 where
    pub bounded : d.attempts ≤ max_attempts
    pub has_token : is_some d.lease_token ≡ is_processing d.status
    pub has_until : is_some d.lease_until ≡ is_processing d.status
    pub attempted : is_processing d.status ≡ true → 0 < d.attempts
    pub sent : is_delivered d.status ≡ true → has_message messages d.id ≡ true
    pub acknowledged : is_delivered d.status ≡ true → is_some d.acknowledged_at ≡ true

  module _ (ms : List (Message J)) (d : Delivery J) (v : Sane ms d) where
    pub touch-Sane : (now : ℕ) → Sane ms (touch now d)
    unfolding touch
    touch-Sane now = record {
      bounded = v.bounded;
      has_token = v.has_token;
      has_until = v.has_until;
      attempted = v.attempted;
      sent = v.sent;
      acknowledged = v.acknowledged;
    }

    pub lease-Sane :
        (now : ℕ) (token : Text) → is_claimable now d ≡ true → Sane ms (lease now token d)
    unfolding lease is_claimable
    lease-Sane now token turn = record {
      bounded = ground arith;
      has_token = refl;
      has_until = refl;
      attempted = λ p. omega arith;
      sent = λ p. absurd (cc);
      acknowledged = λ p. absurd (cc);
    }

    pub exhaust-Sane : (now : ℕ) → Sane ms (exhaust now d)
    unfolding exhaust
    exhaust-Sane now = record {
      bounded = v.bounded;
      has_token = refl;
      has_until = refl;
      attempted = λ p. absurd (cc);
      sent = λ p. absurd (cc);
      acknowledged = λ p. absurd (cc);
    }

    pub deliver-Sane : (now : ℕ) → has_message ms d.id ≡ true → Sane ms (deliver now d)
    unfolding deliver
    deliver-Sane now there = record {
      bounded = v.bounded;
      has_token = refl;
      has_until = refl;
      attempted = λ p. absurd (cc);
      sent = λ p. there;
      acknowledged = λ p. refl;
    }

    pub bury-Sane : (now : ℕ) (error : Text) → Sane ms (bury now error d)
    unfolding bury
    bury-Sane now error = record {
      bounded = v.bounded;
      has_token = refl;
      has_until = refl;
      attempted = λ p. absurd (cc);
      sent = λ p. absurd (cc);
      acknowledged = λ p. absurd (cc);
    }

    pub requeue-Sane : (now seconds : ℕ) (error : Text) → Sane ms (requeue now seconds error d)
    unfolding requeue
    requeue-Sane now seconds error = record {
      bounded = v.bounded;
      has_token = refl;
      has_until = refl;
      attempted = λ p. absurd (cc);
      sent = λ p. absurd (cc);
      acknowledged = λ p. absurd (cc);
    }

  -- More messages do no harm.
  pub message-Sane :
      (m : Message J) (ms : List (Message J)) (d : Delivery J) → Sane ms d → Sane (m ∷ ms) d
  unfolding find
  message-Sane m ms d v = record {
    bounded = v.bounded;
    has_token = v.has_token;
    has_until = v.has_until;
    attempted = v.attempted;
    sent = λ p. ground (arith, v.sent p);
    acknowledged = v.acknowledged;
  }

  -- The updates leave a settled delivery alone.
  module _ (d : Delivery J) where
    pub touch-Progress : (now : ℕ) → Progress d (touch now d)
    unfolding touch
    touch-Progress now = record {
      same_id = refl;
      same_tenant = refl;
      same_event = refl;
      same_order = refl;
      same_channel = refl;
      same_payload = refl;
      attempts_grow = omega arith;
      settled_status = λ t. refl;
      settled_attempts = λ t. refl;
    }

    pub lease-Progress :
        (now : ℕ) (token : Text) → is_claimable now d ≡ true → Progress d (lease now token d)
    unfolding lease is_claimable
    lease-Progress now token turn = record {
      same_id = refl;
      same_tenant = refl;
      same_event = refl;
      same_order = refl;
      same_channel = refl;
      same_payload = refl;
      attempts_grow = omega arith;
      settled_status = λ t. absurd (ground arith);
      settled_attempts = λ t. absurd (ground arith);
    }

    pub exhaust-Progress : (now : ℕ) → is_exhausted now d ≡ true → Progress d (exhaust now d)
    unfolding exhaust is_exhausted
    exhaust-Progress now over = record {
      same_id = refl;
      same_tenant = refl;
      same_event = refl;
      same_order = refl;
      same_channel = refl;
      same_payload = refl;
      attempts_grow = omega arith;
      settled_status = λ t. absurd (ground arith);
      settled_attempts = λ t. refl;
    }

  -- A mark under a lease rewrites a delivery that is processing.
  module _ (job : DeliveryJob J) (d : Delivery J) (leased : has_lease job d ≡ true) where
    pub deliver-Progress : (now : ℕ) → Progress d (deliver now d)
    unfolding deliver has_lease
    deliver-Progress now = record {
      same_id = refl;
      same_tenant = refl;
      same_event = refl;
      same_order = refl;
      same_channel = refl;
      same_payload = refl;
      attempts_grow = omega arith;
      settled_status = λ t. absurd (ground arith);
      settled_attempts = λ t. refl;
    }

    pub bury-Progress : (now : ℕ) (error : Text) → Progress d (bury now error d)
    unfolding bury has_lease
    bury-Progress now error = record {
      same_id = refl;
      same_tenant = refl;
      same_event = refl;
      same_order = refl;
      same_channel = refl;
      same_payload = refl;
      attempts_grow = omega arith;
      settled_status = λ t. absurd (ground arith);
      settled_attempts = λ t. refl;
    }

    pub requeue-Progress :
        (now seconds : ℕ) (error : Text) → Progress d (requeue now seconds error d)
    unfolding requeue has_lease
    requeue-Progress now seconds error = record {
      same_id = refl;
      same_tenant = refl;
      same_event = refl;
      same_order = refl;
      same_channel = refl;
      same_payload = refl;
      attempts_grow = omega arith;
      settled_status = λ t. absurd (ground arith);
      settled_attempts = λ t. refl;
    }

  first-All {κ} :
      (P : Delivery J → Type κ) (ds : List (Delivery J)) {d : Delivery J}
      → All P ds
      → first ds ≡ some d
      → P d
  first-All P [] h e = absurd (cc)
  first-All P (x ∷ ds) h e = subst P (cc) h.0

  -- The delivery that the candidate query picks is the row of its identity, may be claimed, and
  -- is not locked.
  pub candidate-inv :
      (collate : Text → Text → Bool) (locked : Text → Bool) (now : ℕ) (ds : List (Delivery J))
      {d : Delivery J}
      → Distinct delivery_id ds
      → candidate collate locked now ds ≡ some d
      → (find delivery_id d.id ds ≡ some d) × (is_claimable now d ≡ true) × (locked d.id ≡ false)
  unfolding candidate
  candidate-inv collate locked now ds {d} distinct e =
      let p : Delivery J → Bool = λ x. is_claimable now x && not (locked x.id) in
      let own =
        All-keep (λ x. find delivery_id x.id ds ≡ some x) p ds
          (Distinct-find delivery_id ds distinct) in
      let picked =
        first-All (λ x. (find delivery_id x.id ds ≡ some x) × (p x ≡ true)) _
          (sort_by-All (by_turn collate) _ _ (All-both _ _ (keep p ds) own (keep-passes p ds))) e in
      (picked.0, ground (arith, picked.1), ground (arith, picked.1))
