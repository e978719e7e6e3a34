-- ===== src/Checkout/Lifecycle.antt =====
-- The life of an outbox event, as the publisher of services/checkout/src/infrastructure.rs
-- promises it.
use parallax_telemetry_playg.Prelude.{ℕ, ◌+◌, ◌<◌, ◌≤◌}
use parallax_telemetry_playg.Checkout.Outbox.{
  outbox_max_attempts, OutboxStatus, queued, processing, published, failed, OutboxEvent,
}

-- Where an event is: it waits or is being sent, after some attempts, or it is done.
pub data Phase : Type 0 where
  waiting sending : ℕ → Phase
  sent dead : Phase

-- An event is sent at most three times; only an event that is being sent is sent for good, waits
-- again or is given up; and one that has used its attempts is given up.
pub data Next : Phase → Phase → Type 0 where
  take : (n : ℕ) → n < outbox_max_attempts → Next (waiting n) (sending (n + 1))
  retake : (n : ℕ) → n < outbox_max_attempts → Next (sending n) (sending (n + 1))
  confirm : (n : ℕ) → Next (sending n) sent
  retry : (n : ℕ) → Next (sending n) (waiting n)
  give_up : (n : ℕ) → Next (sending n) dead
  expire : (n : ℕ) → outbox_max_attempts ≤ n → Next (waiting n) dead

-- Any number of steps.
pub data Steps : Phase → Phase → Type 0 where
  here : (p : Phase) → Steps p p
  further : (p q r : Phase) → Next p q → Steps q r → Steps p r

pub Steps-trans : (p q r : Phase) → Steps p q → Steps q r → Steps p r
Steps-trans _ q r (here p) h = h
Steps-trans p q r (further _ m _ n s) h = further p m r n (Steps-trans m q r s h)

abbrev pub phase_of : OutboxStatus → ℕ → Phase
phase_of queued n = waiting n
phase_of processing n = sending n
phase_of published n = sent
phase_of failed n = dead

abbrev pub phase : OutboxEvent → Phase
phase e = phase_of e.status e.attempts
