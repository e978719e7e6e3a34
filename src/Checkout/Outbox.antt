-- ===== src/Checkout/Outbox.antt =====
-- The outbox of the checkout service: `claim_outbox_event` and `publish_one_outbox` of
-- services/checkout/src/infrastructure.rs. Times count microseconds.
use parallax_telemetry_playg.Prelude.{
  ℕ, ◌+◌, ◌*◌, min, Bool, true, false, not, ◌&&◌, ◌||◌, Option, none, some, List, [], ◌∷◌, Text,
  codes, text_eq, text_Eq, is_text, ltb, leb, keep, map, sort_by, take_chars, ok, err,
  if◌then◌else◌,
}
use parallax_telemetry_playg.Table.{update, alter}
use parallax_telemetry_playg.Checkout.Errors.{ApiError, api_error, ApiResult}

abbrev pub outbox_max_attempts : ℕ
outbox_max_attempts = 3

-- Thirty seconds.
abbrev pub outbox_lease : ℕ
outbox_lease = 30 * 1000000

abbrev pub outbox_retry_base_seconds : ℕ
outbox_retry_base_seconds = 2

abbrev pub outbox_error_limit : ℕ
outbox_error_limit = 1000

-- The statuses that the constraint of the column allows.
pub data OutboxStatus : Type 0 where
  queued processing published failed : OutboxStatus

-- A row of `outbox_events`.
pub record OutboxEvent : Type 0 where
  pub id : Text
  pub tenant_id : Text
  pub event_key : Text
  pub aggregate_type : Text
  pub aggregate_id : Text
  pub event_type : Text
  pub schema_version : ℕ
  pub occurred_at : Text
  pub payload : Text
  pub traceparent : Option Text
  pub tracestate : Option Text
  pub baggage : Option Text
  pub status : OutboxStatus
  pub attempts : ℕ
  pub available_at : ℕ
  pub published_at : Option ℕ
  pub created_at : ℕ
  pub failure_code : Option Text
  pub failure_message : Option Text
  pub failed_at : Option ℕ
  pub claim_token : Option Text
  pub claim_expires_at : Option ℕ

abbrev pub event_id : OutboxEvent → Text
event_id e = e.id

abbrev pub is_queued : OutboxStatus → Bool
is_queued queued = true
is_queued _ = false

abbrev pub is_processing : OutboxStatus → Bool
is_processing processing = true
is_processing _ = false

-- `claim_expires_at <= CURRENT_TIMESTAMP` and `claim_expires_at > CURRENT_TIMESTAMP`, neither of
-- which is true of a NULL.
abbrev pub has_expired : Option ℕ → ℕ → Bool
has_expired none now = false
has_expired (some t) now = leb t now

abbrev pub is_live : Option ℕ → ℕ → Bool
is_live none now = false
is_live (some t) now = ltb now t

abbrev pub coalesce {ℓ} : {A : Type ℓ} → Option A → A → Option A
coalesce none a = some a
coalesce (some b) a = some b

-- The WHERE clause of the first statement of `claim_outbox_event`.
unfoldable pub is_exhausted : ℕ → OutboxEvent → Bool
is_exhausted now e =
    leb outbox_max_attempts e.attempts
    && (is_queued e.status || (is_processing e.status && has_expired e.claim_expires_at now))

unfoldable pub exhaust : ℕ → OutboxEvent → OutboxEvent
exhaust now e = record e {
  status = failed;
  failure_code = coalesce e.failure_code (codes "publish_retry_exhausted");
  failure_message = coalesce e.failure_message (codes "outbox publish retry budget exhausted");
  failed_at = coalesce e.failed_at now;
  claim_token = none;
  claim_expires_at = none;
}

abbrev pub exhaust_if : ℕ → OutboxEvent → OutboxEvent
exhaust_if now e = if is_exhausted now e then exhaust now e else e

-- The WHERE clause of the candidate query.
unfoldable pub is_claimable : ℕ → OutboxEvent → Bool
is_claimable now e =
    ltb e.attempts outbox_max_attempts
    && ((is_queued e.status && leb e.available_at now)
        || (is_processing e.status && has_expired e.claim_expires_at now))

abbrev pub first : List OutboxEvent → Option OutboxEvent
first [] = none
first (e ∷ es) = some e

-- `ORDER BY created_at FOR UPDATE SKIP LOCKED LIMIT 1`.
unfoldable pub candidate : (Text → Bool) → ℕ → List OutboxEvent → Option OutboxEvent
unfolding is_claimable
candidate locked now es = first (
    sort_by (λ a b. leb a.created_at b.created_at)
      (keep (λ e. is_claimable now e && not (locked e.id)) es))

unfoldable pub claim : ℕ → Text → OutboxEvent → OutboxEvent
claim now token e = record e {
  status = processing;
  attempts = e.attempts + 1;
  available_at = now + outbox_lease;
  claim_token = some token;
  claim_expires_at = some (now + outbox_lease);
}

unfoldable pub claim_candidate :
    ℕ → Text → List OutboxEvent → Option OutboxEvent → Option OutboxEvent × List OutboxEvent
unfolding claim
claim_candidate now token es none = (none, es)
claim_candidate now token es (some e) =
    (some (claim now token e), alter event_id e.id (claim now token) es)

-- The statements run in one transaction; the event is returned as they leave it.
unfoldable pub claim_outbox_event :
    (Text → Bool) → ℕ → Text → List OutboxEvent → Option OutboxEvent × List OutboxEvent
unfolding exhaust is_exhausted candidate claim_candidate
claim_outbox_event locked now token es0 =
    let es = map (exhaust_if now) es0 in claim_candidate now token es (candidate locked now es)

-- `status='processing' AND claim_token=$2 AND claim_expires_at > CURRENT_TIMESTAMP`.
unfoldable pub holds_claim : ℕ → Option Text → OutboxEvent → Bool
holds_claim now none e = false
holds_claim now (some token) e =
    is_processing e.status && is_text e.claim_token token && is_live e.claim_expires_at now

unfoldable pub publish : ℕ → OutboxEvent → OutboxEvent
publish now e = record e {
  status = published;
  published_at = some now;
  failure_code = none;
  failure_message = none;
  failed_at = none;
  claim_token = none;
  claim_expires_at = none;
}

unfoldable pub is_transient_outbox_error : Text → Bool
is_transient_outbox_error error_code =
    text_eq error_code (codes "messaging_unavailable")
    || text_eq error_code (codes "messaging_timeout")
    || text_eq error_code (codes "messaging_rejected")

unfoldable pub outbox_failure_status : ℕ → Text → OutboxStatus
unfolding is_transient_outbox_error
outbox_failure_status attempts error_code =
    if not (is_transient_outbox_error error_code) || leb outbox_max_attempts attempts
    then failed
    else queued

-- `saturating_mul` in i32, then `clamp(1, 30)`.
unfoldable pub outbox_retry_delay : ℕ → ℕ
outbox_retry_delay attempts =
    let delay = min (attempts * outbox_retry_base_seconds) 2147483647 in
    if ltb delay 1 then 1 else if ltb 30 delay then 30 else delay

unfoldable pub bounded_outbox_error : Text → Text
bounded_outbox_error message = take_chars outbox_error_limit message

-- The failure statement, by the status that it sets.
unfoldable pub classify : ℕ → ℕ → ApiError → OutboxStatus → OutboxEvent → OutboxEvent
unfolding outbox_retry_delay bounded_outbox_error
classify now attempts error next_status e = record e {
  status = next_status;
  available_at = if is_queued next_status then now + outbox_retry_delay attempts * 1000000 else now;
  failure_code = some error.code;
  failure_message = some (bounded_outbox_error error.message);
  failed_at = elim next_status [ failed ↦ some now | _ ↦ none ];
  claim_token = none;
  claim_expires_at = none;
}

-- Exactly one row has to be updated.
abbrev pub settled :
    ApiResult Bool
    → ApiError
    → List OutboxEvent
    → Option (OutboxEvent × List OutboxEvent)
    → ApiResult Bool × List OutboxEvent
settled answer conflict es none = (err conflict, es)
settled answer conflict es (some (e, es')) = (answer, es')

-- The mark after the message was published, or was not.
unfoldable pub settle :
    ℕ → OutboxEvent → ApiResult (Unit {0}) → List OutboxEvent → ApiResult Bool × List OutboxEvent
unfolding holds_claim publish classify outbox_failure_status
settle now event (ok u) es =
    settled (ok true)
      (api_error 500 "outbox_state_conflict" "confirmed outbox event could not be marked published")
      es (update event_id event.id (holds_claim now event.claim_token) (publish now) es)
settle now event (err error) es =
    settled (err error)
      (api_error 500 "outbox_state_conflict" "failed outbox event could not be durably classified")
      es
      (update event_id event.id (holds_claim now event.claim_token)
        (classify now event.attempts error (outbox_failure_status event.attempts error.code)) es)

-- `publish_one_outbox`, when the database answers: the claim at one time, the mark at a later one,
-- and between them `send`, which is `publish_outbox_message`.
unfoldable pub settle_claim :
    ℕ
    → (OutboxEvent → ApiResult (Unit {0}))
    → Option OutboxEvent × List OutboxEvent
    → ApiResult Bool × List OutboxEvent
unfolding settle
settle_claim later send (none, es) = (ok false, es)
settle_claim later send (some event, es) = settle later event (send event) es

unfoldable pub publish_one_outbox :
    (Text → Bool)
    → ℕ
    → ℕ
    → Text
    → (OutboxEvent → ApiResult (Unit {0}))
    → List OutboxEvent
    → ApiResult Bool × List OutboxEvent
unfolding claim_outbox_event settle_claim
publish_one_outbox locked now later token send es =
    settle_claim later send (claim_outbox_event locked now token es)

-- What a turn of the publisher meets: the rows that others lock, the times of the claim and of the
-- mark, the fresh token, and what becomes of a message.
pub record Turn : Type 0 where
  pub locked : Text → Bool
  pub now : ℕ
  pub later : ℕ
  pub token : Text
  pub send : OutboxEvent → ApiResult (Unit {0})

unfoldable pub take_turn : Turn → List OutboxEvent → List OutboxEvent
unfolding publish_one_outbox
take_turn t es = (publish_one_outbox t.locked t.now t.later t.token t.send es).1

-- The loop of `spawn_outbox_publisher`, which goes on after an error.
unfoldable pub run_publisher : List Turn → List OutboxEvent → List OutboxEvent
unfolding take_turn
run_publisher [] es = es
run_publisher (t ∷ ts) es = run_publisher ts (take_turn t es)
