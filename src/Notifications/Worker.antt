-- ===== src/Notifications/Worker.antt =====
-- How the worker carries out a job: `dispatch_notification`, `persist_channel_message`,
-- `process_job` and the rounds of `run_delivery_worker` of services/notifications/src/store.rs.
use parallax_telemetry_playg.Prelude.{
  ℕ, Bool, ◌&&◌, ◌||◌, Option, none, some, ◌∷◌, ◌++◌, Text, codes, text_eq, text_Eq, trim, is_empty,
  leb, Result, ok, err, ◌>>=◌, ◌>>◌, ensure, if◌then◌else◌,
}
use parallax_telemetry_playg.Table.{find}
use parallax_telemetry_playg.Notifications.Schema.{Carrier, Message, Db, message_id, Json, Config}
use parallax_telemetry_playg.Notifications.Channel.{require_channel_endpoint}
use parallax_telemetry_playg.Notifications.Claim.{DeliveryJob, claim_next, reclaim_exhausted}
use parallax_telemetry_playg.Notifications.Marks.{
  mark_delivered, mark_failed_or_dead_letter, dead_letter_invalid_propagation,
}

-- What an endpoint answers: the status, as a number and as it is shown, and `x-ack-id` if that is
-- text.
pub record Response : Type 0 where
  pub code : ℕ
  pub shown : Text
  pub ack_id : Option Text

-- `StatusCode::is_success`.
abbrev pub is_success : ℕ → Bool
is_success code = leb 200 code && leb code 299

-- `filter(|value| !value.trim().is_empty())…unwrap_or_else(…)`.
unfoldable pub acknowledgement_of : Response → Text
acknowledgement_of r = elim r.ack_id [
  | none ↦ codes "http-" ++ r.shown
  | some ack ↦ if is_empty (trim ack) then codes "http-" ++ r.shown else ack
]

-- What the surroundings do while a job is processed: the exchange with the endpoint, as it ends
-- for each URL, and whether the database takes the message and the mark.
pub record Exchange : Type 0 where
  pub send : Text → Result Text Response
  pub takes_message : Bool
  pub takes_mark : Bool

-- `.context(c)`: `to_string` of an `anyhow::Error` shows the context alone.
abbrev pub context {ℓ} : {A : Type ℓ} → Text → Result Text A → Result Text A
context c (ok a) = ok a
context c (err e) = err c

module _ {J : Type 0} where
  unfoldable pub message_of : ℕ → DeliveryJob J → Text → Message J
  message_of now job acknowledgement = record {
    delivery_id = job.id;
    tenant_id = job.tenant_id;
    order_id = job.order_id;
    channel = job.channel;
    payload = job.payload;
    acknowledged_at = now;
    acknowledgement_reference = acknowledgement;
  }

  -- `ON CONFLICT (delivery_id) DO UPDATE` keeps the message as it is.
  unfoldable pub keep_message : Message J → Option (Message J) → Db J → Db J
  keep_message m none db = record db { messages = m ∷ db.messages }
  keep_message m (some old) db = db

  unfoldable pub persist_channel_message :
      Exchange → ℕ → DeliveryJob J → Text → Db J → Result Text (Db J)
  unfolding message_of keep_message
  persist_channel_message x now job acknowledgement db = do
    ensure x.takes_message (codes "persist notification channel message")
    ok (keep_message (message_of now job acknowledgement) (find message_id job.id db.messages) db)

  -- A mark that fails is logged, and its transaction rolled back.
  abbrev pub settle : Exchange → Result Text (Db J) → Db J → Db J
  settle x (ok db') db = if x.takes_mark then db' else db
  settle x (err e) db = db

  -- The `match result`.
  unfoldable pub finish : Exchange → ℕ → DeliveryJob J → Result Text (Db J) → Db J → Db J
  finish x now job (ok db') db = settle x (mark_delivered now job db') db'
  finish x now job (err e) db = settle x (mark_failed_or_dead_letter now job e db) db

module _ {J : Type 0} (json : Json J) where
  -- `encodes` tells whether a text is a header value.
  unfoldable pub dispatch_external :
      (Text → Bool) → Config → Exchange → ℕ → DeliveryJob J → Db J → Result Text (Db J)
  unfolding persist_channel_message
  dispatch_external encodes config x now job db = do
    endpoint ← require_channel_endpoint json job.channel job.payload config
    ensure (encodes job.tenant_id) (codes "encode notification tenant header")
    ensure (encodes job.id) (codes "encode notification idempotency header")
    response ← context (codes "dispatch notification channel request") (x.send endpoint.url)
    ensure (is_success response.code)
        (codes "notification channel returned HTTP " ++ response.shown)
    context (codes "persist external notification acknowledgement")
        (persist_channel_message x now job (acknowledgement_of response) db)

  unfoldable pub dispatch_notification :
      (Text → Bool) → Config → Exchange → ℕ → DeliveryJob J → Db J → Result Text (Db J)
  unfolding persist_channel_message dispatch_external
  dispatch_notification encodes config x now job db =
      if text_eq job.channel (codes "in_app")
      then context (codes "acknowledge in-app channel")
          (persist_channel_message x now job (codes "in-app") db)
      else if text_eq job.channel (codes "webhook") || text_eq job.channel (codes "email")
      then dispatch_external encodes config x now job db
      else err (codes "unsupported notification channel " ++ job.channel)

  -- `headers` is `job_context_headers`: the verdict on the headers that the delivery keeps.
  unfoldable pub process_job :
      (Carrier → Result Text (Unit {0}))
      → (Text → Bool)
      → Config
      → Exchange
      → ℕ
      → DeliveryJob J
      → Db J
      → Db J
  process_job headers encodes config x now job db = elim (headers job.carrier) [
    | err e ↦ settle x (dead_letter_invalid_propagation now job e db) db
    | ok u ↦ finish x now job (dispatch_notification encodes config x now job db) db
  ]

  unfoldable pub process_claim :
      (Carrier → Result Text (Unit {0}))
      → (Text → Bool)
      → Config
      → Exchange
      → ℕ
      → Option (DeliveryJob J) × Db J
      → Db J
  process_claim headers encodes config x now (none, db) = db
  process_claim headers encodes config x now (some job, db) =
      process_job headers encodes config x now job db

  -- One round of the worker, when the database answers: reclaim, claim, and process the job,
  -- each at its time.
  unfoldable pub worker_round :
      (Carrier → Result Text (Unit {0}))
      → (Text → Bool)
      → Config
      → (Text → Text → Bool)
      → (Text → Bool)
      → Exchange
      → ℕ
      → ℕ
      → ℕ
      → Text
      → Db J
      → Db J
  worker_round headers encodes config collate locked x reclaimed now later token db =
      process_claim headers encodes config x later
        (claim_next collate locked now token (reclaim_exhausted reclaimed db))
