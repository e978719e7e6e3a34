-- ===== src/Notifications/Leases.antt =====
-- Workers of services/notifications/src/store.rs whose lease has gone.
use parallax_telemetry_playg.Prelude.{
  ℕ, ◌≡◌, refl, sym, subst, inl, inr, Bool, false, ◌||◌, Option, none, some, Text, codes,
  Bool-cases, Result, ok, err, Ensures, Ensures-ok, Ensures-err, Ensures-if, Ensures-bind,
  Ensures-ensure, text_eq, text_Eq, leb,
}
use parallax_telemetry_playg.Table.{find, update_refused}
use parallax_telemetry_playg.Notifications.Schema.{
  Delivery, delivery_id, Message, Attempt, Db, Carrier, Json, Config, max_attempts,
}
use parallax_telemetry_playg.Notifications.Channel.{require_channel_endpoint}
use parallax_telemetry_playg.Notifications.Claim.{DeliveryJob}
use parallax_telemetry_playg.Notifications.Marks.{
  has_lease, mark, mark_delivered, mark_failed_or_dead_letter, dead_letter_invalid_propagation,
}
use parallax_telemetry_playg.Notifications.Worker.{
  Exchange, context, keep_message, persist_channel_message, dispatch_external,
  dispatch_notification, settle, finish, process_job, acknowledgement_of, is_success,
}

-- Only the messages differ.
pub record SameQueue {J : Type 0} (db db' : Db J) : Type 0 where
  pub deliveries : db'.deliveries ≡ db.deliveries
  pub attempts : db'.attempts ≡ db.attempts

module _ {J : Type 0} where
  SameQueue-refl : (db : Db J) → SameQueue db db
  SameQueue-refl db = record { deliveries = refl; attempts = refl }

  keep_message-SameQueue :
      (m : Message J) (o : Option (Message J)) (db : Db J) → SameQueue db (keep_message m o db)
  unfolding keep_message
  keep_message-SameQueue m none db = record { deliveries = refl; attempts = refl }
  keep_message-SameQueue m (some old) db = SameQueue-refl db

  persist-SameQueue :
      (x : Exchange) (now : ℕ) (job : DeliveryJob J) (ack : Text) (db : Db J)
      → Ensures (SameQueue db) (persist_channel_message x now job ack db)
  unfolding persist_channel_message
  persist-SameQueue x now job ack db =
      Ensures-ensure x.takes_message _ _ λ up. Ensures-ok _ (keep_message-SameQueue _ _ db)

  context-Keeps :
      (P : Db J → Type 0) (c : Text) (r : Result Text (Db J))
      → Ensures P r
      → Ensures P (context c r)
  context-Keeps P c (ok a) h = h
  context-Keeps P c (err e) h = Ensures-err c

module _ {J : Type 0} (json : Json J) (encodes : Text → Bool) (config : Config) (x : Exchange)
    (now : ℕ) (job : DeliveryJob J) (db : Db J) where
  external-SameQueue : Ensures (SameQueue db) (dispatch_external json encodes config x now job db)
  unfolding dispatch_external
  external-SameQueue =
      Ensures-bind (require_channel_endpoint json job.channel job.payload config) _ λ endpoint _.
        Ensures-ensure (encodes job.tenant_id) _ _ λ _. Ensures-ensure (encodes job.id) _ _ λ _.
          Ensures-bind
            (context (codes "dispatch notification channel request") (x.send endpoint.url)) _
            λ response _. Ensures-ensure (is_success response.code) _ _ λ _.
              context-Keeps (SameQueue db) _ _
                (persist-SameQueue x now job (acknowledgement_of response) db)

  dispatch-SameQueue :
      Ensures (SameQueue db) (dispatch_notification json encodes config x now job db)
  unfolding dispatch_notification
  dispatch-SameQueue =
      Ensures-if (text_eq job.channel (codes "in_app")) _ _
        (λ _. context-Keeps (SameQueue db) _ _ (persist-SameQueue x now job _ db))
        (λ _.
          Ensures-if (text_eq job.channel (codes "webhook") || text_eq job.channel (codes "email"))
            _ _ (λ _. external-SameQueue) (λ _. Ensures-err _))

-- A job whose row has no lease of its token.
module _ {J : Type 0} (job : DeliveryJob J) (d : Delivery J) (lost : has_lease job d ≡ false) where
  mark-lost :
      (f : Delivery J → Delivery J) (g : Attempt → Attempt) (e : Text) (db : Db J)
      → find delivery_id job.id db.deliveries ≡ some d
      → mark job f g e db ≡ err e
  unfolding mark
  mark-lost f g e db row =
      rw (update_refused delivery_id job.id (has_lease job) f db.deliveries d row lost) refl

  settle-lost :
      (x : Exchange) (f : Delivery J → Delivery J) (g : Attempt → Attempt) (e : Text) (db : Db J)
      → find delivery_id job.id db.deliveries ≡ some d
      → settle x (mark job f g e db) db ≡ db
  settle-lost x f g e db row = rw (mark-lost f g e db row) refl

  failed-lost :
      (x : Exchange) (now : ℕ) (error : Text) (db : Db J)
      → find delivery_id job.id db.deliveries ≡ some d
      → settle x (mark_failed_or_dead_letter now job error db) db ≡ db
  unfolding mark_failed_or_dead_letter
  failed-lost x now error db row = elim (Bool-cases (leb max_attempts job.attempt)) [
    | inl last ↦ rw last (settle-lost x _ _ _ db row)
    | inr more ↦ rw more (settle-lost x _ _ _ db row)
  ]

  finish-lost :
      (x : Exchange) (now : ℕ) (r : Result Text (Db J)) (db : Db J)
      → find delivery_id job.id db.deliveries ≡ some d
      → Ensures (SameQueue db) r
      → SameQueue db (finish x now job r db)
  unfolding finish mark_delivered
  finish-lost x now (ok db') db row h =
      let same = h.at db' refl in
      let row' : find delivery_id job.id db'.deliveries ≡ some d = rw same.deliveries row in
      subst (SameQueue db) (sym (settle-lost x _ _ _ db' row')) same
  finish-lost x now (err e) db row h =
      subst (SameQueue db) (sym (failed-lost x now e db row)) (SameQueue-refl db)

  -- A worker that carries out a job after its lease was lost, because the delivery has been
  -- settled, put back, or claimed again under another token, changes neither the deliveries nor
  -- the attempts, however the exchange and the verdict on the headers turn out.
  pub process_job-lost :
      (json : Json J) (headers : Carrier → Result Text (Unit {0})) (encodes : Text → Bool)
      (config : Config) (x : Exchange) (now : ℕ) (db : Db J)
      → find delivery_id job.id db.deliveries ≡ some d
      → SameQueue db (process_job json headers encodes config x now job db)
  unfolding process_job
  process_job-lost json headers encodes config x now db row = verdict (headers job.carrier)
    where
      verdict :
          (v : Result Text (Unit {0}))
          → SameQueue db (elim v [
            | err e ↦ settle x (dead_letter_invalid_propagation now job e db) db
            | ok u ↦ finish x now job (dispatch_notification json encodes config x now job db) db
          ])
      verdict (ok u) =
          finish-lost x now _ db row (dispatch-SameQueue json encodes config x now job db)
      verdict (err e) =
          unfold dead_letter_invalid_propagation in
          subst (SameQueue db) (sym (settle-lost x _ _ _ db row)) (SameQueue-refl db)
