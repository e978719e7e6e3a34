-- ===== src/Notifications/Process.antt =====
-- The queue under `process_job` of services/notifications/src/store.rs.
use parallax_telemetry_playg.Prelude.{
  ℕ, ◌≡◌, refl, inl, inr, Bool, true, ◌||◌, Option, none, some, ◌∷◌, Text, codes, Bool-cases,
  All-imp, text_eq, text_Eq, text_eq_refl, Result, ok, err, Ensures, Ensures-ok, Ensures-err,
  Ensures-if, Ensures-bind, Ensures-ensure,
}
use parallax_telemetry_playg.Table.{find}
use parallax_telemetry_playg.Notifications.Schema.{
  scoped_Eq, Message, message_id, Db, Carrier, Json, Config,
}
use parallax_telemetry_playg.Notifications.Progress.{Pointwise-refl, Progress, Progress-refl}
use parallax_telemetry_playg.Notifications.Invariant.{Sane, has_message, message-Sane}
use parallax_telemetry_playg.Notifications.Advance.{
  Valid, Advance, Advance-refl, Advance-trans, Advance-rows,
}
use parallax_telemetry_playg.Notifications.Outcomes.{
  delivered-Advance, failed-Advance, quarantined-Advance,
}
use parallax_telemetry_playg.Notifications.Claim.{DeliveryJob}
use parallax_telemetry_playg.Notifications.Marks.{dead_letter_invalid_propagation}
use parallax_telemetry_playg.Notifications.Channel.{require_channel_endpoint}
use parallax_telemetry_playg.Notifications.Worker.{
  Exchange, context, message_of, keep_message, persist_channel_message, dispatch_external,
  dispatch_notification, settle, finish, process_job, acknowledgement_of, is_success,
}

module _ {J : Type 0} where
  -- The tables advance, and the message of the job is there.
  pub record Sent (job : DeliveryJob J) (db db' : Db J) : Type 0 where
    pub advance : Advance db db'
    pub there : has_message db'.messages job.id ≡ true

  keep_message-Sent :
      (job : DeliveryJob J) (m : Message J) (o : Option (Message J)) (db : Db J)
      → m.delivery_id ≡ job.id
      → find message_id job.id db.messages ≡ o
      → Valid db
      → Sent job db (keep_message m o db)
  unfolding keep_message find
  keep_message-Sent job m none db same e v = record {
    advance = Advance-rows db _ v (Pointwise-refl Progress Progress-refl db.deliveries) (
        All-imp (Sane db.messages) (Sane (m ∷ db.messages)) (message-Sane m db.messages)
          db.deliveries v.sane);
    there = rw same (rw (text_eq_refl job.id) refl);
  }
  keep_message-Sent job m (some old) db same e v = record {
    advance = Advance-refl db v;
    there = rw e refl;
  }

  persist-Sent :
      (x : Exchange) (now : ℕ) (job : DeliveryJob J) (ack : Text) (db : Db J)
      → Valid db
      → Ensures (Sent job db) (persist_channel_message x now job ack db)
  unfolding persist_channel_message message_of
  persist-Sent x now job ack db v =
      Ensures-ensure x.takes_message _ _
        λ up. Ensures-ok _ (keep_message-Sent job (message_of now job ack) _ db refl refl v)

  context-Ensures :
      (P : Db J → Type 0) (c : Text) (r : Result Text (Db J))
      → Ensures P r
      → Ensures P (context c r)
  context-Ensures P c (ok a) h = h
  context-Ensures P c (err e) h = Ensures-err c

module _ {J : Type 0} (json : Json J) (encodes : Text → Bool) (config : Config) (x : Exchange)
    (now : ℕ) (job : DeliveryJob J) (db : Db J) (v : Valid db) where
  external-Sent : Ensures (Sent job db) (dispatch_external json encodes config x now job db)
  unfolding dispatch_external
  external-Sent =
      Ensures-bind (require_channel_endpoint json job.channel job.payload config) _ λ endpoint _.
        Ensures-ensure (encodes job.tenant_id) _ _ λ _. Ensures-ensure (encodes job.id) _ _ λ _.
          Ensures-bind
            (context (codes "dispatch notification channel request") (x.send endpoint.url)) _
            λ response _. Ensures-ensure (is_success response.code) _ _ λ _.
              context-Ensures (Sent job db) _ _
                (persist-Sent x now job (acknowledgement_of response) db v)

  -- A dispatch that succeeds has persisted the message.
  dispatch-Sent : Ensures (Sent job db) (dispatch_notification json encodes config x now job db)
  unfolding dispatch_notification
  dispatch-Sent =
      Ensures-if (text_eq job.channel (codes "in_app")) _ _
        (λ _. context-Ensures (Sent job db) _ _ (persist-Sent x now job _ db v))
        (λ _.
          Ensures-if (text_eq job.channel (codes "webhook") || text_eq job.channel (codes "email"))
            _ _ (λ _. external-Sent) (λ _. Ensures-err _))

module _ {J : Type 0} (json : Json J) where
  settle-Advance :
      (x : Exchange) (r : Result Text (Db J)) (db : Db J)
      → Valid db
      → Ensures (Advance db) r
      → Advance db (settle x r db)
  settle-Advance x (ok db') db v h = elim (Bool-cases x.takes_mark) [
    | inl up ↦ rw up (h.at db' refl)
    | inr down ↦ rw down (Advance-refl db v)
  ]
  settle-Advance x (err e) db v h = Advance-refl db v

  finish-Advance :
      (x : Exchange) (now : ℕ) (job : DeliveryJob J) (r : Result Text (Db J)) (db : Db J)
      → Valid db
      → Ensures (Sent job db) r
      → Advance db (finish x now job r db)
  unfolding finish
  finish-Advance x now job (ok db') db v h =
      let sent = h.at db' refl in
      let valid = sent.advance.valid in
      Advance-trans db db' _ sent.advance
        (settle-Advance x _ db' valid (delivered-Advance now job db' valid sent.there))
  finish-Advance x now job (err e) db v h = settle-Advance x _ db v (failed-Advance now job e db v)

  verdict-Advance :
      (encodes : Text → Bool) (config : Config) (x : Exchange) (now : ℕ) (job : DeliveryJob J)
      (db : Db J) (verdict : Result Text (Unit {0}))
      → Valid db
      → Advance db (elim verdict [
        | err e ↦ settle x (dead_letter_invalid_propagation now job e db) db
        | ok u ↦ finish x now job (dispatch_notification json encodes config x now job db) db
      ])
  verdict-Advance encodes config x now job db (ok u) v =
      finish-Advance x now job _ db v (dispatch-Sent json encodes config x now job db v)
  verdict-Advance encodes config x now job db (err e) v =
      settle-Advance x _ db v (quarantined-Advance now job e db v)

  -- Whatever the job, however stale, and whatever fails on the way, a worker that processes it
  -- keeps the queue in order and only advances its deliveries.
  pub process_job-Advance :
      (headers : Carrier → Result Text (Unit {0})) (encodes : Text → Bool) (config : Config)
      (x : Exchange) (now : ℕ) (job : DeliveryJob J) (db : Db J)
      → Valid db
      → Advance db (process_job json headers encodes config x now job db)
  unfolding process_job
  process_job-Advance headers encodes config x now job db v =
      verdict-Advance encodes config x now job db (headers job.carrier) v
