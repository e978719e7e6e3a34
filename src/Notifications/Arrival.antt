-- ===== src/Notifications/Arrival.antt =====
-- The queue under `notify_inner` of services/notifications/src/api.rs and `record_delivery`.
use parallax_telemetry_playg.Prelude.{
  ℕ, ◌≡◌, refl, sym, subst, inl, inr, false, not, ◌||◌, Option, none, some, List, [], ◌∷◌, Text,
  Bool-cases, All, arith, text_eq, text_Eq, text_eq_iff, any, is_empty, trim, Result, ok, err,
}
use parallax_telemetry_playg.Table.{find, All-alter}
use parallax_telemetry_playg.Notifications.Schema.{
  scoped_Eq, Delivery, delivery_id, event_of, Message, Db, Carrier, Json, Config,
}
use parallax_telemetry_playg.Notifications.Progress.{Pointwise-alter, Progress, Progress-refl}
use parallax_telemetry_playg.Notifications.Invariant.{Sane, touch-Sane, touch-Progress}
use parallax_telemetry_playg.Notifications.Advance.{Valid, Advance, Advance-refl, Advance-rows}
use parallax_telemetry_playg.Notifications.Enqueue.{
  NotificationRequest, new_delivery, touch, can_insert, is_channel, upsert_delivery, answer_row,
  insert_delivery, record_for, record_delivery, notify_inner, StoreError,
}

module _ {J : Type 0} (json : Json J) where
  fresh-All :
      (d : Delivery J) (ds : List (Delivery J))
      → any (λ x. text_eq x.id d.id) ds ≡ false
      → All (λ x. text_eq d.id x.id ≡ false) ds
  fresh-All d [] h = tt
  fresh-All d (x ∷ ds) h =
      (ground (arith, text_eq_iff x.id d.id, text_eq_iff d.id x.id), fresh-All d ds (ground arith))

  -- A new row in front hides none.
  behind-find :
      (d : Delivery J) (ds : List (Delivery J)) (id : Text) (x : Delivery J)
      → any (λ y. text_eq y.id d.id) ds ≡ false
      → find delivery_id id ds ≡ some x
      → find delivery_id id (d ∷ ds) ≡ some x
  unfolding find
  behind-find d ds id x fresh row = elim (Bool-cases (text_eq d.id id)) [
    | inl hit ↦
        let same = (text_eq_iff d.id id).0 hit in
        absurd (missing d.id ds fresh (subst (λ k. find delivery_id k ds ≡ some x) (sym same) row))
    | inr miss ↦ rw miss row
  ]
    where
      missing :
          (k : Text) (ds : List (Delivery J)) {x : Delivery J}
          → any (λ y. text_eq y.id k) ds ≡ false
          → find delivery_id k ds ≡ some x
          → ⊥
      missing k [] h e = cc
      missing k (y ∷ ds) {x} h e = missing k ds {x = x} (ground arith) (ground arith)

  new-Sane :
      (now : ℕ) (id tenant_id event_key : Text) (request : NotificationRequest J) (payload : J)
      (carrier : Carrier) (ms : List (Message J))
      → Sane ms (new_delivery now id tenant_id event_key request payload carrier)
  unfolding new_delivery
  new-Sane now id tenant_id event_key request payload carrier ms = record {
    bounded = omega arith;
    has_token = refl;
    has_until = refl;
    attempted = λ p. absurd (cc);
    sent = λ p. absurd (cc);
    acknowledged = λ p. absurd (cc);
  }

  upsert-Advance :
      (now : ℕ) (id tenant_id event_key : Text) (request : NotificationRequest J) (payload : J)
      (carrier : Carrier) (db : Db J) (o : Option (Delivery J))
      → Valid db
      → Advance db
          (upsert_delivery json now
            (new_delivery now id tenant_id event_key request payload carrier)
            db
            o).1
  unfolding upsert_delivery can_insert
  upsert-Advance now id tenant_id event_key request payload carrier db (some row) v =
      Advance-rows db _ v
        (Pointwise-alter event_of Progress _ (touch now) db.deliveries Progress-refl
          (λ d _. touch-Progress d now))
        (All-alter event_of (Sane db.messages) _ (touch now) db.deliveries v.sane
          (λ d _ s. touch-Sane db.messages d s now))
  upsert-Advance now id tenant_id event_key request payload carrier db none v =
      let d = new_delivery now id tenant_id event_key request payload carrier in
      elim (Bool-cases (can_insert json db d)) [
        | inr refused ↦ rw refused (Advance-refl db v)
        | inl taken ↦
            let fresh : any (λ x. text_eq x.id d.id) db.deliveries ≡ false = ground arith in
            rw taken (record {
              valid = record {
                distinct = (fresh-All d db.deliveries fresh, v.distinct);
                sane = (
                  new-Sane now id tenant_id event_key request payload carrier db.messages,
                  v.sane,
                );
              };
              progress =
                  λ id x row. (x, behind-find d db.deliveries id x fresh row, Progress-refl x);
            })
      ]

  answer_row-tables :
      (config : Config) (request : NotificationRequest J) (payload : J)
      (r : Result StoreError (Delivery J) × Db J)
      → (answer_row json config request payload r).1 ≡ r.1
  unfolding answer_row
  answer_row-tables config request payload (ok row, db) = refl
  answer_row-tables config request payload (err e, db) = refl

  insert-Advance :
      (config : Config) (now : ℕ) (id : Text) (event_key : Text) (request : NotificationRequest J)
      (payload : J) (carrier : Carrier) (db : Db J) (tenant : Option Text)
      → Valid db
      → Advance db (record_for json config now id request event_key payload carrier tenant db).1
  unfolding record_for insert_delivery
  insert-Advance config now id event_key request payload carrier db none v = Advance-refl db v
  insert-Advance config now id event_key request payload carrier db (some tenant_id) v =
      subst (Advance db) (sym (answer_row-tables config request payload _))
        (upsert-Advance now id tenant_id event_key request payload carrier db _ v)

  pub record_delivery-Advance :
      (config : Config) (now : ℕ) (id : Text) (request : NotificationRequest J) (event_key : Text)
      (payload : J) (headers : Result Text Carrier) (db : Db J)
      → Valid db
      → Advance db (record_delivery json config now id request event_key payload headers db).1
  unfolding record_delivery
  record_delivery-Advance config now id request event_key payload (err e) db v = Advance-refl db v
  record_delivery-Advance config now id request event_key payload (ok carrier) db v =
      insert-Advance config now id event_key request payload carrier db request.tenant_id v

  pub notify-Advance :
      (config : Config) (now : ℕ) (id tenant_id : Text) (request : NotificationRequest J)
      (headers : Result Text Carrier) (db : Db J)
      → Valid db
      → Advance db (notify_inner json config now id tenant_id request headers db).1
  unfolding notify_inner
  notify-Advance config now id tenant_id request headers db v =
      elim (Bool-cases (is_empty (trim request.order_id) || not (is_channel request.channel))) [
        | inl bad ↦ rw bad (Advance-refl db v)
        | inr good ↦ rw good (
            record_delivery-Advance config now id (record request { tenant_id = some tenant_id }) _
              _ headers db v)
      ]
