-- ===== src/Notifications/Claim.antt =====
-- How the worker takes a delivery, and gives up the exhausted ones: `claim_next` and
-- `reclaim_exhausted` of services/notifications/src/store.rs.
use parallax_telemetry_playg.Prelude.{
  ℕ, ◌+◌, Bool, true, false, not, ◌&&◌, ◌||◌, Option, none, some, List, [], ◌∷◌, Text, codes,
  text_Eq, ltb, leb, ◌==◌, keep, map, sort_by, if◌then◌else◌,
}
use parallax_telemetry_playg.Table.{find, alter}
use parallax_telemetry_playg.Notifications.Schema.{
  attempt_key_Eq, DeliveryStatus, is_waiting, is_processing, Carrier, Delivery, Outcome, Attempt,
  Db, delivery_id, attempt_key, max_attempts, lease_time,
}

-- `lease_until <= CURRENT_TIMESTAMP`, which is not true of a NULL.
abbrev pub has_passed : Option ℕ → ℕ → Bool
has_passed none now = false
has_passed (some t) now = leb t now

-- `INSERT … ON CONFLICT (delivery_id, attempt) DO UPDATE`.
unfoldable pub upsert_attempt : (Attempt → Attempt) → Attempt → List Attempt → List Attempt
upsert_attempt f a rows = elim (find attempt_key (attempt_key a) rows) [
  | none ↦ a ∷ rows
  | some b ↦ alter attempt_key (attempt_key a) f rows
]

pub record DeliveryJob (J : Type 0) : Type 0 where
  pub id : Text
  pub tenant_id : Text
  pub event_key : Text
  pub order_id : Text
  pub channel : Text
  pub payload : J
  pub attempt : ℕ
  pub lease_token : Text
  pub carrier : Carrier

abbrev pub coalesce {ℓ} : {A : Type ℓ} → Option A → A → Option A
coalesce none a = some a
coalesce (some b) a = some b

module _ {J : Type 0} where
  -- The WHERE clause of the candidate query.
  unfoldable pub is_claimable : ℕ → Delivery J → Bool
  is_claimable now d =
      ltb d.attempts max_attempts
      && ((is_waiting d.status && leb d.next_attempt_at now)
          || (is_processing d.status && has_passed d.lease_until now))

  -- `ORDER BY next_attempt_at, created_at, id` under the collation of the database.
  unfoldable pub by_turn : (Text → Text → Bool) → Delivery J → Delivery J → Bool
  by_turn collate a b =
      if ltb a.next_attempt_at b.next_attempt_at
      then true
      else if not (a.next_attempt_at == b.next_attempt_at)
      then false
      else if ltb a.created_at b.created_at
      then true
      else if not (a.created_at == b.created_at)
      then false
      else collate a.id b.id

  abbrev pub first : List (Delivery J) → Option (Delivery J)
  first [] = none
  first (d ∷ ds) = some d

  -- `FOR UPDATE SKIP LOCKED LIMIT 1`.
  unfoldable pub candidate :
      (Text → Text → Bool) → (Text → Bool) → ℕ → List (Delivery J) → Option (Delivery J)
  unfolding by_turn is_claimable
  candidate collate locked now ds =
      first (sort_by (by_turn collate) (keep (λ d. is_claimable now d && not (locked d.id)) ds))

  unfoldable pub lease : ℕ → Text → Delivery J → Delivery J
  lease now token d = record d {
    status = DeliveryStatus.processing;
    attempts = d.attempts + 1;
    lease_until = some (now + lease_time);
    lease_token = some token;
    updated_at = now;
  }

  unfoldable pub job_of : Text → Delivery J → DeliveryJob J
  job_of token d = record {
    id = d.id;
    tenant_id = d.tenant_id;
    event_key = d.event_key;
    order_id = d.order_id;
    channel = d.channel;
    payload = d.payload;
    attempt = d.attempts;
    lease_token = token;
    carrier = d.carrier;
  }

  unfoldable pub begin_attempt : ℕ → DeliveryJob J → List Attempt → List Attempt
  unfolding upsert_attempt
  begin_attempt now job rows =
      upsert_attempt
        (λ a. record a {
          outcome = Outcome.processing;
          error = none;
          started_at = now;
          completed_at = none;
        })
        (record {
          delivery_id = job.id;
          tenant_id = job.tenant_id;
          attempt = job.attempt;
          outcome = Outcome.processing;
          error = none;
          started_at = now;
          completed_at = none;
        })
        rows

  unfoldable pub claim_candidate :
      ℕ → Text → Db J → Option (Delivery J) → Option (DeliveryJob J) × Db J
  unfolding lease job_of begin_attempt
  claim_candidate now token db none = (none, db)
  claim_candidate now token db (some d) =
      let job : DeliveryJob J = job_of token (lease now token d) in
      (
        some job,
        record db {
          deliveries = alter delivery_id d.id (lease now token) db.deliveries;
          attempts = begin_attempt now job db.attempts;
        },
      )

  unfoldable pub claim_next :
      (Text → Text → Bool) → (Text → Bool) → ℕ → Text → Db J → Option (DeliveryJob J) × Db J
  unfolding candidate
  claim_next collate locked now token db =
      claim_candidate now token db (candidate collate locked now db.deliveries)

  -- The WHERE clause of the reclaim statement.
  unfoldable pub is_exhausted : ℕ → Delivery J → Bool
  is_exhausted now d =
      leb max_attempts d.attempts
      && (is_waiting d.status || (is_processing d.status && has_passed d.lease_until now))

  unfoldable pub exhaust : ℕ → Delivery J → Delivery J
  exhaust now d = record d {
    status = DeliveryStatus.dead_lettered;
    dead_lettered_at = coalesce d.dead_lettered_at now;
    last_error = coalesce d.last_error (codes "delivery retry budget exhausted");
    lease_until = none;
    lease_token = none;
    updated_at = now;
  }

  abbrev pub exhaust_if : ℕ → Delivery J → Delivery J
  exhaust_if now d = if is_exhausted now d then exhaust now d else d

  unfoldable pub end_attempt : ℕ → Delivery J → List Attempt → List Attempt
  unfolding upsert_attempt
  end_attempt now d rows =
      upsert_attempt
        (λ a. record a {
          outcome = Outcome.dead_lettered;
          error = some (codes "delivery retry budget exhausted");
          completed_at = some now;
        })
        (record {
          delivery_id = d.id;
          tenant_id = d.tenant_id;
          attempt = d.attempts;
          outcome = Outcome.dead_lettered;
          error = some (codes "delivery retry budget exhausted");
          started_at = now;
          completed_at = some now;
        })
        rows

  unfoldable pub end_attempts : ℕ → List (Delivery J) → List Attempt → List Attempt
  end_attempts now [] rows = rows
  end_attempts now (d ∷ ds) rows = end_attempts now ds (end_attempt now d rows)

  unfoldable pub reclaim_exhausted : ℕ → Db J → Db J
  unfolding is_exhausted exhaust end_attempts
  reclaim_exhausted now db = record db {
    deliveries = map (exhaust_if now) db.deliveries;
    attempts = end_attempts now (keep (is_exhausted now) db.deliveries) db.attempts;
  }
