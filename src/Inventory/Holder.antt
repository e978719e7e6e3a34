-- ===== src/Inventory/Holder.antt =====
-- Who holds a checkout fence, as `lock_current_checkout_fence` of
-- services/inventory/src/infrastructure.rs decides it.
use parallax_telemetry_playg.Prelude.{
  ℕ, ◌<◌, ◌≡◌, ◌↔◌, ◌⊎◌, inl, inr, refl, Bool, true, Option-cases, Option, none, some, List, [],
  ◌∷◌, Text, text_eq, text_eq_iff, ◌&&◌, any, arith,
}
use parallax_telemetry_playg.Table.{find}
use parallax_telemetry_playg.Inventory.Schema.{
  slot_Eq, Attempt, AttemptStatus, started, pending, failed, attempt_slot, Reconciliation, Db,
}
use parallax_telemetry_playg.Inventory.Fence.{
  after, is_present, reconciling, is_live, fence_current,
}

-- A lease that has not run out.
abbrev pub Lasts : ℕ → Option ℕ → Type 0
Lasts now none = ⊥
Lasts now (some t) = now < t

abbrev pub Exists {ℓ} : {A : Type ℓ} → (A → Type 0) → List A → Type 0
Exists P [] = ⊥
Exists P (x ∷ xs) = P x ⊎ Exists P xs

-- A reconciliation that someone is at work on, of the generation of the attempt.
pub record IsReconciling (now : ℕ) (a : Attempt) (r : Reconciliation) : Type 0 where
  pub same_tenant : r.tenant_id ≡ a.tenant_id
  pub same_request : r.request_id ≡ a.request_id
  pub same_generation : r.checkout_lease_token ≡ a.lease_token
  pub processing : r.is_processing ≡ true
  pub worker : Text
  pub leased : r.lease_token ≡ some worker
  pub lasting : Lasts now r.lease_expires_at

-- A checkout that holds its fence under a token: its attempt has the token, and has started with a
-- lease that lasts, has failed, or is pending while its payment is reconciled.
pub record IsHolder (now : ℕ) (db : Db) (tenant_id request_id token : Text) : Type 0 where
  pub attempt : Attempt
  pub found :
      find attempt_slot (record { tenant_id = tenant_id; id = request_id }) db.attempts
      ≡ some attempt
  pub holder : attempt.lease_token ≡ token
  pub live :
      ((attempt.status ≡ started) × Lasts now attempt.lease_expires_at)
      ⊎ (attempt.status ≡ failed)
      ⊎ ((attempt.status ≡ pending) × Exists (IsReconciling now attempt) db.reconciliations)

after_iff : (o : Option ℕ) (now : ℕ) → (after o now ≡ true) ↔ Lasts now o
after_iff none now = ground arith
after_iff (some t) now = ground arith

any_iff :
    {A : Type 0} (p : A → Bool) (P : A → Type 0)
    → ((a : A) → (p a ≡ true) ↔ P a)
    → (xs : List A) → (any p xs ≡ true) ↔ Exists P xs
any_iff p P same [] = ground arith
any_iff p P same (x ∷ xs) = ground (arith, same x, any_iff p P same xs)

is_present_iff : (o : Option Text) → (is_present o ≡ true) ↔ ((t : Text) × (o ≡ some t))
is_present_iff none = (λ h. absurd (cc), λ h. absurd (cc (h.1)))
is_present_iff (some t) = (λ h. (t, refl), λ h. refl)

module _ (now : ℕ) (a : Attempt) where
  reconciles : Reconciliation → Bool
  reconciles r =
      text_eq r.tenant_id a.tenant_id
      && text_eq r.request_id a.request_id
      && text_eq r.checkout_lease_token a.lease_token
      && r.is_processing
      && is_present r.lease_token
      && after r.lease_expires_at now

  reconciles_iff : (r : Reconciliation) → (reconciles r ≡ true) ↔ IsReconciling now a r
  unfolding reconciles
  reconciles_iff r =
      let tenants = text_eq_iff r.tenant_id a.tenant_id in
      let requests = text_eq_iff r.request_id a.request_id in
      let generations = text_eq_iff r.checkout_lease_token a.lease_token in
      let workers = is_present_iff r.lease_token in
      let leases = after_iff r.lease_expires_at now in
      (
        λ h.
            let worker = workers.0 (ground (arith, h)) in
            record {
              same_tenant = ground (arith, h, tenants);
              same_request = ground (arith, h, requests);
              same_generation = ground (arith, h, generations);
              processing = ground (arith, h);
              worker = worker.0;
              leased = worker.1;
              lasting = leases.0 (ground (arith, h));
            },
        λ d. ground (
          arith,
          tenants.1 d.same_tenant,
          requests.1 d.same_request,
          generations.1 d.same_generation,
          d.processing,
          workers.1 (d.worker, d.leased),
          leases.1 d.lasting,
        ),
      )

  reconciling_iff :
      (rs : List Reconciliation) → (reconciling now a rs ≡ true) ↔ Exists (IsReconciling now a) rs
  unfolding reconciling reconciles
  reconciling_iff rs = any_iff reconciles (IsReconciling now a) reconciles_iff rs

  is_live_iff :
      (rs : List Reconciliation) (s : AttemptStatus)
      → (is_live now rs a s ≡ true) ↔ (
          ((s ≡ started) × Lasts now a.lease_expires_at)
          ⊎ (s ≡ failed)
          ⊎ ((s ≡ pending) × Exists (IsReconciling now a) rs))
  is_live_iff rs started = ground (arith, after_iff a.lease_expires_at now)
  is_live_iff rs failed = ground arith
  is_live_iff rs pending = ground (arith, reconciling_iff rs)
  is_live_iff rs AttemptStatus.paid = ground arith
  is_live_iff rs AttemptStatus.degraded = ground arith

sound :
    (now : ℕ) (db : Db) (tenant_id request_id token : Text)
    → fence_current now db (record { tenant_id = tenant_id; id = request_id }) token ≡ true
    → IsHolder now db tenant_id request_id token
unfolding fence_current
sound now db tenant_id request_id token h =
    elim (Option-cases
      (find attempt_slot (record { tenant_id = tenant_id; id = request_id }) db.attempts)) [
        | inl missing ↦ absurd (ground (arith, missing, h))
        | inr (a, row) ↦
            let test : (text_eq a.lease_token token && is_live now db.reconciliations a a.status)
                ≡ true =
              ground (arith, row, h) in
            record {
              attempt = a;
              found = row;
              holder = (text_eq_iff a.lease_token token).0 (ground (arith, test));
              live = (is_live_iff now a db.reconciliations a.status).0 (ground (arith, test));
            }
      ]

complete :
    (now : ℕ) (db : Db) (tenant_id request_id token : Text)
    → IsHolder now db tenant_id request_id token
    → fence_current now db (record { tenant_id = tenant_id; id = request_id }) token ≡ true
unfolding fence_current
complete now db tenant_id request_id token d =
    let own = (text_eq_iff d.attempt.lease_token token).1 d.holder in
    let live = (is_live_iff now d.attempt db.reconciliations d.attempt.status).1 d.live in
    ground (arith, d.found, own, live)

-- The query finds a row for the holders and for no one else.
pub fence_current_iff :
    (now : ℕ) (db : Db) (tenant_id request_id token : Text)
    → (fence_current now db (record { tenant_id = tenant_id; id = request_id }) token ≡ true)
      ↔ IsHolder now db tenant_id request_id token
fence_current_iff now db tenant_id request_id token =
    (sound now db tenant_id request_id token, complete now db tenant_id request_id token)
