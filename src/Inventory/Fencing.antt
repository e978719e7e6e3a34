-- ===== src/Inventory/Fencing.antt =====
-- `reserve`, `release` and `consume` against the checkout fence.
use parallax_telemetry_playg.Prelude.{
  ℕ, ◌≡◌, ◌↔◌, inl, inr, refl, Bool, true, false, Bool-cases, Option, some, Text, not, sort_by, ok,
  err, ◌>>=◌, ◌>>◌, ensure, if◌then◌else◌,
}
use parallax_telemetry_playg.Inventory.Domain.{
  ReserveQuery, ReleaseBody, ConsumeBody, fault_injection, conflict, ConflictCode,
}
use parallax_telemetry_playg.Inventory.Schema.{slot_Eq, Db, Tx}
use parallax_telemetry_playg.Inventory.Fence.{
  fence_current, lease_lost, lock_current_checkout_fence, require_fence,
}
use parallax_telemetry_playg.Inventory.Reserve.{claim_of, reserve_claim, reserve}
use parallax_telemetry_playg.Inventory.Release.{release_claim_of, release_claim, release}
use parallax_telemetry_playg.Inventory.Consume.{consume_items, by_id, consume_outcome, consume}
use parallax_telemetry_playg.Inventory.Holder.{IsHolder, fence_current_iff}

require_fence-stale :
    (now : ℕ) (db : Db) (tenant_id request_id token : Text)
    → fence_current now db (record { tenant_id = tenant_id; id = request_id }) token ≡ false
    → require_fence now db tenant_id (some request_id) (some token) ≡ err lease_lost
unfolding require_fence lock_current_checkout_fence
require_fence-stale now db tenant_id request_id token stale = rw stale

require_fence-current :
    (now : ℕ) (db : Db) (tenant_id request_id token : Text)
    → fence_current now db (record { tenant_id = tenant_id; id = request_id }) token ≡ true
    → require_fence now db tenant_id (some request_id) (some token) ≡ ok (request_id, token)
unfolding require_fence lock_current_checkout_fence
require_fence-current now db tenant_id request_id token current = rw current refl

-- A request under a current fence passes both guards.
pub pass_fence :
    {A : Type 0} (now : ℕ) (db : Db) (tenant_id request_id token : Text) (fail : Bool)
    (o p : Option Text) (f : Text × Text → Tx A)
    → fail ≡ false
    → o ≡ some request_id
    → p ≡ some token
    → fence_current now db (record { tenant_id = tenant_id; id = request_id }) token ≡ true
    → (ensure (not fail) fault_injection >> (require_fence now db tenant_id o p >>= f))
      ≡ f (request_id, token)
pass_fence now db tenant_id request_id token fail o p f quiet asked held current =
    rw (quiet, asked, held, require_fence-current now db tenant_id request_id token current) refl

-- The three requests of a checkout, each naming it and a token, go by one condition, which holds
-- exactly if the checkout holds its fence under the token: its attempt is there with that token, and
-- has started with a lease that lasts, has failed, or is pending while someone reconciles its payment
-- under a lease that lasts. Then each request goes on to its own work, and otherwise each is refused
-- because the lease is lost, whatever else it holds. The reservation asks for no injected fault.
pub fence_decides :
    (collate : Text → Text → Bool) (now : ℕ) (db : Db) (tenant_id request_id token : Text)
    (params : ReserveQuery) (body : ReleaseBody) (batch : ConsumeBody)
    → params.fail ≡ false
    → let q : ReserveQuery = record params {
      tenant_id = tenant_id;
      checkout_request_id = some request_id;
      checkout_lease_token = some token;
    } in
      let b : ReleaseBody = record body {
        tenant_id = tenant_id;
        checkout_request_id = some request_id;
        checkout_lease_token = some token;
      } in
      let c : ConsumeBody = record batch {
        tenant_id = tenant_id;
        checkout_request_id = some request_id;
        checkout_lease_token = some token;
      } in
      (held : Bool) × ((held ≡ true) ↔ IsHolder now db tenant_id request_id token)
      × (reserve collate now q db ≡ (
          if held
          then reserve_claim collate (claim_of now q (request_id, token)) q db
          else err (conflict ConflictCode.checkout_lease_lost)))
      × (release now b db ≡ (
          if held
          then release_claim (release_claim_of now b (request_id, token)) b db
          else err (conflict ConflictCode.checkout_lease_lost)))
      × (consume now c db ≡ (
          if held
          then (do
            (total, db') ←
                consume_items now tenant_id
                  (request_id, token)
                  0
                  (sort_by by_id batch.reservations)
                  db
            ok (consume_outcome total, db'))
          else err (conflict ConflictCode.checkout_lease_lost)))
unfolding reserve release consume lease_lost
fence_decides collate now db tenant_id request_id token params body batch quiet =
    let held = fence_current now db (record { tenant_id = tenant_id; id = request_id }) token in
    let passed = require_fence-current now db tenant_id request_id token in
    let lost = require_fence-stale now db tenant_id request_id token in
    (
      held,
      fence_current_iff now db tenant_id request_id token,
      elim (Bool-cases held) [
        | inl current ↦ rw (quiet, current, passed current) refl
        | inr stale ↦ rw (quiet, stale, lost stale) refl
      ],
      elim (Bool-cases held) [
        | inl current ↦ rw (current, passed current) refl
        | inr stale ↦ rw (stale, lost stale) refl
      ],
      elim (Bool-cases held) [
        | inl current ↦ rw (current, passed current) refl
        | inr stale ↦ rw (stale, lost stale) refl
      ],
    )
