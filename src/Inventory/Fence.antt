-- ===== src/Inventory/Fence.antt =====
-- The authoritative checkout fence: `lock_current_checkout_fence` of
-- services/inventory/src/infrastructure.rs. The row lock has no effect on the tables.
use parallax_telemetry_playg.Prelude.{
  ℕ, Bool, true, false, ◌&&◌, Option, none, some, List, Text, text_eq, ltb, any, Result, ok, ◌>>=◌,
  ◌>>◌, ensure, ok_or,
}
use parallax_telemetry_playg.Table.{find}
use parallax_telemetry_playg.Inventory.Domain.{OperationError, conflict, ConflictCode}
use parallax_telemetry_playg.Inventory.Schema.{
  Slot, slot_Eq, Attempt, AttemptStatus, started, pending, failed, attempt_slot, Reconciliation, Db,
}

-- `expires > CURRENT_TIMESTAMP`, which is not true of a NULL.
abbrev pub after : Option ℕ → ℕ → Bool
after none now = false
after (some t) now = ltb now t

abbrev pub is_present : Option Text → Bool
is_present none = false
is_present (some t) = true

-- The `EXISTS` subquery: a live payment reconciliation of the same checkout generation.
unfoldable pub reconciling : ℕ → Attempt → List Reconciliation → Bool
reconciling now a = any λ r.
    text_eq r.tenant_id a.tenant_id
    && text_eq r.request_id a.request_id
    && text_eq r.checkout_lease_token a.lease_token
    && r.is_processing
    && is_present r.lease_token
    && after r.lease_expires_at now

-- The status condition of the query.
abbrev pub is_live : ℕ → List Reconciliation → Attempt → AttemptStatus → Bool
is_live now rs a started = after a.lease_expires_at now
is_live now rs a failed = true
is_live now rs a pending = reconciling now a rs
is_live now rs a _ = false

unfoldable pub fence_current : ℕ → Db → Slot → Text → Bool
fence_current now db k token = elim (find attempt_slot k db.attempts) [
  | none ↦ false
  | some a ↦ text_eq a.lease_token token && is_live now db.reconciliations a a.status
]

unfoldable pub lease_lost : OperationError
lease_lost = conflict ConflictCode.checkout_lease_lost

unfoldable pub lock_current_checkout_fence :
    ℕ → Db → Text → Text → Text → Result OperationError (Unit {0})
unfolding lease_lost
lock_current_checkout_fence now db tenant_id request_id token =
    ensure (fence_current now db (record { tenant_id = tenant_id; id = request_id }) token)
      lease_lost

-- The request and the token of a fence, both required, and current.
unfoldable pub require_fence :
    ℕ → Db → Text → Option Text → Option Text → Result OperationError (Text × Text)
unfolding lease_lost
require_fence now db tenant_id checkout_request_id checkout_lease_token = do
  request_id ← ok_or checkout_request_id lease_lost
  lease_token ← ok_or checkout_lease_token lease_lost
  lock_current_checkout_fence now db tenant_id request_id lease_token
  ok (request_id, lease_token)
