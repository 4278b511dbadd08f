-- ===== src/Device/Service/Approve.antt =====
-- `approve` of `DeviceAuthorizationService`, its reading part and its writing part.
pub mod Laws
use openkey.Common.{ℕ, ◌+◌, min, String, if◌then◌else◌}
use openkey.Common.Results.{Result, ok, err, ◌>>=◌}
use openkey.Json.{Json}
use openkey.Device.Types.{DeviceAuthorizationError, result_retention_ms}
use openkey.Device.Platform.{Platform}
use openkey.Device.Store
use openkey.Device.Store.{Store, is_pending, is_approved}
use openkey.Device.Relay.{RelayApproval, validate_relay_approval}
use openkey.Device.Service.{Outcome, expired, live_pending}

module _ (p : Platform) where
  -- The part of `approve` that reads: the clock is read twice.
  unfoldable pub approve_read :
      ℕ → ℕ → String → Json → Store → Result DeviceAuthorizationError RelayApproval
  approve_read now1 now2 id value s = do
    r ← live_pending now1 (Store.find_by_id id s)
    validate_relay_approval p r value now2

abbrev pub approve_input : ℕ → String → RelayApproval → Store.ApproveInput
approve_input now user_id a = record {
  user_id = user_id;
  encrypted_result = a.relay;
  delegation_expires_at = a.delegation_expires_at;
  approved_permissions = a.approved_permissions;
  result_expires_at = min a.delegation_expires_at (now + result_retention_ms);
}

-- The part of `approve` that writes. Other requests may run before it, so the store can differ from
-- the one that was read.
unfoldable pub approve_commit : ℕ → String → String → RelayApproval → Store → Outcome (Unit {0})
approve_commit now id user_id a s =
    let (s', done) = Store.approve id (approve_input now user_id a) s in
    (s', if done then ok tt else err expired)

module _ (p : Platform) where
  -- Both parts in one store, with no other request between them.
  unfoldable pub approve : ℕ → ℕ → ℕ → String → String → Json → Store → Outcome (Unit {0})
  unfolding approve_read approve_commit
  approve now1 now2 now3 id user_id value s = elim (approve_read p now1 now2 id value s) [
    | err e ↦ (s, err e)
    | ok a ↦ approve_commit now3 id user_id a s
  ]
