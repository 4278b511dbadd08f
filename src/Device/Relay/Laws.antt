-- ===== src/Device/Relay/Laws.antt =====
-- What a validated relay result is bound to.
use openkey.Common.{ℕ, ◌+◌, ◌*◌, ◌≤◌, ◌<◌, ◌≡◌, Option, none, some, arith}
use openkey.Common.Results.{ok, Ensures, on_ok, on_err, Ensures-ok, Ensures->>=}
use openkey.Json.{Json, obj, Fields}
use openkey.Device.Types.{DeviceAuthorizationRecord}
use openkey.Device.Platform.{Platform}
use openkey.Device.Scope.Approved.Laws.{
  IsSubset, KeepsCapabilities, approved_permission_subset-IsSubset,
}
use openkey.Device.Relay.{
  RelayApproval, bad_result, check_expiry, check_parts, validate_relay_approval,
}

-- The approval stays within the request: part of its permissions, and an expiry in the future that
-- exceeds neither the lifetime from now nor the bound of the record.
pub record IsBounded (r : DeviceAuthorizationRecord) (now : ℕ) (a : RelayApproval) : Type 0 where
  pub permissions : IsSubset a.approved_permissions r.permissions
  pub capabilities : KeepsCapabilities a.approved_permissions r.permissions
  pub future : now < a.delegation_expires_at
  pub lifetime : a.delegation_expires_at ≤ now + r.delegation_ttl_seconds * 1000
  pub bound : a.delegation_expires_at ≤ r.delegation_expires_at

module _ (p : Platform) (r : DeviceAuthorizationRecord) (now : ℕ) where
  check_expiry_bounds :
      (o : Option ℕ) (t : ℕ)
      → check_expiry p r now o ≡ ok t
      → (now < t) × (t ≤ now + r.delegation_ttl_seconds * 1000) × (t ≤ r.delegation_expires_at)
  unfolding check_expiry
  check_expiry_bounds none t e = cc
  check_expiry_bounds (some u) t e = ground arith

  check_parts-IsBounded :
      (relay bound : Option Fields) → Ensures (IsBounded r now) (check_parts p r now relay bound)
  unfolding check_parts
  check_parts-IsBounded none bound = on_err bad_result
  check_parts-IsBounded (some relay) none = on_err bad_result
  check_parts-IsBounded (some relay) (some bound) = Ensures->>= _ _ λ _ _. Ensures->>= _ _ λ _ _.
      Ensures->>= _ _ λ qs approved. Ensures->>= _ _ λ t expires. Ensures->>= _ _ λ envelope _.
        on_ok _ (
          let (future, lifetime, below) = check_expiry_bounds _ t expires in
          record {
            permissions = (approved_permission_subset-IsSubset p r.permissions _ qs approved).0;
            capabilities = (approved_permission_subset-IsSubset p r.permissions _ qs approved).1;
            future = future;
            lifetime = lifetime;
            bound = below;
          })

  pub validate_relay_approval-IsBounded :
      (value : Json) (a : RelayApproval)
      → validate_relay_approval p r value now ≡ ok a
      → IsBounded r now a
  unfolding validate_relay_approval
  validate_relay_approval-IsBounded (obj approval) a e =
      Ensures-ok (IsBounded r now) _ a (check_parts-IsBounded _ _) e
  validate_relay_approval-IsBounded _ a e = cc
