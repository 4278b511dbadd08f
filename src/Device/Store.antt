-- ===== src/Device/Store.antt =====
-- `MemoryDeviceAuthorizationStore` of apps/api/src/services/device-authorization.ts: a `Map` from
-- ids to records, as the list of its values in insertion order.
pub mod Laws
pub mod Follows
use openkey.Common.{
  ℕ, max, String, ◌≡◌, Bool, true, false, ◌&&◌, Option, none, some, List, [], ◌∷◌, ◌==◌, ltb, leb,
  if◌then◌else◌, find, count, is_some,
}
use openkey.Device.Types.{
  DevicePermission, DeviceRelayEnvelope, DeviceAuthorizationRecord, Status, pending, approved,
  denied, consumed,
}

abbrev pub Store : Type 0
Store = List DeviceAuthorizationRecord

-- `this.records.set(record.id, record)`
unfoldable pub create : DeviceAuthorizationRecord → Store → Store
create r [] = r ∷ []
create r (q ∷ s) = if q.id == r.id then r ∷ s else q ∷ create r s

unfoldable pub find_by_id : String → Store → Option DeviceAuthorizationRecord
find_by_id id = find (λ r. r.id == id)

unfoldable pub find_by_user_code : String → Store → Option DeviceAuthorizationRecord
find_by_user_code code = find (λ r. r.user_code == code)

unfoldable pub count_recent_by_ip_hash : String → ℕ → Store → ℕ
count_recent_by_ip_hash hash since =
    count (λ r. r.request_ip_hash == hash && leb since r.requested_at)

-- The record of an id, changed in place.
unfoldable pub modify :
    String → (DeviceAuthorizationRecord → DeviceAuthorizationRecord) → Store → Store
modify id f [] = []
modify id f (r ∷ s) = if r.id == id then f r ∷ s else r ∷ modify id f s

unfoldable pub update_poll : String → ℕ → Store → Store
update_poll id next_poll_at = modify id (λ r. record r { next_poll_at = next_poll_at })

abbrev pub is_pending : Status → Bool
is_pending pending = true
is_pending _ = false

abbrev pub is_approved : Status → Bool
is_approved approved = true
is_approved _ = false

pub record ApproveInput : Type 0 where
  pub user_id : String
  pub encrypted_result : DeviceRelayEnvelope
  pub delegation_expires_at : ℕ
  pub approved_permissions : List DevicePermission
  pub result_expires_at : ℕ

abbrev pub set_approved : ApproveInput → DeviceAuthorizationRecord → DeviceAuthorizationRecord
set_approved i r = record r {
  status = approved;
  approved_by_user_id = some i.user_id;
  encrypted_result = some i.encrypted_result;
  delegation_expires_at = i.delegation_expires_at;
  approved_permissions = some i.approved_permissions;
  transaction_expires_at = max r.transaction_expires_at i.result_expires_at;
}

unfoldable pub approve : String → ApproveInput → Store → Store × Bool
approve id i s = elim (find_by_id id s) [
  | none ↦ (s, false)
  | some r ↦ if is_pending r.status then (modify id (set_approved i) s, true) else (s, false)
]

abbrev pub set_consumed : ℕ → DeviceAuthorizationRecord → DeviceAuthorizationRecord
set_consumed now r = record r { status = consumed; consumed_at = some now; encrypted_result = none }

-- The value returned is the record with its result, copied before the result is deleted.
unfoldable pub consume_approved : String → ℕ → Store → Store × Option DeviceAuthorizationRecord
consume_approved id now s = elim (find_by_id id s) [
  | none ↦ (s, none)
  | some r ↦
      if is_approved r.status
      then if is_some r.consumed_at then (s, none) else (
        modify id (set_consumed now) s,
        some (record r { status = consumed; consumed_at = some now }),
      )
      else (s, none)
]

abbrev pub wipe : ℕ → DeviceAuthorizationRecord → DeviceAuthorizationRecord
wipe now r =
    if is_approved r.status && leb r.transaction_expires_at now
    then record r { encrypted_result = none }
    else r

unfoldable pub wipe_expired_results : ℕ → Store → Store
wipe_expired_results now [] = []
wipe_expired_results now (r ∷ s) = wipe now r ∷ wipe_expired_results now s
