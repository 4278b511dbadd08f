-- ===== src/Device/System/Invariant.antt =====
-- What holds of every stored record at every time, and that each method keeps it.
use mathlib.Core.Path.{subst}
use openkey.Common.{
  ℕ, ◌+◌, ◌*◌, ◌≤◌, String, ◌≡◌, refl, sym, true, ◌&&◌, none, some, List, leb, arith, Bool-cases,
  inl, inr, ◌⊎◌, ◌≢◌, All, All-weaken,
}
use openkey.Device.Types.{
  DevicePermission, DeviceAuthorizationRecord, Status, pending, approved, denied, consumed,
}
use openkey.Device.Platform.{Platform}
use openkey.Device.Store
use openkey.Device.Store.{
  Store, find_by_id, modify, wipe, set_approved, set_consumed, is_approved, is_pending,
}
use openkey.Device.Store.Laws.{All-wipe}
use openkey.Device.Scope.Approved.Laws.{IsSubset}
use openkey.Device.Relay.{RelayApproval}
use openkey.Device.Start.{StartInput, Checked}
use openkey.Device.Service.{Options}
use openkey.Device.Service.Begin.{new_record}
use openkey.Device.Service.Approve.{approve_input}

-- The approved permissions are a part of the requested ones.
abbrev pub ApprovedWithin : DeviceAuthorizationRecord → Type 0
ApprovedWithin r =
    (qs : List DevicePermission) × (r.approved_permissions ≡ some qs) × IsSubset qs r.permissions

-- A pending record has nothing approved, and its expiry bound is its deadline and its lifetime. An
-- approved one keeps its result as long as it lives. A spent one has none.
abbrev pub Fits : ℕ → Status → DeviceAuthorizationRecord → Type 0
Fits clock pending r =
    (r.encrypted_result ≡ none)
    × (r.approved_permissions ≡ none)
    × (r.consumed_at ≡ none)
    × (r.delegation_expires_at ≡ r.transaction_expires_at + r.delegation_ttl_seconds * 1000)
Fits clock approved r =
    ((r.encrypted_result ≢ none) ⊎ (r.transaction_expires_at ≤ clock))
    × (r.consumed_at ≡ none)
    × ApprovedWithin r
Fits clock consumed r = (r.encrypted_result ≡ none) × ApprovedWithin r
Fits clock denied r = ⊥

abbrev pub IsWell : ℕ → DeviceAuthorizationRecord → Type 0
IsWell clock r = Fits clock r.status r

Fits-mono :
    (c d : ℕ) (st : Status) (r : DeviceAuthorizationRecord) → c ≤ d → Fits c st r → Fits d st r
Fits-mono c d pending r h k = k
Fits-mono c d approved r h (inl kept, k, l) = (inl kept, k, l)
Fits-mono c d approved r h (inr over, k, l) = (inr (omega arith), k, l)
Fits-mono c d consumed r h k = k
Fits-mono c d denied r h k = k

pub All-IsWell-mono : (c d : ℕ) (s : Store) → c ≤ d → All (IsWell c) s → All (IsWell d) s
All-IsWell-mono c d s h k = All-weaken (IsWell c) (IsWell d) s (λ r. Fits-mono c d r.status r h) k

is_approved→approved : (st : Status) → is_approved st ≡ true → st ≡ approved
is_approved→approved st h = ground arith

-- The sweep clears only results whose time has passed.
IsWell-wipe :
    (clock now : ℕ) (r : DeviceAuthorizationRecord)
    → now ≤ clock
    → IsWell clock r
    → IsWell clock (wipe now r)
IsWell-wipe clock now r h k =
    elim (Bool-cases (is_approved r.status && leb r.transaction_expires_at now)) [
      | inl over ↦
          let st : r.status ≡ approved = is_approved→approved r.status (ground arith) in
          let (_, unspent, within) = subst (λ x. Fits clock x r) st k in
          rw over (
            subst (λ x. Fits clock x (record r { encrypted_result = none })) (sym st)
              (inr (ground arith), unspent, within))
      | inr stays ↦ rw stays k
    ]

pub All-IsWell-wipe :
    (clock now : ℕ) (s : Store)
    → now ≤ clock
    → All (IsWell clock) s
    → All (IsWell clock) (Store.wipe_expired_results now s)
All-IsWell-wipe clock now s h k =
    All-wipe (IsWell clock) (IsWell clock) now s (λ r. IsWell-wipe clock now r h) k

pub new_record-IsWell :
    (p : Platform) (o : Options) (clock now : ℕ) (input : StartInput) (c : Checked)
    (hash id raw : String)
    → IsWell clock (new_record p o now input c hash id raw)
unfolding new_record
new_record-IsWell p o clock now input c hash id raw = (refl, refl, refl, refl)

pub set_approved-IsWell :
    (clock now : ℕ) (user_id : String) (a : RelayApproval) (r : DeviceAuthorizationRecord)
    → r.status ≡ pending
    → IsSubset a.approved_permissions r.permissions
    → IsWell clock r
    → IsWell clock (set_approved (approve_input now user_id a) r)
set_approved-IsWell clock now user_id a r st within k =
    let (_, _, unspent, _) = subst (λ x. Fits clock x r) st k in
    (inl (λ e. cc), unspent, (a.approved_permissions, refl, within))

pub set_consumed-IsWell :
    (clock wall : ℕ) (r : DeviceAuthorizationRecord)
    → r.status ≡ approved
    → IsWell clock r
    → IsWell clock (set_consumed wall r)
set_consumed-IsWell clock wall r st k =
    let (_, _, within) = subst (λ x. Fits clock x r) st k in (refl, within)

next_poll-Fits :
    (clock t : ℕ) (st : Status) (r : DeviceAuthorizationRecord)
    → Fits clock st r
    → Fits clock st (record r { next_poll_at = t })
next_poll-Fits clock t pending r k = k
next_poll-Fits clock t approved r k = k
next_poll-Fits clock t consumed r k = k
next_poll-Fits clock t denied r k = k

pub next_poll-IsWell :
    (clock t : ℕ) (r : DeviceAuthorizationRecord)
    → IsWell clock r
    → IsWell clock (record r { next_poll_at = t })
next_poll-IsWell clock t r k = next_poll-Fits clock t r.status r k
