-- ===== src/Approvals/Store.antt =====
-- `createPrismaApprovalRequestStore` of apps/api/src/services/approval-request-store.ts, over the
-- rows of the table. `id` is its primary key and `resultRef` is unique: a statement that would break
-- the latter throws, which is `none`.
pub mod Laws
pub mod Follows
pub mod Unique
use openkey.Common.{
  ℕ, suc, String, Bool, true, false, not, ◌&&◌, ◌||◌, Option, none, some, List, [], ◌∷◌, ◌++◌, ◌==◌,
  ltb, nat_eq, if◌then◌else◌, find, any, count, is_some,
}
use openkey.Common.Results.{Result, ok, err}
use openkey.Approvals.Types.{
  ApprovalRequest, ApprovalRequestRecord, ApprovalResultError, approval_error, request_binding,
}

abbrev pub Table : Type 0
Table = List ApprovalRequestRecord

abbrev pub equals : Option String → String → Bool
equals none s = false
equals (some t) s = t == s

-- The record that the route registers, of a link that was opened.
abbrev pub new_request : String → String → String → ApprovalRequest → ℕ → ℕ → ApprovalRequestRecord
new_request id body_cid issuer request expires_at now = record {
  id = id;
  body_cid = body_cid;
  issuer = issuer;
  request = request;
  expires_at = expires_at;
  created_at = now;
  result_ref = none;
  approved_by_user_id = none;
  owner_did = none;
  encrypted_result = none;
  delegation_expires_at = none;
  result_expires_at = none;
  ack_id = none;
  acknowledged_at = none;
  denied_at = none;
}

-- `findUnique({ where: { id } })`
unfoldable pub find_by_id : String → Table → Option ApprovalRequestRecord
find_by_id id = find (λ r. r.id == id)

-- `findUnique({ where: { resultRef } })`
unfoldable pub find_by_result_ref : String → Table → Option ApprovalRequestRecord
find_by_result_ref ref = find (λ r. equals r.result_ref ref)

-- `updateMany({ where, data })`: the rows that match are changed, and counted.
unfoldable pub update_many :
    (ApprovalRequestRecord → Bool) → (ApprovalRequestRecord → ApprovalRequestRecord) → Table → Table
update_many matches change [] = []
update_many matches change (r ∷ t) =
    (if matches r then change r else r) ∷ update_many matches change t

-- `upsert` with an empty update.
unfoldable pub upsert : ApprovalRequestRecord → Table → ApprovalRequestRecord × Table
upsert record_ t = elim (find_by_id record_.id t) [
  | some saved ↦ (saved, t)
  | none ↦ (record_, t ++ record_ ∷ [])
]

unfoldable pub register :
    ApprovalRequestRecord → Table → Table × Result ApprovalResultError ApprovalRequestRecord
unfolding upsert
register record_ t =
    let (saved, t') = upsert record_ t in
    if not (saved.body_cid == record_.body_cid)
      || not (saved.issuer == record_.issuer)
      || not (nat_eq saved.expires_at record_.expires_at)
    then (t', err (approval_error request_binding 409))
    else (t', ok saved)

-- `where: { id, resultRef: null, deniedAt: null, expiresAt: { gt: now } }`
abbrev pub is_open : String → ℕ → ApprovalRequestRecord → Bool
is_open id now r =
    r.id == id && not (is_some r.result_ref) && not (is_some r.denied_at) && ltb now r.expires_at

pub record ApprovedResult : Type 0 where
  pub result_ref : String
  pub approved_by_user_id : String
  pub owner_did : String
  pub encrypted_result : String
  pub delegation_expires_at : ℕ
  pub result_expires_at : ℕ

abbrev pub set_approved : ApprovedResult → ApprovalRequestRecord → ApprovalRequestRecord
set_approved i r = record r {
  result_ref = some i.result_ref;
  approved_by_user_id = some i.approved_by_user_id;
  owner_did = some i.owner_did;
  encrypted_result = some i.encrypted_result;
  delegation_expires_at = some i.delegation_expires_at;
  result_expires_at = some i.result_expires_at;
}

-- The value says whether one row was changed.
unfoldable pub approve : String → ApprovedResult → ℕ → Table → Option (Table × Bool)
unfolding update_many
approve id result now t =
    if nat_eq (count (is_open id now) t) 0
    then some (t, false)
    else (if is_some (find_by_result_ref result.result_ref t)
        then none
        else some (
          update_many (is_open id now) (set_approved result) t,
          nat_eq (count (is_open id now) t) 1,
        ))

-- `where: { resultRef, resultExpiresAt: { gt: now }, OR: [{ ackId: null }, { ackId }] }`
abbrev pub after : ℕ → Option ℕ → Bool
after now none = false
after now (some t) = ltb now t

abbrev pub can_acknowledge : String → String → ℕ → ApprovalRequestRecord → Bool
can_acknowledge ref ack_id now r =
    equals r.result_ref ref
    && after now r.result_expires_at
    && (not (is_some r.ack_id) || equals r.ack_id ack_id)

abbrev pub set_acknowledged : String → ℕ → ApprovalRequestRecord → ApprovalRequestRecord
set_acknowledged ack_id now r = record r {
  ack_id = some ack_id;
  acknowledged_at = some now;
  encrypted_result = none;
}

unfoldable pub acknowledge : String → String → ℕ → Table → Table × Option ApprovalRequestRecord
unfolding update_many find_by_result_ref
acknowledge ref ack_id now t =
    let t' = update_many (can_acknowledge ref ack_id now) (set_acknowledged ack_id now) t in
    if nat_eq (count (can_acknowledge ref ack_id now) t) 1
    then (t', find_by_result_ref ref t')
    else (t', none)

abbrev pub set_denied : ℕ → ApprovalRequestRecord → ApprovalRequestRecord
set_denied now r = record r { denied_at = some now }

unfoldable pub deny : String → ℕ → Table → Table × Bool
unfolding update_many
deny id now t =
    (update_many (is_open id now) (set_denied now) t, nat_eq (count (is_open id now) t) 1)
