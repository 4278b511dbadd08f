-- ===== src/Approvals/Store/Laws.antt =====
-- What the statements of the store do to one row, and to the look-ups.
use openkey.Common.{
  ℕ, String, ◌≡◌, refl, Bool, true, false, not, ◌&&◌, ◌⊎◌, Option, none, some, [], ◌∷◌, ◌==◌, arith,
  eq_iff, if◌then◌else◌, All, is_some,
}
use mathlib.Core.Option
use openkey.Approvals.Types.{ApprovalRequestRecord}
use openkey.Approvals.Store.{
  Table, equals, find_by_id, find_by_result_ref, update_many, is_open, can_acknowledge,
  set_approved, set_acknowledged, set_denied, ApprovedResult,
}

-- A request is denied or approved, never both. Its result is there from the approval to the
-- acknowledgement, and a retention from the approval on.
pub record IsWell (r : ApprovalRequestRecord) : Type 0 where
  pub decided_once : (is_some r.denied_at && is_some r.result_ref) ≡ false
  pub acknowledged_after : (is_some r.ack_id && not (is_some r.result_ref)) ≡ false
  pub result_kept : is_some r.encrypted_result ≡ (is_some r.result_ref && not (is_some r.ack_id))
  pub retention_set : is_some r.result_expires_at ≡ is_some r.result_ref
  pub owner_set : is_some r.owner_did ≡ is_some r.result_ref
  pub time_set : is_some r.acknowledged_at ≡ is_some r.ack_id

-- What a row keeps for good: what was registered, and from then on the time of its denial, all that
-- the approval wrote but the result, and the id of its acknowledgement, whose time may move.
pub record Evolves (r s : ApprovalRequestRecord) : Type 0 where
  pub same_id : r.id ≡ s.id
  pub same_cid : r.body_cid ≡ s.body_cid
  pub same_issuer : r.issuer ≡ s.issuer
  pub same_request : r.request ≡ s.request
  pub same_expiry : r.expires_at ≡ s.expires_at
  pub same_creation : r.created_at ≡ s.created_at
  pub stays_denied :
      (r.denied_at ≡ none) ⊎ ((s.denied_at ≡ r.denied_at) × (s.result_ref ≡ r.result_ref))
  pub stays_approved :
      (r.result_ref ≡ none)
      ⊎ ((s.result_ref ≡ r.result_ref)
          × (s.denied_at ≡ r.denied_at)
          × (s.approved_by_user_id ≡ r.approved_by_user_id)
          × (s.owner_did ≡ r.owner_did)
          × (s.delegation_expires_at ≡ r.delegation_expires_at)
          × (s.result_expires_at ≡ r.result_expires_at))
  pub stays_acknowledged :
      (r.ack_id ≡ none)
      ⊎ ((s.ack_id ≡ r.ack_id) × (is_some s.acknowledged_at ≡ true) × (s.encrypted_result ≡ none))
  pub result_stays :
      (r.encrypted_result ≡ none)
      ⊎ ((s.encrypted_result ≡ r.encrypted_result) ⊎ (is_some s.ack_id ≡ true))

abbrev pub row :
    (ApprovalRequestRecord → Bool)
    → (ApprovalRequestRecord → ApprovalRequestRecord)
    → ApprovalRequestRecord
    → ApprovalRequestRecord
row matches change r = if matches r then change r else r

pub equals-some : (o : Option String) (s : String) → equals o s ≡ true → o ≡ some s
equals-some none s h = cc
equals-some (some t) s h = ground (arith, eq_iff t s)

-- A change of a row keeps it well formed and what it has for good.
abbrev pub Keeps : (ApprovalRequestRecord → ApprovalRequestRecord) → Type 0
Keeps change = (r : ApprovalRequestRecord) → IsWell r → IsWell (change r) × Evolves r (change r)

pub approve_row-Keeps :
    (id : String) (i : ApprovedResult) (now : ℕ) → Keeps (row (is_open id now) (set_approved i))
approve_row-Keeps id i now r w = (ground arith, ground arith)

pub acknowledge_row-Keeps :
    (ref ack_id : String) (now1 now : ℕ)
    → Keeps (row (can_acknowledge ref ack_id now1) (set_acknowledged ack_id now))
acknowledge_row-Keeps ref ack_id now1 now r w =
    (ground arith, ground (arith, equals-some r.ack_id ack_id))

pub deny_row-Keeps : (id : String) (now : ℕ) → Keeps (row (is_open id now) (set_denied now))
deny_row-Keeps id now r w = (ground arith, ground arith)

-- The look-ups after a change that keeps ids, and after one that keeps references.
module _ (matches : ApprovalRequestRecord → Bool)
    (change : ApprovalRequestRecord → ApprovalRequestRecord) where
  pub find_by_id-update_many :
      (id : String) (t : Table)
      → ((r : ApprovalRequestRecord) → (change r).id ≡ r.id)
      → find_by_id id (update_many matches change t)
        ≡ Option.map (row matches change) (find_by_id id t)
  unfolding find_by_id update_many
  find_by_id-update_many id [] k = refl
  find_by_id-update_many id (r ∷ t) k = ground (arith, k r, find_by_id-update_many id t k)

  pub find_by_result_ref-update_many :
      (ref : String) (t : Table)
      → ((r : ApprovalRequestRecord) → (change r).result_ref ≡ r.result_ref)
      → find_by_result_ref ref (update_many matches change t)
        ≡ Option.map (row matches change) (find_by_result_ref ref t)
  unfolding find_by_result_ref update_many
  find_by_result_ref-update_many ref [] k = refl
  find_by_result_ref-update_many ref (r ∷ t) k =
      ground (arith, k r, find_by_result_ref-update_many ref t k)

  pub All-update_many :
      (t : Table)
      → ((r : ApprovalRequestRecord) → IsWell r → IsWell (row matches change r))
      → All IsWell t
      → All IsWell (update_many matches change t)
  unfolding update_many
  All-update_many [] k h = tt
  All-update_many (r ∷ t) k h = (k r h.0, All-update_many t k h.1)

-- A reference that is in use keeps its row when another one is approved.
pub find_by_result_ref-approve :
    (id : String) (i : ApprovedResult) (now : ℕ) (ref : String) (t : Table)
    (r : ApprovalRequestRecord)
    → (i.result_ref == ref) ≡ false
    → find_by_result_ref ref t ≡ some r
    → find_by_result_ref ref (update_many (is_open id now) (set_approved i) t) ≡ some r
unfolding find_by_result_ref update_many
find_by_result_ref-approve id i now ref [] r k e = cc
find_by_result_ref-approve id i now ref (q ∷ t) r k e =
    ground (arith, equals-some q.result_ref ref, find_by_result_ref-approve id i now ref t r k)
