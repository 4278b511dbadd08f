-- ===== src/Approvals/System.antt =====
-- Histories of the table: any sequence of the store's statements, each a transaction of its own, with
-- any arguments. Whatever service methods run at once, the table goes through such a history.
pub mod Results
pub mod Approved
use openkey.Common.{ℕ, String, ◌≡◌, Bool, some, none, List, [], All, arith}
use openkey.Approvals.Types.{ApprovalRequest, ApprovalRequestRecord}
use openkey.Approvals.Store.{
  Table, find_by_id, ApprovedResult, new_request, register, approve, acknowledge, deny,
}
use openkey.Approvals.Store.Laws.{IsWell, Evolves}
use openkey.Approvals.Store.Follows.{
  Follows, Follows-refl, Follows-trans, register-Follows, approve-Follows, deny-Follows,
  acknowledge-Follows,
}
use openkey.Approvals.Store.Unique.{
  IsUnique, register-IsUnique, approve-IsUnique, deny-IsUnique, acknowledge-IsUnique,
}
use mathlib.Core.Path.{subst}

pub data Step (t u : Table) : Type 0 where
  registers :
      (id body_cid issuer : String) (request : ApprovalRequest) (expires_at now : ℕ)
      → (register (new_request id body_cid issuer request expires_at now) t).0 ≡ u
      → Step t u
  approves :
      (id : String) (result : ApprovedResult) (now : ℕ) (done : Bool)
      → approve id result now t ≡ some (u, done)
      → Step t u
  denies : (id : String) (now : ℕ) → (deny id now t).0 ≡ u → Step t u
  acknowledges : (ref ack_id : String) (now : ℕ) → (acknowledge ref ack_id now t).0 ≡ u → Step t u

pub data Reach (t : Table) : Table → Type 0 where
  start_here : Reach t t
  next : {u v : Table} → Reach t u → Step u v → Reach t v

pub Reach-trans : {t u v : Table} → Reach t u → Reach u v → Reach t v
Reach-trans a start_here = a
Reach-trans a (next r s) = next (Reach-trans a r) s

Step-Follows : {t u : Table} → Step t u → All IsWell t → Follows t u
Step-Follows {t} (registers id body_cid issuer request expires_at now e) h =
    subst (λ x. Follows t x) e (register-Follows id body_cid issuer request expires_at now t h)
Step-Follows {t} {u} (approves id result now done e) h = approve-Follows id result now t u done h e
Step-Follows {t} (denies id now e) h = subst (λ x. Follows t x) e (deny-Follows id now t h)
Step-Follows {t} (acknowledges ref ack_id now e) h =
    subst (λ x. Follows t x) e (acknowledge-Follows ref ack_id now t h)

Step-IsUnique : {t u : Table} → Step t u → IsUnique t → IsUnique u
Step-IsUnique {t} (registers id body_cid issuer request expires_at now e) h =
    subst IsUnique e (register-IsUnique id body_cid issuer request expires_at now t h)
Step-IsUnique {t} {u} (approves id result now done e) h =
    approve-IsUnique id result now t u done h e
Step-IsUnique {t} (denies id now e) h = subst IsUnique e (deny-IsUnique id now t h)
Step-IsUnique {t} (acknowledges ref ack_id now e) h =
    subst IsUnique e (acknowledge-IsUnique ref ack_id now t h)

pub Reach-Follows : {t u : Table} → All IsWell t → Reach t u → Follows t u
Reach-Follows {t} h start_here = Follows-refl t h
Reach-Follows {t} h (next {u} {v} r s) =
    let first = Reach-Follows h r in Follows-trans t u v first (Step-Follows s first.well)

pub Reach-IsUnique : {t u : Table} → IsUnique t → Reach t u → IsUnique u
Reach-IsUnique h start_here = h
Reach-IsUnique h (next r s) = Step-IsUnique s (Reach-IsUnique h r)

pub empty-IsUnique : IsUnique []
empty-IsUnique = record { ids = λ id. omega arith; refs = λ ref. omega arith }

abbrev pub IsConsistent : Table → Type 0
IsConsistent t = IsUnique t × All IsWell t

-- After any history from an empty table, ids and result references are unique and every row is well
-- formed: denied or approved but never both, with its result there from the approval to the
-- acknowledgement.
pub Reach-IsConsistent : (t : Table) → Reach [] t → IsConsistent t
Reach-IsConsistent t r = (Reach-IsUnique empty-IsUnique r, (Reach-Follows tt r).well)

-- Whatever is done to the table, a request that is registered stays, with what was registered. Once
-- it has them, it keeps the time of its denial, the reference, approver, owner and expiries of its
-- approval, the id of its acknowledgement, with some time of it, and the result up to the
-- acknowledgement.
pub Reach-Evolves :
    (id : String) (t u : Table) (r : ApprovalRequestRecord)
    → Reach [] t
    → find_by_id id t ≡ some r
    → Reach t u
    → (s : ApprovalRequestRecord) × (find_by_id id u ≡ some s) × Evolves r s
Reach-Evolves id t u r start e later =
    (Reach-Follows (Reach-Follows tt start).well later).by_id id r e
