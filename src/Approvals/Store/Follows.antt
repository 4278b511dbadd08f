-- ===== src/Approvals/Store/Follows.antt =====
-- What one table keeps of another, through each statement of the store.
use mathlib.Core.Option
use mathlib.Core.Path.{subst}
use openkey.Common.{
  ℕ, String, ◌≡◌, refl, ap, ◌∙◌, Bool, false, inl, inr, none, some, [], ◌∷◌, ◌++◌, ◌==◌, arith,
  eq_iff, All, All-Has, find-Has, find, count, nat_eq, Bool-cases, Option-cases,
}
use openkey.Approvals.Types.{ApprovalRequest, ApprovalRequestRecord}
use openkey.Approvals.Store.{
  Table, equals, find_by_id, find_by_result_ref, update_many, is_open, can_acknowledge,
  set_approved, set_acknowledged, set_denied, ApprovedResult, new_request, register, upsert,
  approve, acknowledge, deny,
}
use openkey.Approvals.Store.Laws.{
  IsWell, Evolves, Keeps, row, approve_row-Keeps, acknowledge_row-Keeps, deny_row-Keeps,
  find_by_id-update_many, find_by_result_ref-update_many, All-update_many,
  find_by_result_ref-approve,
}

pub Evolves-refl : (r : ApprovalRequestRecord) → IsWell r → Evolves r r
Evolves-refl r w = ground arith

pub Evolves-trans : (r s u : ApprovalRequestRecord) → Evolves r s → Evolves s u → Evolves r u
Evolves-trans r s u a b = record {
  same_id = ground arith;
  same_cid = ground arith;
  same_issuer = ground arith;
  same_request = ground arith;
  same_expiry = ground arith;
  same_creation = ground arith;
  stays_denied = ground arith;
  stays_approved = ground arith;
  stays_acknowledged = ground arith;
  result_stays = ground arith;
}

-- The rows are well formed, and each look-up that found a row finds it again, as it evolved.
pub record Follows (t u : Table) : Type 0 where
  pub well : All IsWell u
  pub by_id :
      (id : String) (r : ApprovalRequestRecord)
      → find_by_id id t ≡ some r
      → (s : ApprovalRequestRecord) × (find_by_id id u ≡ some s) × Evolves r s
  pub by_ref :
      (ref : String) (r : ApprovalRequestRecord)
      → find_by_result_ref ref t ≡ some r
      → (s : ApprovalRequestRecord) × (find_by_result_ref ref u ≡ some s) × Evolves r s

find_by_id-IsWell :
    (id : String) (t : Table) (r : ApprovalRequestRecord)
    → All IsWell t
    → find_by_id id t ≡ some r
    → IsWell r
unfolding find_by_id
find_by_id-IsWell id t r h e = All-Has IsWell t h (find-Has (λ q. q.id == id) t r e).1

find_by_result_ref-IsWell :
    (ref : String) (t : Table) (r : ApprovalRequestRecord)
    → All IsWell t
    → find_by_result_ref ref t ≡ some r
    → IsWell r
unfolding find_by_result_ref
find_by_result_ref-IsWell ref t r h e =
    All-Has IsWell t h (find-Has (λ q. equals q.result_ref ref) t r e).1

pub Follows-refl : (t : Table) → All IsWell t → Follows t t
Follows-refl t h = record {
  well = h;
  by_id = λ id r e. (r, e, Evolves-refl r (find_by_id-IsWell id t r h e));
  by_ref = λ ref r e. (r, e, Evolves-refl r (find_by_result_ref-IsWell ref t r h e));
}

pub Follows-trans : (t u v : Table) → Follows t u → Follows u v → Follows t v
Follows-trans t u v a b = record {
  well = b.well;
  by_id = λ id r e.
      let (s, f, one) = a.by_id id r e in
      let (q, g, two) = b.by_id id s f in (q, g, Evolves-trans r s q one two);
  by_ref = λ ref r e.
      let (s, f, one) = a.by_ref ref r e in
      let (q, g, two) = b.by_ref ref s f in (q, g, Evolves-trans r s q one two);
}

-- A statement that keeps ids and references.
update_many-Follows :
    (matches : ApprovalRequestRecord → Bool)
    (change : ApprovalRequestRecord → ApprovalRequestRecord) (t : Table)
    → Keeps (row matches change)
    → ((r : ApprovalRequestRecord) → (change r).id ≡ r.id)
    → ((r : ApprovalRequestRecord) → (change r).result_ref ≡ r.result_ref)
    → All IsWell t
    → Follows t (update_many matches change t)
update_many-Follows matches change t keeps ids refs h = record {
  well = All-update_many matches change t (λ r w. (keeps r w).0) h;
  by_id = λ id r e. (
    row matches change r,
    find_by_id-update_many matches change id t ids ∙ ap (Option.map (row matches change)) e,
    (keeps r (find_by_id-IsWell id t r h e)).1,
  );
  by_ref = λ ref r e. (
    row matches change r,
    find_by_result_ref-update_many matches change ref t refs
        ∙ ap (Option.map (row matches change)) e,
    (keeps r (find_by_result_ref-IsWell ref t r h e)).1,
  );
}

pub deny-Follows : (id : String) (now : ℕ) (t : Table) → All IsWell t → Follows t (deny id now t).0
unfolding deny
deny-Follows id now t h =
    update_many-Follows (is_open id now) (set_denied now) t (deny_row-Keeps id now) (λ r. refl)
      (λ r. refl) h

pub acknowledge-Follows :
    (ref ack_id : String) (now : ℕ) (t : Table)
    → All IsWell t
    → Follows t (acknowledge ref ack_id now t).0
unfolding acknowledge
acknowledge-Follows ref ack_id now t h =
    let moved =
      update_many-Follows (can_acknowledge ref ack_id now) (set_acknowledged ack_id now) t
        (acknowledge_row-Keeps ref ack_id now now) (λ r. refl) (λ r. refl) h in
    elim (Bool-cases (nat_eq (count (can_acknowledge ref ack_id now) t) 1)) [
      | inl one ↦ rw one moved
      | inr other ↦ rw other moved
    ]

approve_rows-Follows :
    (id : String) (i : ApprovedResult) (now : ℕ) (t : Table)
    → find_by_result_ref i.result_ref t ≡ none
    → All IsWell t
    → Follows t (update_many (is_open id now) (set_approved i) t)
approve_rows-Follows id i now t unused h = record {
  well =
      All-update_many (is_open id now) (set_approved i) t
        (λ r w. (approve_row-Keeps id i now r w).0) h;
  by_id = λ id' r e. (
    row (is_open id now) (set_approved i) r,
    find_by_id-update_many (is_open id now) (set_approved i) id' t (λ q. refl)
        ∙ ap (Option.map (row (is_open id now) (set_approved i))) e,
    (approve_row-Keeps id i now r (find_by_id-IsWell id' t r h e)).1,
  );
  by_ref = λ ref r e.
      let other : (i.result_ref == ref) ≡ false = ground (arith, eq_iff i.result_ref ref) in
      (
        r,
        find_by_result_ref-approve id i now ref t r other e,
        Evolves-refl r (find_by_result_ref-IsWell ref t r h e),
      );
}

pub approve-Follows :
    (id : String) (i : ApprovedResult) (now : ℕ) (t u : Table) (done : Bool)
    → All IsWell t
    → approve id i now t ≡ some (u, done)
    → Follows t u
unfolding approve
approve-Follows id i now t u done h e = elim (Bool-cases (nat_eq (count (is_open id now) t) 0)) [
  | inl nothing ↦
      let same : t ≡ u = ground arith in subst (λ x. Follows t x) same (Follows-refl t h)
  | inr something ↦ elim (Option-cases (find_by_result_ref i.result_ref t)) [
    | inr (r, used) ↦ absurd (ground arith)
    | inl unused ↦
        let same : update_many (is_open id now) (set_approved i) t ≡ u = ground arith in
        subst (λ x. Follows t x) same (approve_rows-Follows id i now t unused h)
  ]
]

find-append :
    (p : ApprovalRequestRecord → Bool) (t : Table) (q r : ApprovalRequestRecord)
    → find p t ≡ some r
    → find p (t ++ q ∷ []) ≡ some r
find-append p [] q r e = cc
find-append p (s ∷ t) q r e = ground (arith, find-append p t q r)

All-append_one :
    (t : Table) (q : ApprovalRequestRecord) → All IsWell t → IsWell q → All IsWell (t ++ q ∷ [])
All-append_one [] q h w = (w, tt)
All-append_one (r ∷ t) q h w = (h.0, All-append_one t q h.1 w)

append-Follows :
    (t : Table) (q : ApprovalRequestRecord) → All IsWell t → IsWell q → Follows t (t ++ q ∷ [])
unfolding find_by_id find_by_result_ref
append-Follows t q h w = record {
  well = All-append_one t q h w;
  by_id = λ id r e.
      (r, find-append (λ s. s.id == id) t q r e, Evolves-refl r (find_by_id-IsWell id t r h e));
  by_ref = λ ref r e. (
    r,
    find-append (λ s. equals s.result_ref ref) t q r e,
    Evolves-refl r (find_by_result_ref-IsWell ref t r h e),
  );
}

new_request-IsWell :
    (id body_cid issuer : String) (request : ApprovalRequest) (expires_at now : ℕ)
    → IsWell (new_request id body_cid issuer request expires_at now)
new_request-IsWell id body_cid issuer request expires_at now = ground arith

pub register_table : (q : ApprovalRequestRecord) (t : Table) → (register q t).0 ≡ (upsert q t).1
unfolding register
register_table q t = ground arith

pub register-Follows :
    (id body_cid issuer : String) (request : ApprovalRequest) (expires_at now : ℕ) (t : Table)
    → All IsWell t
    → Follows t (register (new_request id body_cid issuer request expires_at now) t).0
unfolding upsert
register-Follows id body_cid issuer request expires_at now t h =
    let q = new_request id body_cid issuer request expires_at now in
    rw (register_table q t) (elim (Option-cases (find_by_id id t)) [
      | inr (r, saved) ↦ rw (saved, upsert) (Follows-refl t h)
      | inl fresh ↦
          rw (fresh, upsert)
            (append-Follows t q h (new_request-IsWell id body_cid issuer request expires_at now))
    ])
