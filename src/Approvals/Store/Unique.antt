-- ===== src/Approvals/Store/Unique.antt =====
-- Ids and references are unique in the table, and so a statement changes the row that is looked up.
use openkey.Common.{
  ℕ, ◌+◌, ◌≤◌, ◌<◌, String, ◌≡◌, refl, sym, ap, Bool, true, false, inl, inr, Option, none, some, [],
  ◌∷◌, ◌==◌, arith, eq_iff, if◌then◌else◌, find, count, count-append, nat_eq, Bool-cases,
  Option-cases,
}
use mathlib.Core.Path.{subst}
use openkey.Approvals.Types.{ApprovalRequest, ApprovalRequestRecord}
use openkey.Approvals.Store.{
  Table, equals, find_by_id, find_by_result_ref, update_many, is_open, can_acknowledge,
  set_approved, set_acknowledged, set_denied, ApprovedResult, new_request, register, upsert,
  approve, acknowledge, deny,
}
use openkey.Approvals.Store.Laws.{equals-some}
use openkey.Approvals.Store.Follows.{register_table}

abbrev pub has_id : String → ApprovalRequestRecord → Bool
has_id id r = r.id == id

abbrev pub has_ref : String → ApprovalRequestRecord → Bool
has_ref ref r = equals r.result_ref ref

pub record IsUnique (t : Table) : Type 0 where
  pub ids : (id : String) → count (has_id id) t ≤ 1
  pub refs : (ref : String) → count (has_ref ref) t ≤ 1

module _ (test : ApprovalRequestRecord → Bool) where
  count-none : (t : Table) → find test t ≡ none → count test t ≡ 0
  count-none [] e = refl
  count-none (r ∷ t) e = ground (arith, count-none t)

  -- A change that keeps the test.
  count-update_many :
      (matches : ApprovalRequestRecord → Bool)
      (change : ApprovalRequestRecord → ApprovalRequestRecord) (t : Table)
      → ((r : ApprovalRequestRecord) → test (change r) ≡ test r)
      → count test (update_many matches change t) ≡ count test t
  unfolding update_many
  count-update_many matches change [] k = refl
  count-update_many matches change (r ∷ t) k =
      ground (arith, k r, count-update_many matches change t k)

-- If one of the rows that are unique by the first test passes the second, it is the one found.
module _ (key test : ApprovalRequestRecord → Bool)
    (within : (r : ApprovalRequestRecord) → test r ≡ true → key r ≡ true) where
  count-le-count : (t : Table) → count test t ≤ count key t
  count-le-count [] = omega arith
  count-le-count (r ∷ t) = ground (arith, within r, count-le-count t)

  pub find_unique :
      (t : Table)
      → count key t ≤ 1
      → 0 < count test t
      → (r : ApprovalRequestRecord) × (find key t ≡ some r) × (test r ≡ true)
  find_unique [] u e = absurd (omega arith)
  find_unique (r ∷ t) u e = elim (Bool-cases (key r)) [
    | inl hit ↦ (r, rw hit refl, ground (arith, count-le-count t))
    | inr miss ↦
        let out : test r ≡ false = ground (arith, within r) in
        let (s, found, passes) = find_unique t (rw miss at u) (rw out at e) in
        (s, rw miss found, passes)
  ]

  pub count_unique :
      (t : Table) (r : ApprovalRequestRecord)
      → count key t ≤ 1
      → find key t ≡ some r
      → test r ≡ false
      → count test t ≡ 0
  count_unique [] r u e k = refl
  count_unique (q ∷ t) r u e k = elim (Bool-cases (key q)) [
    | inl hit ↦
        let same : q ≡ r = ground arith in
        let out : test q ≡ false = subst (λ x. test x ≡ false) (sym same) k in
        ground (arith, count-le-count t)
    | inr miss ↦
        let out : test q ≡ false = ground (arith, within q) in
        rw out (count_unique t r (rw miss at u) (rw miss at e) k)
  ]

pub open→id :
    (id : String) (now : ℕ) (r : ApprovalRequestRecord)
    → is_open id now r ≡ true
    → has_id id r ≡ true
open→id id now r h = ground arith

update_many-IsUnique :
    (matches : ApprovalRequestRecord → Bool)
    (change : ApprovalRequestRecord → ApprovalRequestRecord) (t : Table)
    → ((r : ApprovalRequestRecord) → (change r).id ≡ r.id)
    → ((r : ApprovalRequestRecord) → (change r).result_ref ≡ r.result_ref)
    → IsUnique t
    → IsUnique (update_many matches change t)
update_many-IsUnique matches change t ids refs u = record {
  ids = λ id.
      rw
        (count-update_many (has_id id) matches change t (λ r. ap (λ (x : String). x == id) (ids r)))
        (u.ids id);
  refs = λ ref.
      rw
        (count-update_many (has_ref ref) matches change t
          (λ r. ap (λ (x : Option String). equals x ref) (refs r)))
        (u.refs ref);
}

pub deny-IsUnique : (id : String) (now : ℕ) (t : Table) → IsUnique t → IsUnique (deny id now t).0
unfolding deny
deny-IsUnique id now t u =
    update_many-IsUnique (is_open id now) (set_denied now) t (λ r. refl) (λ r. refl) u

pub acknowledge-IsUnique :
    (ref ack_id : String) (now : ℕ) (t : Table)
    → IsUnique t
    → IsUnique (acknowledge ref ack_id now t).0
unfolding acknowledge
acknowledge-IsUnique ref ack_id now t u =
    let kept =
      update_many-IsUnique (can_acknowledge ref ack_id now) (set_acknowledged ack_id now) t
        (λ r. refl) (λ r. refl) u in
    elim (Bool-cases (nat_eq (count (can_acknowledge ref ack_id now) t) 1)) [
      | inl one ↦ rw one kept
      | inr other ↦ rw other kept
    ]

-- An approval adds its reference to the rows that it changes, and to no other.
count_ref-approve :
    (id : String) (i : ApprovedResult) (now : ℕ) (ref : String) (t : Table)
    → count (has_ref ref) (update_many (is_open id now) (set_approved i) t)
      ≡ (if i.result_ref == ref then count (is_open id now) t else 0) + count (has_ref ref) t
unfolding update_many
count_ref-approve id i now ref [] = ground arith
count_ref-approve id i now ref (r ∷ t) =
    ground (arith, equals-some r.result_ref ref, count_ref-approve id i now ref t)

pub approve-IsUnique :
    (id : String) (i : ApprovedResult) (now : ℕ) (t u : Table) (done : Bool)
    → IsUnique t
    → approve id i now t ≡ some (u, done)
    → IsUnique u
unfolding approve find_by_result_ref
approve-IsUnique id i now t u done k e = elim (Bool-cases (nat_eq (count (is_open id now) t) 0)) [
  | inl nothing ↦ let same : t ≡ u = ground arith in subst IsUnique same k
  | inr something ↦ elim (Option-cases (find (has_ref i.result_ref) t)) [
    | inr (r, used) ↦ absurd (ground arith)
    | inl unused ↦
        let same : update_many (is_open id now) (set_approved i) t ≡ u = ground arith in
        subst IsUnique same (record {
          ids = λ id'.
              rw (count-update_many (has_id id') (is_open id now) (set_approved i) t (λ r. refl))
                (k.ids id');
          refs = λ ref. ground (
            arith,
            eq_iff i.result_ref ref,
            count_ref-approve id i now ref t,
            count-none (has_ref i.result_ref) t unused,
            count-le-count (has_id id) (is_open id now) (open→id id now) t,
            k.ids id,
            k.refs ref,
          );
        })
  ]
]

pub register-IsUnique :
    (id body_cid issuer : String) (request : ApprovalRequest) (expires_at now : ℕ) (t : Table)
    → IsUnique t
    → IsUnique (register (new_request id body_cid issuer request expires_at now) t).0
unfolding upsert find_by_id
register-IsUnique id body_cid issuer request expires_at now t u =
    let q = new_request id body_cid issuer request expires_at now in
    rw (register_table q t) (elim (Option-cases (find (has_id id) t)) [
      | inr (r, saved) ↦ rw (saved, upsert) u
      | inl fresh ↦
          rw (fresh, upsert)
            (record {
              ids = λ id'. ground (
                arith,
                eq_iff id id',
                count-append (has_id id') t (q ∷ []),
                count-none (has_id id) t fresh,
                u.ids id',
              );
              refs = λ ref. ground (arith, count-append (has_ref ref) t (q ∷ []), u.refs ref);
            })
    ])
