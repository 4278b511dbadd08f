-- ===== src/Approvals/System/Approved.antt =====
-- What an approval that was written promises of every later history.
use mathlib.Core.Option
use mathlib.Core.Path.{subst}
use openkey.Common.{
  ℕ, ◌<◌, String, ◌≡◌, refl, sym, ap, ◌∙◌, true, false, inl, inr, Option, none, some, [], ◌∷◌,
  arith, eq_iff, eq_refl, is_some, find, count, nat_eq, Bool-cases, Option-cases,
}
use openkey.Common.Results.{ok, err}
use openkey.Approvals.Types.{ApprovalRequestRecord, ApprovalResultError, ApprovalPlatform, Options}
use openkey.Approvals.Store
use openkey.Approvals.Store.{
  Table, find_by_id, find_by_result_ref, update_many, is_open, set_approved, set_denied,
  ApprovedResult, equals,
}
use openkey.Approvals.Store.Laws.{row, find_by_id-update_many, Evolves}
use openkey.Approvals.Store.Unique.{IsUnique, has_id, has_ref, find_unique, count_unique, open→id}
use openkey.Approvals.Service.{authenticate, fetch}
use openkey.Approvals.Service.Results.{Link, deny, fetch_result}
use openkey.Approvals.Service.Results.Denials.{deny-approved}
use openkey.Approvals.Service.Results.Laws.{fetch_result-ok}
use openkey.Approvals.Service.Approve.{approve_commit}
use openkey.Approvals.System.{
  Reach, Reach-trans, start_here, next, approves, Reach-Follows, Reach-IsUnique, empty-IsUnique,
}

module _ (p : ApprovalPlatform) (o : Options) where
  approve_commit-Step :
      (now : ℕ) (id : String) (i : ApprovedResult) (t u : Table)
      → approve_commit p o now id i t ≡ (u, ok tt)
      → Store.approve id i now t ≡ some (u, true)
  unfolding approve_commit
  approve_commit-Step now id i t u e = elim (Option-cases (Store.approve id i now t)) [
    | inl broken ↦ absurd (ground arith)
    | inr ((v, done), written) ↦ ground arith
  ]

-- The reference that an approval draws leads to the row that it approved.
find_by_result_ref-approved :
    (id : String) (i : ApprovedResult) (now : ℕ) (t : Table) (r : ApprovalRequestRecord)
    → find (is_open id now) t ≡ some r
    → find (has_ref i.result_ref) t ≡ none
    → find (has_ref i.result_ref) (update_many (is_open id now) (set_approved i) t)
      ≡ some (set_approved i r)
unfolding update_many
find_by_result_ref-approved id i now [] r e k = cc
find_by_result_ref-approved id i now (q ∷ t) r e k =
    ground (arith, eq_refl i.result_ref, find_by_result_ref-approved id i now t r)

approve-found :
    (id : String) (i : ApprovedResult) (now : ℕ) (t u : Table)
    → Store.approve id i now t ≡ some (u, true)
    → (r : ApprovalRequestRecord) × (r.id ≡ id)
      × (find_by_result_ref i.result_ref u ≡ some (set_approved i r))
unfolding Store.approve find_by_result_ref
approve-found id i now t u e = elim (Bool-cases (nat_eq (count (is_open id now) t) 1)) [
  | inr other ↦ absurd (ground arith)
  | inl one ↦ elim (Option-cases (find (has_ref i.result_ref) t)) [
    | inr (q, used) ↦ absurd (ground arith)
    | inl unused ↦
        let (r, found, open_) =
          find_unique (is_open id now) (is_open id now) (λ q h. h) t (ground arith)
            (ground arith) in
        let same : update_many (is_open id now) (set_approved i) t ≡ u = ground arith in
        (
          r,
          ground (arith, eq_iff r.id id),
          subst (λ x. find (has_ref i.result_ref) x ≡ some (set_approved i r)) same
              (find_by_result_ref-approved id i now t r found unused),
        )
  ]
]

-- Once an approval is written, whatever happens to the table, the result is fetched as it was
-- written by an authentic request that names the reference, the id and the digest, until the
-- retention ends or the result is acknowledged.
pub fetch_result-approve_commit :
    (p : ApprovalPlatform) (o : Options) (now1 now2 now3 : ℕ) (id : String) (i : ApprovedResult)
    (proof : Option String) (t u v : Table) (s : ApprovalRequestRecord)
    → Reach [] t
    → approve_commit p o now1 id i t ≡ (u, ok tt)
    → Reach u v
    → find_by_result_ref i.result_ref v ≡ some s
    → s.ack_id ≡ none
    → authenticate p o now2 s fetch proof i.result_ref "" ≡ ok tt
    → now3 < i.result_expires_at
    → fetch_result p o now2 now3 i.result_ref
        (record { request_id = id; body_cid = s.body_cid })
        proof
        v
      ≡ ok (record {
        relay = i.encrypted_result;
        request_id = id;
        body_cid = s.body_cid;
        result_ref = i.result_ref;
        expires_at = some i.result_expires_at;
      })
fetch_result-approve_commit p o now1 now2 now3 id i proof t u v s start done rest found unacked
      authentic due =
    let written = approve_commit-Step p o now1 id i t u done in
    let start' = Reach-trans start (next start_here (approves id i now1 true written)) in
    let (r, same_id, found_r) = approve-found id i now1 t u written in
    let (q, found_q, v_) =
      (Reach-Follows (Reach-Follows tt start').well rest).by_ref i.result_ref (set_approved i r)
        found_r in
    let same : q ≡ s = cc (found_q, found) in
    let evolved : Evolves (set_approved i r) s =
      subst (λ x. Evolves (set_approved i r) x) same v_ in
    let until : s.result_expires_at ≡ some i.result_expires_at =
      ground (arith, evolved.stays_approved) in
    let kept : s.encrypted_result ≡ some i.encrypted_result =
      ground (arith, evolved.result_stays) in
    let named : s.id ≡ id = sym evolved.same_id ∙ same_id in
    fetch_result-ok p o now2 now3 i.result_ref (record { request_id = id; body_cid = s.body_cid })
      proof v s i.encrypted_result i.result_expires_at found named refl authentic until due unacked
      kept
    ∙ ground arith

approve-found_by_id :
    (id : String) (i : ApprovedResult) (now : ℕ) (t u : Table)
    → IsUnique t
    → Store.approve id i now t ≡ some (u, true)
    → (r : ApprovalRequestRecord) × (r.denied_at ≡ none)
      × (find_by_id id u ≡ some (set_approved i r))
unfolding Store.approve find_by_id
approve-found_by_id id i now t u k e =
    elim (Bool-cases (is_some (find_by_result_ref i.result_ref t))) [
      | inl used ↦ absurd (ground arith)
      | inr unused ↦
          let (r, found, open_) =
            find_unique (has_id id) (is_open id now) (open→id id now) t (k.ids id) (ground arith) in
          let same : update_many (is_open id now) (set_approved i) t ≡ u = ground arith in
          (
            r,
            ground arith,
            subst (λ x. find (has_id id) x ≡ some (set_approved i r)) same
                (find_by_id-update_many (is_open id now) (set_approved i) id t (λ q. refl)
                  ∙ ap (Option.map (row (is_open id now) (set_approved i))) found
                  ∙ rw open_ refl),
          )
    ]

-- Once an approval is written, whatever happens to the table, a denial of the request is refused
-- and changes nothing, and no second approval is written for it.
pub approve_commit_is_final :
    (p : ApprovalPlatform) (o : Options) (now later : ℕ) (id : String) (i j : ApprovedResult)
    (link : Link) (t u v : Table)
    → Reach [] t
    → approve_commit p o now id i t ≡ (u, ok tt)
    → Reach u v
    → (e : ApprovalResultError) × (deny later id link v ≡ (v, err e))
      × (Store.approve id j later v ≡ some (v, false))
unfolding Store.approve find_by_id
approve_commit_is_final p o now later id i j link t u v start done rest =
    let written = approve_commit-Step p o now id i t u done in
    let start' = Reach-trans start (next start_here (approves id i now true written)) in
    let (r, not_denied, found) =
      approve-found_by_id id i now t u (Reach-IsUnique empty-IsUnique start) written in
    let (s, found', evolved) =
      (Reach-Follows (Reach-Follows tt start').well rest).by_id id (set_approved i r) found in
    let approved : is_some s.result_ref ≡ true = ground (arith, evolved.stays_approved) in
    let kept : s.denied_at ≡ none = ground (arith, evolved.stays_approved) in
    let closed : is_open id later s ≡ false = ground arith in
    let none_open =
      count_unique (has_id id) (is_open id later) (open→id id later) v s
        ((Reach-IsUnique empty-IsUnique (Reach-trans start' rest)).ids id) found' closed in
    let (e, refused) = deny-approved id later v s link none_open found' kept approved in
    (e, refused, rw none_open refl)
