-- ===== src/Approvals/Service/Results/Denials.antt =====
-- What `deny` leaves: a request that is declined, or the table as it was.
use mathlib.Core.Option
use mathlib.Core.Path.{subst}
use openkey.Common.{
  ℕ, String, ◌≡◌, refl, ap, ◌∙◌, Bool, true, not, ◌||◌, inl, inr, Option, none, some, [], ◌∷◌, ◌==◌,
  arith, is_some, count, Bool-cases, Option-cases,
}
use openkey.Common.Results.{ok, err}
use openkey.Approvals.Types.{
  ApprovalRequestRecord, ApprovalResultError, approval_error, link_required, already_approved,
}
use openkey.Approvals.Store
use openkey.Approvals.Store.{
  Table, find_by_id, find_by_result_ref, update_many, is_open, can_acknowledge, set_approved,
  set_acknowledged, set_denied, ApprovedResult, equals, after,
}
use openkey.Approvals.Store.Laws.{row, find_by_id-update_many}
use openkey.Approvals.Store.Unique.{IsUnique, has_id, find_unique, open→id}
use openkey.Approvals.Service.Results.{Link, deny, settled}

-- The row of the id is denied.
abbrev pub IsDenied : String → Table → Type 0
IsDenied id t =
    (d : ℕ) × (r : ApprovalRequestRecord) × (find_by_id id t ≡ some r) × (r.denied_at ≡ some d)

store_deny-IsDenied :
    (id : String) (now : ℕ) (t : Table)
    → IsUnique t
    → (Store.deny id now t).1 ≡ true
    → IsDenied id (Store.deny id now t).0
unfolding Store.deny find_by_id
store_deny-IsDenied id now t u e =
    let (r, found, open_) =
      find_unique (has_id id) (is_open id now) (open→id id now) t (u.ids id) (ground arith) in
    (
      now,
      set_denied now r,
      find_by_id-update_many (is_open id now) (set_denied now) id t (λ q. refl)
          ∙ ap (Option.map (row (is_open id now) (set_denied now))) found
          ∙ rw open_ refl,
      refl,
    )

settled-IsDenied :
    (o : Option ApprovalRequestRecord)
    → settled o ≡ ok tt
    → (d : ℕ) × (r : ApprovalRequestRecord) × (o ≡ some r) × (r.denied_at ≡ some d)
unfolding settled
settled-IsDenied none e = cc
settled-IsDenied (some r) e = elim (Option-cases r.denied_at) [
  | inl not_denied ↦ absurd (ground arith)
  | inr (d, denied) ↦ (d, r, refl, denied)
]

pub deny-IsDenied :
    (now : ℕ) (id : String) (link : Link) (t t' : Table)
    → IsUnique t
    → deny now id link t ≡ (t', ok tt)
    → IsDenied id t'
unfolding deny
deny-IsDenied now id link t t' u e = elim (Option-cases (find_by_id id t)) [
  | inl missing ↦ absurd (cc (rw (missing, deny) at e))
  | inr (r, found) ↦
      elim (Bool-cases (not (r.body_cid == link.body_cid) || not (r.issuer == link.issuer))) [
        | inl other ↦ absurd (ground arith)
        | inr same_link ↦ elim (Bool-cases (Store.deny id now t).1) [
          | inl done ↦
              let same : (Store.deny id now t).0 ≡ t' = ground arith in
              subst (IsDenied id) same (store_deny-IsDenied id now t u done)
          | inr undone ↦
              let same : (Store.deny id now t).0 ≡ t' = ground arith in
              let answer : settled (find_by_id id (Store.deny id now t).0) ≡ ok tt = ground arith in
              subst (IsDenied id) same
                (settled-IsDenied (find_by_id id (Store.deny id now t).0) answer)
        ]
      ]
]

-- A statement whose guard no row passes changes nothing.
update_many-none :
    (matches : ApprovalRequestRecord → Bool)
    (change : ApprovalRequestRecord → ApprovalRequestRecord) (t : Table)
    → count matches t ≡ 0
    → update_many matches change t ≡ t
unfolding update_many
update_many-none matches change [] e = refl
update_many-none matches change (r ∷ t) e = ground (arith, update_many-none matches change t)

module _ (id : String) (later : ℕ) (v : Table) (s : ApprovalRequestRecord) where
  pub deny-approved :
      (link : Link)
      → count (is_open id later) v ≡ 0
      → find_by_id id v ≡ some s
      → s.denied_at ≡ none
      → is_some s.result_ref ≡ true
      → (e : ApprovalResultError) × (deny later id link v ≡ (v, err e))
  unfolding deny Store.deny settled
  deny-approved link none_open found not_denied approved =
      let kept = update_many-none (is_open id later) (set_denied later) v none_open in
      elim (Bool-cases (not (s.body_cid == link.body_cid) || not (s.issuer == link.issuer))) [
        | inl other ↦ (approval_error link_required 403, rw (found, deny) (rw other refl))
        | inr same_link ↦ (
          approval_error already_approved 409,
          rw (found, deny)
              (rw (same_link, none_open) (rw (kept, found) (rw (not_denied, approved) refl))),
        )
      ]
