-- ===== src/Approvals/Service/Results/Laws.antt =====
-- What a acknowledged request is, and what `fetch` answers.
use mathlib.Core.Option
use mathlib.Core.Path.{subst}
use openkey.Common.{
  ℕ, ◌<◌, String, ◌≡◌, refl, ap, ◌∙◌, false, not, ◌||◌, inl, inr, Option, none, some, ◌==◌, arith,
  eq_iff, count, nat_eq, Bool-cases, Option-cases,
}
use openkey.Common.Results.{Result-cases, ok, err, ◌>>=◌, >>=-eq-ok, reject_if}
use openkey.Json.{Json}
use openkey.Device.Jwk.{text_of}
use openkey.Approvals.Types.{
  ApprovalRequestRecord, ApprovalResultError, approval_error, acknowledged, request_binding,
  expired_result, ApprovalPlatform, Options,
}
use openkey.Approvals.Store
use openkey.Approvals.Store.{
  Table, find_by_id, find_by_result_ref, update_many, is_open, can_acknowledge, set_approved,
  set_acknowledged, set_denied, ApprovedResult, equals, after,
}
use openkey.Approvals.Store.Laws.{row, find_by_result_ref-update_many}
use openkey.Approvals.Store.Unique.{IsUnique, has_ref, find_unique}
use openkey.Approvals.Service.Results.{
  ResultBody, fetch_result, result, fetched, acknowledge_result, acknowledged_by, is_ack_id,
}
use openkey.Approvals.Service.{authenticate, fetch, ack, Action}

-- The row of the reference is acknowledged, and its result is gone.
abbrev pub IsAcknowledged : String → Table → Type 0
IsAcknowledged ref t =
    (a : String) × (r : ApprovalRequestRecord) × (find_by_result_ref ref t ≡ some r)
    × (r.ack_id ≡ some a)

store_acknowledge-IsAcknowledged :
    (ref ack_id : String) (now : ℕ) (t : Table) (saved : ApprovalRequestRecord)
    → IsUnique t
    → (Store.acknowledge ref ack_id now t).1 ≡ some saved
    → IsAcknowledged ref (Store.acknowledge ref ack_id now t).0
unfolding Store.acknowledge find_by_result_ref
store_acknowledge-IsAcknowledged ref ack_id now t saved u e =
    elim (Bool-cases (nat_eq (count (can_acknowledge ref ack_id now) t) 1)) [
      | inr other ↦ absurd (ground arith)
      | inl one ↦
          let (r, found, can) =
            find_unique (has_ref ref) (can_acknowledge ref ack_id now) (λ q h. ground arith) t
              (u.refs ref) (ground arith) in
          rw one (
            ack_id,
            set_acknowledged ack_id now r,
            find_by_result_ref-update_many (can_acknowledge ref ack_id now)
                  (set_acknowledged ack_id now) ref t (λ q. refl)
                ∙ ap
                    (Option.map
                      (row (can_acknowledge ref ack_id now) (set_acknowledged ack_id now)))
                    found
                ∙ rw can refl,
            refl,
          )
    ]

module _ (p : ApprovalPlatform) (o : Options) where
  acknowledged_by-IsAcknowledged :
      (now1 now2 now3 : ℕ) (ref : String) (body : ResultBody) (ack_id : Option String)
      (proof : Option String) (t u : Table) (a : String)
      → IsUnique t
      → acknowledged_by p o now1 now2 now3 ref body ack_id proof t ≡ (u, ok a)
      → IsAcknowledged ref u
  unfolding acknowledged_by
  acknowledged_by-IsAcknowledged now1 now2 now3 ref body none proof t u a k e =
      absurd (ground arith)
  acknowledged_by-IsAcknowledged now1 now2 now3 ref body (some ack_id) proof t u a k e =
      elim (Bool-cases (is_ack_id ack_id)) [
        | inr bad ↦ absurd (ground arith)
        | inl good ↦ elim (Result-cases (result p o now1 now2 ref body ack proof ack_id t)) [
          | inr (x, failed) ↦ absurd (ground arith)
          | inl (r, passed) ↦ elim (Option-cases (Store.acknowledge ref ack_id now3 t).1) [
            | inl conflict ↦ absurd (ground arith)
            | inr (saved, done) ↦
                let same : (Store.acknowledge ref ack_id now3 t).0 ≡ u =
                  elim (Option-cases saved.ack_id) [
                    | inl unset ↦ ground arith
                    | inr (b, set) ↦ ground arith
                  ] in
                subst (IsAcknowledged ref) same
                  (store_acknowledge-IsAcknowledged ref ack_id now3 t saved k done)
          ]
        ]
      ]

  pub acknowledge_result-IsAcknowledged :
      (now1 now2 now3 : ℕ) (ref : String) (body : ResultBody) (ack_id : Option Json)
      (proof : Option String) (t u : Table) (a : String)
      → IsUnique t
      → acknowledge_result p o now1 now2 now3 ref body ack_id proof t ≡ (u, ok a)
      → IsAcknowledged ref u
  unfolding acknowledge_result
  acknowledge_result-IsAcknowledged now1 now2 now3 ref body ack_id proof t u a k e =
      acknowledged_by-IsAcknowledged now1 now2 now3 ref body (text_of ack_id) proof t u a k e

  result-found :
      (now1 now2 : ℕ) (ref : String) (body : ResultBody) (action : Action) (proof : Option String)
      (ack_id : String) (t : Table) (r : ApprovalRequestRecord)
      → result p o now1 now2 ref body action proof ack_id t ≡ ok r
      → find_by_result_ref ref t ≡ some r
  unfolding result ◌>>=◌
  result-found now1 now2 ref body action proof ack_id t r e =
      elim (Option-cases (find_by_result_ref ref t)) [
        | inl missing ↦ absurd (cc (rw (missing, result) at e))
        | inr (q, found) ↦
            let e1 = rw (found, result) at e in
            let (_, one, e2) =
              >>=-eq-ok
                (reject_if (not (q.id == body.request_id) || not (q.body_cid == body.body_cid))
                  (approval_error request_binding 400))
                _ e1 in
            let (_, two, e3) = >>=-eq-ok (authenticate p o now1 q action proof ref ack_id) _ e2 in
            let (_, three, e4) =
              >>=-eq-ok
                (reject_if (not (after now2 q.result_expires_at))
                  (approval_error expired_result 410))
                _ e3 in
            let same : q ≡ r = ground (arith, e4) in found ∙ ap some same
      ]

  fetched-acknowledged :
      (ref : String) (r : ApprovalRequestRecord) (ack_id envelope : Option String) (a : String)
      → ack_id ≡ some a
      → fetched p o ref r ack_id envelope ≡ err (approval_error acknowledged 409)
  unfolding fetched
  fetched-acknowledged ref r (some b) none a e = refl
  fetched-acknowledged ref r (some b) (some envelope) a e = refl
  fetched-acknowledged ref r none envelope a e = cc

  pub fetch_result-acknowledged :
      (now1 now2 : ℕ) (ref : String) (body : ResultBody) (proof : Option String) (t : Table)
      (r : ApprovalRequestRecord) (a : String)
      → find_by_result_ref ref t ≡ some r
      → r.ack_id ≡ some a
      → (e : ApprovalResultError) × (fetch_result p o now1 now2 ref body proof t ≡ err e)
  unfolding fetch_result
  fetch_result-acknowledged now1 now2 ref body proof t r a found acked =
      elim (Result-cases (fetch_result p o now1 now2 ref body proof t)) [
        | inr failed ↦ failed
        | inl (response, e) ↦
            let (q, one, two) = >>=-eq-ok (result p o now1 now2 ref body fetch proof "" t) _ e in
            let same : q ≡ r = cc (found, result-found now1 now2 ref body fetch proof "" t q one) in
            let refused =
              fetched-acknowledged ref q q.ack_id q.encrypted_result a
                (ap (λ (x : ApprovalRequestRecord). x.ack_id) same ∙ acked) in
            absurd (cc (refused, two))
      ]

  -- An authentic request for a result that is kept gets it.
  pub fetch_result-ok :
      (now1 now2 : ℕ) (ref : String) (body : ResultBody) (proof : Option String) (t : Table)
      (r : ApprovalRequestRecord) (envelope : String) (until : ℕ)
      → find_by_result_ref ref t ≡ some r
      → r.id ≡ body.request_id
      → r.body_cid ≡ body.body_cid
      → authenticate p o now1 r fetch proof ref "" ≡ ok tt
      → r.result_expires_at ≡ some until
      → now2 < until
      → r.ack_id ≡ none
      → r.encrypted_result ≡ some envelope
      → fetch_result p o now1 now2 ref body proof t
        ≡ ok (record {
          relay = envelope;
          request_id = r.id;
          body_cid = r.body_cid;
          result_ref = ref;
          expires_at = r.result_expires_at;
        })
  unfolding fetch_result result fetched ◌>>=◌
  fetch_result-ok now1 now2 ref body proof t r envelope until found same_id same_cid authentic kept
        due unacked sealed =
      let bound : (not (r.id == body.request_id) || not (r.body_cid == body.body_cid)) ≡ false =
        ground (arith, eq_iff r.id body.request_id, eq_iff r.body_cid body.body_cid) in
      let live : not (after now2 r.result_expires_at) ≡ false = ground arith in
      rw (found, result) (rw (bound, authentic, live) (rw (unacked, sealed) refl))
