-- ===== src/Approvals/Service/Results/Steps.antt =====
-- The methods of `ApprovalResultService` as histories of the table.
use mathlib.Core.Path.{subst}
use openkey.Common.{
  ℕ, String, ◌≡◌, refl, not, inl, inr, Option, none, some, ◌==◌, ◌||◌, arith, Bool-cases,
  Option-cases,
}
use openkey.Common.Results.{Result, Result-cases}
use openkey.Json.{Json}
use openkey.Device.Jwk.{text_of}
use openkey.Approvals.Types.{ApprovalResultError, ApprovalPlatform, Options}
use openkey.Approvals.Store
use openkey.Approvals.Store.{
  Table, find_by_id, find_by_result_ref, update_many, is_open, set_approved, ApprovedResult, equals,
}
use openkey.Approvals.Service.{ack}
use openkey.Approvals.Service.Results.{
  acknowledged_by, result, is_ack_id, Link, ResultBody, deny, acknowledge_result,
}
use openkey.Approvals.System.{Reach, start_here, next, denies, acknowledges}

pub deny-Reach :
    (now : ℕ) (id : String) (link : Link) (t t' : Table) (a : Result ApprovalResultError (Unit {0}))
    → deny now id link t ≡ (t', a)
    → Reach t t'
unfolding deny
deny-Reach now id link t t' a e = elim (Option-cases (find_by_id id t)) [
  | inl missing ↦
      let same : t ≡ t' = ground (arith, rw (missing, deny) at e) in
      subst (λ x. Reach t x) same start_here
  | inr (r, found) ↦
      elim (Bool-cases (not (r.body_cid == link.body_cid) || not (r.issuer == link.issuer))) [
        | inl other ↦ let same : t ≡ t' = ground arith in subst (λ x. Reach t x) same start_here
        | inr same_link ↦
            let moved : Reach t (Store.deny id now t).0 = next start_here (denies id now refl) in
            let same : (Store.deny id now t).0 ≡ t' = elim (Bool-cases (Store.deny id now t).1) [
              | inl done ↦ ground arith
              | inr undone ↦ ground arith
            ] in
            subst (λ x. Reach t x) same moved
      ]
]

module _ (p : ApprovalPlatform) (o : Options) where
  acknowledged_by-Reach :
      (now1 now2 now3 : ℕ) (ref : String) (body : ResultBody) (ack_id proof : Option String)
      (t u : Table) (a : Result ApprovalResultError String)
      → acknowledged_by p o now1 now2 now3 ref body ack_id proof t ≡ (u, a)
      → Reach t u
  unfolding acknowledged_by
  acknowledged_by-Reach now1 now2 now3 ref body none proof t u a e =
      subst (λ x. Reach t x) (ground arith) start_here
  acknowledged_by-Reach now1 now2 now3 ref body (some ack_id) proof t u a e =
      elim (Bool-cases (is_ack_id ack_id)) [
        | inr bad ↦ let same : t ≡ u = ground arith in subst (λ x. Reach t x) same start_here
        | inl good ↦ elim (Result-cases (result p o now1 now2 ref body ack proof ack_id t)) [
          | inr (x, failed) ↦
              let same : t ≡ u = ground arith in subst (λ x. Reach t x) same start_here
          | inl (r, passed) ↦
              let moved : Reach t (Store.acknowledge ref ack_id now3 t).0 =
                next start_here (acknowledges ref ack_id now3 refl) in
              let same : (Store.acknowledge ref ack_id now3 t).0 ≡ u =
                elim (Option-cases (Store.acknowledge ref ack_id now3 t).1) [
                  | inl conflict ↦ ground arith
                  | inr (saved, done) ↦ elim (Option-cases saved.ack_id) [
                    | inl unset ↦ ground arith
                    | inr (b, set) ↦ ground arith
                  ]
                ] in
              subst (λ x. Reach t x) same moved
        ]
      ]

  pub acknowledge_result-Reach :
      (now1 now2 now3 : ℕ) (ref : String) (body : ResultBody) (ack_id : Option Json)
      (proof : Option String) (t u : Table) (a : Result ApprovalResultError String)
      → acknowledge_result p o now1 now2 now3 ref body ack_id proof t ≡ (u, a)
      → Reach t u
  unfolding acknowledge_result
  acknowledge_result-Reach now1 now2 now3 ref body ack_id proof t u a e =
      acknowledged_by-Reach now1 now2 now3 ref body (text_of ack_id) proof t u a e
