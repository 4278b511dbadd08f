-- ===== src/Approvals/Service/Approve/Laws.antt =====
-- What an approval that succeeds has checked, and what it wrote.
use mathlib.Core.Path.{subst}
use openkey.Common.{
  ℕ, ◌+◌, ◌*◌, min, String, ◌≡◌, refl, true, not, ◌==◌, ◌||◌, Option, none, some, arith, eq_iff,
  Option-cases, inl, inr,
}
use openkey.Common.Results.{Result, Result-cases, ok, >>=-eq-ok, reject_if, reject_if-eq-ok}
use openkey.Json.{Fields, str, get}
use openkey.Device.Platform.{SiweMessage}
use openkey.Device.Jwk.{is_text, text_of}
use openkey.Approvals.Types.{
  ApprovalRequestRecord, ApprovalResultError, approval_error, ApprovalPlatform, Options,
  invalid_delegation,
}
use openkey.Approvals.Store
use openkey.Approvals.Store.{Table, ApprovedResult, find_by_id}
use openkey.Approvals.Service.Window.{assert_delegation_window, siwe_expiry}
use openkey.Approvals.Service.Window.Laws.{IsOpen, IsSignable, assert_delegation_window-IsOpen}
use openkey.Approvals.Service.Approve.{
  ApproveBody, Draw, nullish, window_input, owner_did_of, check_owner, payload_of, result_of,
  parsed, approve_signed, approve_read, approve_commit, approve,
}

-- What the owner's approval of a request has shown before it is written.
pub record IsApproval (p : ApprovalPlatform) (o : Options) (now1 now2 : ℕ) (id user_id : String)
    (delegation : Fields) (draw : Draw) (t : Table) (i : ApprovedResult) : Type 0 where
  pub request : ApprovalRequestRecord
  pub signed : String
  pub signature : String
  pub address : String
  pub message : SiweMessage
  pub open_ : IsOpen now1 (find_by_id id t) request
  pub signable : IsSignable p now1 request.request signed message
  -- The message and its signature are those that the caller posted.
  pub posted :
      text_of (nullish (get "siwe" delegation) (get "signedMessage" delegation)) ≡ some signed
  pub posted_signature : text_of (get "signature" delegation) ≡ some signature
  pub verified : p.verify_message signed signature ≡ some address
  pub owner : p.to_lower_case address ≡ p.to_lower_case message.address
  pub owner_did : i.owner_did ≡ owner_did_of p o message
  pub posted_owner : is_text (owner_did_of p o message) (get "ownerDid" delegation) ≡ true
  pub reference : i.result_ref ≡ draw.result_ref
  -- What is stored is the delegation posted, sealed for the requester.
  pub sealed :
      p.encrypt request.request.result_encryption_public_jwk request.id
        (payload_of p o request i.owner_did i.delegation_expires_at delegation)
        draw.encryption
      ≡ some i.encrypted_result
  pub approver : i.approved_by_user_id ≡ user_id
  pub expiry : siwe_expiry p message ≡ some i.delegation_expires_at
  pub kept_until :
      i.result_expires_at ≡ min i.delegation_expires_at (now2 + o.retention_seconds * 1000)

module _ (p : ApprovalPlatform) (o : Options) where
  check_owner-ok :
      (r : ApprovalRequestRecord) (delegation : Fields) (signed signature : String)
      (m : SiweMessage)
      → check_owner p o r delegation signed signature m ≡ ok tt
      → (address : String) × (p.verify_message signed signature ≡ some address)
        × (p.to_lower_case address ≡ p.to_lower_case m.address)
        × (is_text (owner_did_of p o m) (get "ownerDid" delegation) ≡ true)
  unfolding check_owner
  check_owner-ok r delegation signed signature m e =
      elim (Option-cases (p.verify_message signed signature)) [
        | inl bad ↦ absurd (cc (rw (bad, check_owner) at e))
        | inr (address, verified) ↦
            let (_, one, _) =
              >>=-eq-ok (reject_if _ (approval_error invalid_delegation 400)) _
                (rw (verified, check_owner) at e) in
            let kept =
              reject_if-eq-ok
                (not (p.to_lower_case address == p.to_lower_case m.address)
                  || not (is_text (owner_did_of p o m) (get "ownerDid" delegation)))
                (approval_error invalid_delegation 400) one in
            (
              address,
              verified,
              ground (arith, eq_iff (p.to_lower_case address) (p.to_lower_case m.address)),
              ground arith,
            )
      ]

  ok_inj :
      {x y : ApprovedResult}
      → Path (Result ApprovalResultError ApprovedResult) (ok x) (ok y)
      → x ≡ y
  ok_inj e = cc e

  result_of-ok :
      (now : ℕ) (r : ApprovalRequestRecord) (user_id : String) (delegation : Fields) (draw : Draw)
      (m : SiweMessage) (at_ : Option ℕ) (i : ApprovedResult)
      → result_of p o now r user_id delegation draw m at_ ≡ ok i
      → (at_ ≡ some i.delegation_expires_at)
        × (i.owner_did ≡ owner_did_of p o m)
        × (i.result_ref ≡ draw.result_ref)
        × (p.encrypt r.request.result_encryption_public_jwk r.id
              (payload_of p o r i.owner_did i.delegation_expires_at delegation)
              draw.encryption
            ≡ some i.encrypted_result)
        × (i.approved_by_user_id ≡ user_id)
        × (i.result_expires_at ≡ min i.delegation_expires_at (now + o.retention_seconds * 1000))
  unfolding result_of
  result_of-ok now r user_id delegation draw m none i e = cc
  result_of-ok now r user_id delegation draw m (some t) i e =
      let sealed =
        p.encrypt r.request.result_encryption_public_jwk r.id
          (payload_of p o r (owner_did_of p o m) t delegation) draw.encryption in
      elim (Option-cases sealed) [
        | inl bad ↦ absurd (cc (rw (bad, result_of) at e))
        | inr (envelope, done) ↦
            subst
              (λ (x : ApprovedResult).
                (some t ≡ some x.delegation_expires_at)
                × (x.owner_did ≡ owner_did_of p o m)
                × (x.result_ref ≡ draw.result_ref)
                × (p.encrypt r.request.result_encryption_public_jwk r.id
                      (payload_of p o r x.owner_did x.delegation_expires_at delegation)
                      draw.encryption
                    ≡ some x.encrypted_result)
                × (x.approved_by_user_id ≡ user_id)
                × (x.result_expires_at
                    ≡ min x.delegation_expires_at (now + o.retention_seconds * 1000)))
              (ok_inj (rw (done, result_of) at e)) (refl, refl, refl, done, refl, refl)
      ]

  parsed-ok :
      (signed : String) (m : SiweMessage)
      → parsed p o signed ≡ ok m
      → p.base.parse_siwe signed ≡ some m
  unfolding parsed
  parsed-ok signed m e = ground arith

  module _ (now1 now2 : ℕ) (id user_id : String) (body : ApproveBody) (delegation : Fields)
      (draw : Draw) (t : Table) (i : ApprovedResult) where
    approve_signed-IsApproval :
        (signed signature : Option String)
        → text_of (nullish (get "siwe" delegation) (get "signedMessage" delegation)) ≡ signed
        → text_of (get "signature" delegation) ≡ signature
        → approve_signed p o now1 now2 id user_id body delegation draw signed signature t ≡ ok i
        → IsApproval p o now1 now2 id user_id delegation draw t i
    unfolding approve_signed window_input
    approve_signed-IsApproval none signature given given' e = cc
    approve_signed-IsApproval (some signed) none given given' e = cc
    approve_signed-IsApproval (some signed) (some signature) given given' e =
        let (r, one, e1) =
          >>=-eq-ok (assert_delegation_window p now1 (some (str id)) (window_input body signed) t) _
            e in
        let (m, two, e2) = >>=-eq-ok (parsed p o signed) _ e1 in
        let (_, three, four) = >>=-eq-ok (check_owner p o r delegation signed signature m) _ e2 in
        let (open_, (m', signable)) =
          assert_delegation_window-IsOpen p now1 id (window_input body signed) signed t r refl
            one in
        let same : m' ≡ m = cc (signable.parsed, parsed-ok signed m two) in
        let (address, verified, owner, named) =
          check_owner-ok r delegation signed signature m three in
        let (expiry, did, ref, sealed, approver, kept) =
          result_of-ok now2 r user_id delegation draw m (siwe_expiry p m) i four in
        record {
          request = r;
          signed = signed;
          signature = signature;
          address = address;
          message = m;
          open_ = open_;
          signable = subst (λ x. IsSignable p now1 r.request signed x) same signable;
          posted = given;
          posted_signature = given';
          verified = verified;
          owner = owner;
          owner_did = did;
          posted_owner = named;
          reference = ref;
          sealed = sealed;
          approver = approver;
          expiry = expiry;
          kept_until = kept;
        }

    approve_read-IsApproval :
        approve_read p o now1 now2 id user_id body delegation draw t ≡ ok i
        → IsApproval p o now1 now2 id user_id delegation draw t i
    unfolding approve_read nullish
    approve_read-IsApproval e = approve_signed-IsApproval _ _ refl refl e

-- An approval that succeeds found the request open, and wrote a result that the owner of the signed
-- message approved: the message and signature posted verify as the message's address, the owner
-- posted is that address, the message is bound to the target's session and expires within the
-- lifetime that the requester asked for and five seconds of clock skew. The result is the delegation
-- posted, encrypted for the requester, and is kept until the message's expiry, or for the retention
-- if that ends first.
pub approve_request_sound :
    (p : ApprovalPlatform) (o : Options) (now1 now2 now3 : ℕ) (id user_id : String)
    (body : ApproveBody) (delegation : Fields) (draw : Draw) (t u : Table)
    → approve p o now1 now2 now3 id user_id body delegation draw t ≡ (u, ok tt)
    → (i : ApprovedResult) × IsApproval p o now1 now2 id user_id delegation draw t i
      × (Store.approve id i now3 t ≡ some (u, true))
unfolding approve approve_commit
approve_request_sound p o now1 now2 now3 id user_id body delegation draw t u e =
    elim (Result-cases (approve_read p o now1 now2 id user_id body delegation draw t)) [
      | inr (x, failed) ↦ absurd (ground arith)
      | inl (i, read) ↦ (
        i,
        approve_read-IsApproval p o now1 now2 id user_id body delegation draw t i read,
        elim (Option-cases (Store.approve id i now3 t)) [
          | inl broken ↦ absurd (ground arith)
          | inr ((v, done), written) ↦ ground arith
        ],
      )
    ]
