-- ===== src/Approvals/Service/Approve.antt =====
-- `approve` of `ApprovalResultService`.
pub mod Laws
use openkey.Common.{
  ℕ, ◌+◌, ◌*◌, min, String, Bool, true, false, not, ◌&&◌, ◌||◌, Option, none, some, ◌==◌,
  if◌then◌else◌,
}
use openkey.Common.Results.{Result, ok, err, ◌>>=◌, ◌>>◌, reject_if}
use openkey.Text.{◌<>◌}
use openkey.Json.{Json, null, num, whole, str, obj, Fields, end, field, get}
use openkey.Device.Platform.{Platform, SiweMessage}
use openkey.Device.Jwk.{strict_session_did, is_text, text_of}
use openkey.Approvals.Types.{
  ApprovalRequestRecord, ApprovalResultError, approval_error, thrown, ApprovalPlatform, Options,
  expired_request, invalid_delegation,
}
use openkey.Approvals.Store
use openkey.Approvals.Store.{Table, ApprovedResult}
use openkey.Approvals.Service.{lift}
use openkey.Approvals.Service.Window.{WindowInput, assert_delegation_window, siwe_expiry}

-- The authenticated caller's body.
pub record ApproveBody : Type 0 where
  pub jwk : Option Json
  pub host : Option Json
  pub permissions : Option Json

-- `a ?? b`
pub nullish : Option Json → Option Json → Option Json
nullish none b = b
nullish (some null) b = b
nullish (some v) b = some v

-- What is drawn while approving: the reference, and the randomness of the encryption.
pub record Draw : Type 0 where
  pub result_ref : String
  pub encryption : ℕ

unfoldable pub window_input : ApproveBody → String → WindowInput
window_input body signed = record {
  jwk = body.jwk;
  host = body.host;
  permissions = body.permissions;
  expiry_ms = none;
  signed_siwe = some signed;
}

names_target : ApprovalRequestRecord → Option Json → Bool
names_target r (some (obj jwk)) = is_text r.request.target_x (get "x" jwk)
names_target r _ = false

module _ (p : ApprovalPlatform) (o : Options) where
  -- `did:pkh:eip155:${siwe.chainId}:${siwe.address}`
  unfoldable pub owner_did_of : SiweMessage → String
  owner_did_of m = "did:pkh:eip155:" <> (p.base.show (num (whole m.chain_id)) <> (":" <> m.address))

  check_owner :
      ApprovalRequestRecord
      → Fields
      → String
      → String
      → SiweMessage
      → Result ApprovalResultError (Unit {0})
  unfolding names_target owner_did_of
  check_owner r delegation signed signature m = elim (p.verify_message signed signature) [
    | none ↦ err thrown
    | some address ↦ do
      reject_if
          (not (p.to_lower_case address == p.to_lower_case m.address)
            || not (is_text (owner_did_of m) (get "ownerDid" delegation)))
          (approval_error invalid_delegation 400)
      did ← lift (strict_session_did p.base r.request.target_public_jwk)
      reject_if
          (not (is_text did (get "verificationMethod" delegation))
            || not (names_target r (get "jwk" delegation)))
          (approval_error invalid_delegation 400)
  ]

  pub payload_of : ApprovalRequestRecord → String → ℕ → Fields → Json
  payload_of r owner_did expires_at delegation = obj (
      field "resultVersion" (num (whole 1)) (
        field "requestId" (str r.id) (
          field "requestDigest" (str r.body_cid) (
            field "requesterDid" (str r.issuer) (
              field "ownerDid" (str owner_did) (
                field "targetDid" (str r.request.target_did) (
                  field "delegationExpiresAt" (str (p.base.to_iso_string expires_at))
                    (field "delegation" (obj delegation) end))))))))

  -- The result that is stored: kept until the delegation expires or the retention is over.
  result_of :
      ℕ
      → ApprovalRequestRecord
      → String
      → Fields
      → Draw
      → SiweMessage
      → Option ℕ
      → Result ApprovalResultError ApprovedResult
  unfolding payload_of owner_did_of
  result_of now r user_id delegation draw m none = err thrown
  result_of now r user_id delegation draw m (some expires_at) =
      elim (p.encrypt r.request.result_encryption_public_jwk r.id
        (payload_of r (owner_did_of m) expires_at delegation) draw.encryption) [
          | none ↦ err thrown
          | some envelope ↦ ok (record {
            result_ref = draw.result_ref;
            approved_by_user_id = user_id;
            owner_did = owner_did_of m;
            encrypted_result = envelope;
            delegation_expires_at = expires_at;
            result_expires_at = min expires_at (now + o.retention_seconds * 1000);
          })
        ]

  parsed : String → Result ApprovalResultError SiweMessage
  parsed signed = elim (p.base.parse_siwe signed) [ none ↦ err thrown | some m ↦ ok m ]

  -- The part that reads: all up to the write of the result.
  approve_signed :
      ℕ
      → ℕ
      → String
      → String
      → ApproveBody
      → Fields
      → Draw
      → Option String
      → Option String
      → Table
      → Result ApprovalResultError ApprovedResult
  unfolding window_input check_owner result_of parsed
  approve_signed now1 now2 id user_id body delegation draw (some signed) (some signature) t = do
    r ← assert_delegation_window p now1 (some (str id)) (window_input body signed) t
    m ← parsed signed
    check_owner r delegation signed signature m
    result_of now2 r user_id delegation draw m (siwe_expiry p m)
  approve_signed now1 now2 id user_id body delegation draw _ _ t =
      err (approval_error invalid_delegation 400)

  unfoldable pub approve_read :
      ℕ
      → ℕ
      → String
      → String
      → ApproveBody
      → Fields
      → Draw
      → Table
      → Result ApprovalResultError ApprovedResult
  unfolding nullish approve_signed
  approve_read now1 now2 id user_id body delegation draw t =
      approve_signed now1 now2 id user_id body delegation draw
        (text_of (nullish (get "siwe" delegation) (get "signedMessage" delegation)))
        (text_of (get "signature" delegation)) t

  -- The write.
  unfoldable pub approve_commit :
      ℕ → String → ApprovedResult → Table → Table × Result ApprovalResultError (Unit {0})
  approve_commit now3 id result t = elim (Store.approve id result now3 t) [
    | none ↦ (t, err thrown)
    | some (t', done) ↦ (t', if done then ok tt else err (approval_error expired_request 410))
  ]

  unfoldable pub approve :
      ℕ
      → ℕ
      → ℕ
      → String
      → String
      → ApproveBody
      → Fields
      → Draw
      → Table
      → Table × Result ApprovalResultError (Unit {0})
  unfolding approve_read approve_commit
  approve now1 now2 now3 id user_id body delegation draw t =
      elim (approve_read now1 now2 id user_id body delegation draw t) [
        | err e ↦ (t, err e)
        | ok result ↦ approve_commit now3 id result t
      ]
