-- ===== src/Approvals/Types.antt =====
-- The records and errors of apps/api/src/services/approval-results.ts. A `Date` is its milliseconds,
-- and a field that is absent or null is `none`; the message of an error is left out. The reference,
-- the acknowledgement and the envelope of a row are never empty texts, so that the code's tests of
-- their truth are tests of their presence.
use openkey.Common.{ℕ, String, Option}
use openkey.Json.{Json}
use openkey.Device.Platform.{Platform}
use openkey.Native.SessionProof.{ProofPlatform}

-- The fields that are read of an `OpenKeyApprovalRequestV1`, a type of @tinycloud/share-envelope;
-- `target_x` is the `x` of `target_public_jwk`, a string by that type.
pub record ApprovalRequest : Type 0 where
  pub target_public_jwk : Json
  pub target_x : String
  pub target_did : String
  pub node_origin : String
  pub permissions : Json
  pub grant_lifetime_seconds : ℕ
  pub result_encryption_public_jwk : Json

pub record ApprovalRequestRecord : Type 0 where
  pub id : String
  pub body_cid : String
  pub issuer : String
  pub request : ApprovalRequest
  pub expires_at : ℕ
  pub created_at : ℕ
  pub result_ref : Option String
  pub approved_by_user_id : Option String
  pub owner_did : Option String
  pub encrypted_result : Option String
  pub delegation_expires_at : Option ℕ
  pub result_expires_at : Option ℕ
  pub ack_id : Option String
  pub acknowledged_at : Option ℕ
  pub denied_at : Option ℕ

-- The `code` of an `ApprovalResultError`.
pub data ErrorCode : Type 0 where
  expired_request link_required request_binding invalid_delegation invalid_proof : ErrorCode
  not_found expired_result already_approved acknowledged invalid_ack ack_conflict : ErrorCode

-- `denied_error` is the `expired_request` with its `extra`; `thrown` is an exception of another class.
pub data ApprovalResultError : Type 0 where
  approval_error : ErrorCode → ℕ → ApprovalResultError
  denied_error : ℕ → ApprovalResultError
  thrown : ApprovalResultError

pub record Options : Type 0 where
  pub api_origin : String
  pub retention_seconds : ℕ

-- What is taken from outside: the platforms of device authorization and of session proofs, ethers,
-- and WebCrypto.
pub record ApprovalPlatform : Type 0 where
  pub base : Platform
  pub proofs : ProofPlatform
  -- `verifyMessage(message, signature)`, `none` where it throws
  pub verify_message : String → String → Option String
  pub to_lower_case : String → String
  -- The text of the envelope: the payload encrypted to the recipient's key, with the id as context
  -- and an ephemeral key and nonce drawn; `none` where the key cannot be imported.
  pub encrypt : Json → String → Json → ℕ → Option String
