-- ===== src/Approvals/Service.antt =====
-- `ApprovalResultService` of apps/api/src/services/approval-results.ts. A method takes the readings
-- of the clock that it makes, in their order, and returns the table after it with its result.
pub mod Window
pub mod Approve
pub mod Results
use openkey.Common.{
  ℕ, String, Option, none, some, List, [], ◌∷◌, ◌==◌, not, ◌||◌, leb, if◌then◌else◌,
}
use openkey.Common.Results.{Result, ok, err}
use openkey.Text.{◌<>◌}
use openkey.Json.{Json, str, arr, obj, field, end, item, nil}
use openkey.Native.SessionProof.{SessionProofExpectation, verify_session_proof_claims}
use openkey.Device.Types.{DeviceAuthorizationError}
use openkey.Approvals.Types.{
  ApprovalRequestRecord, ApprovalResultError, approval_error, thrown, invalid_proof,
  ApprovalPlatform, Options,
}

pub data Action : Type 0 where
  discover fetch ack : Action

abbrev pub action_text : Action → String
action_text discover = "discover"
action_text fetch = "fetch"
action_text ack = "ack"

-- An error of another class leaves the method.
abbrev pub lift {ℓ} :
    {A : Type ℓ} → Result DeviceAuthorizationError A → Result ApprovalResultError A
lift (ok a) = ok a
lift (err e) = err thrown

module _ (p : ApprovalPlatform) (o : Options) where
  path_of : ApprovalRequestRecord → Action → String → String
  path_of r discover ref = "/api/approval-requests/" <> (r.id <> "/result")
  path_of r fetch ref = "/api/approval-results/" <> (ref <> "/fetch")
  path_of r ack ref = "/api/approval-results/" <> (ref <> "/ack")

  -- The RFC 7638 thumbprint of the target key.
  thumbprint : ApprovalRequestRecord → String
  thumbprint r = p.proofs.sha256 (
      p.base.stringify (
        obj (
          field "crv" (str "Ed25519")
            (field "kty" (str "OKP") (field "x" (str r.request.target_x) end)))))

  unfoldable pub expectation :
      ApprovalRequestRecord → Action → String → String → SessionProofExpectation
  unfolding path_of thumbprint
  expectation r action ref ack_id = record {
    session_x = r.request.target_x;
    session_jkt = thumbprint r;
    htu = o.api_origin <> path_of r action ref;
    client_id = "openkey-approval-result-v1";
    credential = p.base.stringify (
        arr (
          item (str (action_text action))
            (item (str r.id) (item (str r.body_cid) (item (str ref) (item (str ack_id) nil))))));
  }

  unfoldable pub authenticate :
      ℕ
      → ApprovalRequestRecord
      → Action
      → Option String
      → String
      → String
      → Result ApprovalResultError (Unit {0})
  authenticate now r action proof ref ack_id =
      elim (verify_session_proof_claims p.proofs proof (expectation r action ref ack_id) now) [
        | none ↦ err (approval_error invalid_proof 401)
        | some _ ↦ ok tt
      ]
