-- ===== src/Approvals/Demo.antt =====
-- A request that is registered, approved, fetched and acknowledged, and one that is declined.
pub mod Witnesses
use openkey.Common.{
  ℕ, ◌+◌, String, ◌≡◌, refl, true, false, none, some, List, [], ◌∷◌, ◌==◌, if◌then◌else◌,
}
use openkey.Common.Results.{ok, err}
use openkey.Json.{Json, Fields, str, obj, arr, num, whole, field, end, nil}
use openkey.Device.Platform.{Platform, SiweMessage}
use openkey.Device.Demo.{zeros, demo, key_text, session_jwk, session_did, demo_origin}
use openkey.Native.SessionProof.{ProofPlatform}
use openkey.Approvals.Types.{ApprovalRequest, ApprovalRequestRecord, ApprovalPlatform, Options}
use openkey.Approvals.Store.{
  Table, ApprovedResult, new_request, set_approved, set_acknowledged, set_denied,
}
use openkey.Approvals.Service.Approve.{ApproveBody, Draw}

abbrev pub demo_message : SiweMessage
demo_message = record {
  uri = session_did;
  expiration_time = some "1970-01-01T00:50:00.000Z";
  nonce = "nonce";
  address = "0xAb";
  chain_id = 1;
}

abbrev base : Platform
base = record demo {
  parse_siwe = λ s. if s == "siwe" then some demo_message else none;
  prepare_message = λ m. "siwe";
  show = λ v. "1";
}

abbrev header_json : Json
header_json = obj (
    field "alg" (str "EdDSA")
      (field "kid" (str "") (field "typ" (str "openkey-session-proof+jwt") end)))

abbrev payload_json : String → Json
payload_json action = obj (
    field "client_id" (str "openkey-approval-result-v1") (
      field "cred_hash" (str "") (
        field "htm" (str "POST") (
          field "htu" (str action)
            (field "iat" (num (whole 3)) (field "jti" (str "0123456789abcdef") end))))))

-- The proofs of a fetch and of an acknowledgement are `h.f.s` and `h.a.s`.
abbrev proofs : ProofPlatform
proofs = record {
  sha256 = λ s. s;
  decode_json = λ s.
      if s == "h"
      then some header_json
      else (if s == "f"
          then some (payload_json "https://api.example/api/approval-results/ref1/fetch")
          else some (payload_json "https://api.example/api/approval-results/ref1/ack"));
  base64url_decode = λ s. zeros 64;
  base64url_encode = λ bytes. "s";
  sort_keys = λ ks. ks;
  verify_ed25519 = λ x message bytes. x == key_text;
}

abbrev pub demo_platform : ApprovalPlatform
demo_platform = record {
  base = base;
  proofs = proofs;
  verify_message = λ message signature.
      if message == "siwe" then (if signature == "signature" then some "0xAb" else none) else none;
  to_lower_case = λ s. s;
  encrypt = λ key id payload drawn. some "sealed";
}

abbrev pub demo_options : Options
demo_options = record { api_origin = "https://api.example"; retention_seconds = 1000 }

abbrev pub demo_request : ApprovalRequest
demo_request = record {
  target_public_jwk = session_jwk;
  target_x = key_text;
  target_did = session_did;
  node_origin = demo_origin;
  permissions = arr nil;
  grant_lifetime_seconds = 3600;
  result_encryption_public_jwk = obj end;
}

-- Registered at 1000, open until 601000.
abbrev pub demo_row : ApprovalRequestRecord
demo_row = new_request "r1" "cid" "issuer" demo_request 601_000 1000

abbrev pub demo_table : Table
demo_table = demo_row ∷ []

abbrev pub demo_body : ApproveBody
demo_body = record {
  jwk = some session_jwk;
  host = some (str demo_origin);
  permissions = some (arr nil);
}

abbrev pub demo_delegation : Fields
demo_delegation = field "siwe" (str "siwe") (
    field "signature" (str "signature") (
      field "ownerDid" (str "did:pkh:eip155:1:0xAb")
        (field "verificationMethod" (str session_did) (field "jwk" session_jwk end))))

abbrev pub demo_draw : Draw
demo_draw = record { result_ref = "ref1"; encryption = 0 }

-- What its approval at 2000 writes: the retention ends before the delegation.
abbrev pub demo_result : ApprovedResult
demo_result = record {
  result_ref = "ref1";
  approved_by_user_id = "alice";
  owner_did = "did:pkh:eip155:1:0xAb";
  encrypted_result = "sealed";
  delegation_expires_at = 3_000_000;
  result_expires_at = 1_002_000;
}

abbrev pub approved_row : ApprovalRequestRecord
approved_row = set_approved demo_result demo_row

abbrev pub approved_table : Table
approved_table = approved_row ∷ []

abbrev pub acknowledged_table : Table
acknowledged_table = set_acknowledged "acknowledgement1" 3000 approved_row ∷ []

abbrev pub denied_table : Table
denied_table = set_denied 2000 demo_row ∷ []
