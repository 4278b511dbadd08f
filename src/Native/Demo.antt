-- ===== src/Native/Demo.antt =====
-- A proof that is accepted, tests, and the theorems at it.
use openkey.Common.{◌≡◌, refl, ◌&&◌, none, some, [], ◌==◌, if◌then◌else◌}
use openkey.Text.{all_chars, split_from}
use openkey.Review.Multiset.{same_texts}
use openkey.Device.Jwk.{is_text, text_of}
use openkey.Device.Start.{utf16_length}
use openkey.Json.{Json, str, obj, num, whole, field, end, keys, get}
use openkey.Device.Demo.{zeros, key_text}
use openkey.Native.SessionProof.{
  ProofPlatform, SessionProofExpectation, VerifiedSessionProof, verify_session_proof_claims,
}
use openkey.Native.SessionProof.Laws.{IsBoundTo, verify_session_proof_claims_sound}

abbrev header_json : Json
header_json = obj (
    field "alg" (str "EdDSA")
      (field "kid" (str "jkt") (field "typ" (str "openkey-session-proof+jwt") end)))

abbrev payload_json : Json
payload_json = obj (
    field "client_id" (str "openkey-approval-result-v1") (
      field "cred_hash" (str "credential") (
        field "htm" (str "POST") (
          field "htu" (str "https://api.example/api/approval-results/ref/fetch")
            (field "iat" (num (whole 100)) (field "jti" (str "0123456789abcdef") end))))))

-- The two documents are the segments `h` and `b`; `s` is the one signature of them.
abbrev demo_proofs : ProofPlatform
demo_proofs = record {
  sha256 = λ s. s;
  decode_json =
      λ s. if s == "h" then some header_json else (if s == "b" then some payload_json else none);
  base64url_decode = λ s. if s == "s" then zeros 64 else [];
  base64url_encode = λ bytes. "s";
  sort_keys = λ ks. ks;
  verify_ed25519 = λ x message bytes. x == key_text && message == "h.b";
}

abbrev demo_expectation : SessionProofExpectation
demo_expectation = record {
  session_x = key_text;
  session_jkt = "jkt";
  htu = "https://api.example/api/approval-results/ref/fetch";
  client_id = "openkey-approval-result-v1";
  credential = "credential";
}

abbrev demo_verified : VerifiedSessionProof
demo_verified = record { jti = "0123456789abcdef"; iat = 100 }

-- Accepted up to a minute from its time, and not a millisecond later.
accepted_run :
    verify_session_proof_claims demo_proofs (some "h.b.s") demo_expectation 160_000
    ≡ some demo_verified
unfolding verify_session_proof_claims all_chars split_from same_texts keys is_text get text_of
    utf16_length
accepted_run = refl

late_run : verify_session_proof_claims demo_proofs (some "h.b.s") demo_expectation 160_001 ≡ none
unfolding verify_session_proof_claims all_chars split_from same_texts keys is_text get text_of
    utf16_length
late_run = refl

early_run : verify_session_proof_claims demo_proofs (some "h.b.s") demo_expectation 39_999 ≡ none
unfolding verify_session_proof_claims all_chars split_from same_texts keys is_text get text_of
    utf16_length
early_run = refl

swapped_run : verify_session_proof_claims demo_proofs (some "b.h.s") demo_expectation 100_000 ≡ none
unfolding verify_session_proof_claims all_chars split_from same_texts keys is_text get text_of
    utf16_length
swapped_run = refl

verify_session_proof_claims_sound_example :
    IsBoundTo demo_proofs "h.b.s" demo_expectation 160_000 demo_verified
verify_session_proof_claims_sound_example =
    verify_session_proof_claims_sound demo_proofs demo_expectation 160_000 demo_verified "h.b.s"
      accepted_run

accepted_early_run :
    verify_session_proof_claims demo_proofs (some "h.b.s") demo_expectation 40_000
    ≡ some demo_verified
unfolding verify_session_proof_claims all_chars split_from same_texts keys is_text get text_of
    utf16_length
accepted_early_run = refl
