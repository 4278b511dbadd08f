-- ===== src/Native/SessionProof.antt =====
-- `OpenKey-Session-Proof`, of apps/api/src/services/native-delegation/session-proof.ts.
pub mod Laws
use openkey.Common.{
  ℕ, ◌+◌, ◌*◌, String, Bool, true, false, not, ◌&&◌, ◌||◌, Option, none, some, List, [], ◌∷◌, ◌==◌,
  leb, ltb, nat_eq, if◌then◌else◌, length,
}
use openkey.Text.{◌<>◌, all_chars, is_alnum, split}
use openkey.Json.{Json, num, obj, Fields, whole, get, keys}
use openkey.Review.Multiset.{same_texts}
use openkey.Device.Jwk.{is_text, text_of}
use openkey.Device.Start.{utf16_length}

-- What is taken from `Buffer`, `JSON` and node:crypto.
pub record ProofPlatform : Type 0 where
  -- `createHash('sha256').update(text).digest('base64url')`
  pub sha256 : String → String
  -- `JSON.parse(Buffer.from(segment, 'base64url').toString('utf8'))`, `none` where it throws
  pub decode_json : String → Option Json
  pub base64url_decode : String → List ℕ
  pub base64url_encode : List ℕ → String
  -- `Object.keys(value).sort()`
  pub sort_keys : List String → List String
  -- `verify` with the Ed25519 key of that coordinate, on the ASCII text; the coordinate was checked
  -- before it was stored, so that `createPublicKey` takes it
  pub verify_ed25519 : String → String → List ℕ → Bool

abbrev pub session_proof_max_skew_seconds : ℕ
session_proof_max_skew_seconds = 60

abbrev header_keys : List String
header_keys = "alg" ∷ "kid" ∷ "typ" ∷ []

abbrev payload_keys : List String
payload_keys = "client_id" ∷ "cred_hash" ∷ "htm" ∷ "htu" ∷ "iat" ∷ "jti" ∷ []

pub record SessionProofExpectation : Type 0 where
  pub session_x : String
  pub session_jkt : String
  pub htu : String
  pub client_id : String
  pub credential : String

pub record VerifiedSessionProof : Type 0 where
  pub jti : String
  pub iat : ℕ

-- `/^[A-Za-z0-9_-]+$/`
is_segment : String → Bool
unfolding all_chars
is_segment s = not (s == "") && all_chars (λ c. is_alnum c || nat_eq c b'_' || nat_eq c b'-') s

-- The whole seconds of `iat`. A fraction is refused, and so is a negative number, which is within
-- the skew of no clock past the first minute of 1970.
seconds_of : Option Json → Option ℕ
seconds_of (some (num (whole n))) = some n
seconds_of _ = none

-- `Math.abs(nowMs / 1000 - iat) > 60`, in milliseconds
abbrev pub too_skewed : ℕ → ℕ → Bool
too_skewed now_ms iat =
    ltb (iat * 1000 + session_proof_max_skew_seconds * 1000) now_ms
    || ltb (now_ms + session_proof_max_skew_seconds * 1000) (iat * 1000)

module _ (p : ProofPlatform) where
  object_with_keys : List String → Option Json → Option Fields
  object_with_keys expected (some (obj fs)) =
      if same_texts (p.sort_keys (keys fs)) expected then some fs else none
  object_with_keys expected _ = none

  decode_object : String → List String → Option Fields
  unfolding object_with_keys
  decode_object segment expected = object_with_keys expected (p.decode_json segment)

  check_header : SessionProofExpectation → Fields → Bool
  check_header expected header =
      is_text "openkey-session-proof+jwt" (get "typ" header)
      && is_text "EdDSA" (get "alg" header)
      && is_text expected.session_jkt (get "kid" header)

  unfoldable pub credential_hash : String → String
  credential_hash credential = p.sha256 credential

  session_proof_jti_hash : String → String
  session_proof_jti_hash jti = p.sha256 jti

  -- The claims other than `jti` and `iat`.
  check_claims : SessionProofExpectation → Fields → Bool
  unfolding credential_hash
  check_claims expected payload =
      is_text "POST" (get "htm" payload)
      && is_text expected.htu (get "htu" payload)
      && is_text expected.client_id (get "client_id" payload)
      && is_text (credential_hash expected.credential) (get "cred_hash" payload)

  -- `jti` and `iat` of a payload, within their bounds.
  claimed : ℕ → Option String → Option ℕ → Option VerifiedSessionProof
  claimed now_ms (some jti) (some iat) =
      if ltb (utf16_length jti) 16 || ltb 128 (utf16_length jti) || too_skewed now_ms iat
      then none
      else some (record { jti = jti; iat = iat })
  claimed now_ms _ _ = none

  check_signature : SessionProofExpectation → String → String → String → Bool
  check_signature expected header payload signature =
      let bytes = p.base64url_decode signature in
      nat_eq (length bytes) 64
      && p.base64url_encode bytes == signature
      && p.verify_ed25519 expected.session_x (header <> ("." <> payload)) bytes

  check_parts :
      ℕ
      → SessionProofExpectation
      → String
      → String
      → String
      → Option Fields
      → Option Fields
      → Option VerifiedSessionProof
  unfolding check_header check_claims claimed check_signature seconds_of
  check_parts now_ms expected h b s (some header) (some payload) =
      if check_header expected header
        && check_claims expected payload
        && check_signature expected h b s
      then claimed now_ms (text_of (get "jti" payload)) (seconds_of (get "iat" payload))
      else none
  check_parts now_ms expected h b s _ _ = none

  check_segments : ℕ → SessionProofExpectation → List String → Option VerifiedSessionProof
  unfolding is_segment decode_object check_parts
  check_segments now_ms expected (h ∷ b ∷ s ∷ []) =
      if is_segment h && is_segment b && is_segment s
      then check_parts now_ms expected h b s (decode_object h header_keys)
          (decode_object b payload_keys)
      else none
  check_segments now_ms expected _ = none

  unfoldable pub verify_session_proof_claims :
      Option String → SessionProofExpectation → ℕ → Option VerifiedSessionProof
  unfolding check_segments
  verify_session_proof_claims none expected now_ms = none
  verify_session_proof_claims (some proof) expected now_ms =
      check_segments now_ms expected (split b'.' proof)
