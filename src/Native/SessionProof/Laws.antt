-- ===== src/Native/SessionProof/Laws.antt =====
-- What an accepted proof is bound to.
use openkey.Common.{
  ℕ, ◌+◌, ◌*◌, ◌≤◌, String, ◌≡◌, refl, true, Option, none, some, List, [], ◌∷◌, arith, eq_iff,
}
use openkey.Text.{◌<>◌, split}
use openkey.Json.{Json, null, bool, num, str, arr, obj, whole, other, Fields, get}
use openkey.Device.Jwk.{is_text, text_of}
use openkey.Native.SessionProof.{
  ProofPlatform, SessionProofExpectation, VerifiedSessionProof, header_keys, payload_keys,
  object_with_keys, decode_object, check_header, check_claims, check_signature, claimed, seconds_of,
  check_parts, check_segments, verify_session_proof_claims, credential_hash,
}

-- The parts of an accepted proof.
record Accepts (p : ProofPlatform) (proof : String) (e : SessionProofExpectation) (now_ms : ℕ)
    (v : VerifiedSessionProof) : Type 0 where
  h : String
  b : String
  s : String
  header : Fields
  payload : Fields
  parts : split b'.' proof ≡ h ∷ b ∷ s ∷ []
  decoded_header : decode_object p h header_keys ≡ some header
  decoded_payload : decode_object p b payload_keys ≡ some payload
  header_fits : check_header p e header ≡ true
  claims_fit : check_claims p e payload ≡ true
  signed : check_signature p e h b s ≡ true
  read : claimed p now_ms (text_of (get "jti" payload)) (seconds_of (get "iat" payload)) ≡ some v

module _ (p : ProofPlatform) (e : SessionProofExpectation) (now_ms : ℕ)
    (v : VerifiedSessionProof) where
  check_parts-Accepts :
      (proof h b s : String) (header payload : Option Fields)
      → split b'.' proof ≡ h ∷ b ∷ s ∷ []
      → decode_object p h header_keys ≡ header
      → decode_object p b payload_keys ≡ payload
      → check_parts p now_ms e h b s header payload ≡ some v
      → Accepts p proof e now_ms v
  unfolding check_parts
  check_parts-Accepts proof h b s (some header) (some payload) q dh db k = record {
    h = h;
    b = b;
    s = s;
    header = header;
    payload = payload;
    parts = q;
    decoded_header = dh;
    decoded_payload = db;
    header_fits = ground arith;
    claims_fit = ground arith;
    signed = ground arith;
    read = ground arith;
  }
  check_parts-Accepts proof h b s none payload q dh db k = cc
  check_parts-Accepts proof h b s (some header) none q dh db k = cc

  check_segments-Accepts :
      (proof : String) (l : List String)
      → split b'.' proof ≡ l
      → check_segments p now_ms e l ≡ some v
      → Accepts p proof e now_ms v
  unfolding check_segments
  check_segments-Accepts proof (h ∷ b ∷ s ∷ []) q k =
      check_parts-Accepts proof h b s (decode_object p h header_keys)
        (decode_object p b payload_keys) q refl refl (ground arith)
  check_segments-Accepts proof [] q k = cc
  check_segments-Accepts proof (h ∷ []) q k = cc
  check_segments-Accepts proof (h ∷ b ∷ []) q k = cc
  check_segments-Accepts proof (h ∷ b ∷ s ∷ t ∷ l) q k = cc

  verify-Accepts :
      (proof : String)
      → verify_session_proof_claims p (some proof) e now_ms ≡ some v
      → Accepts p proof e now_ms v
  unfolding verify_session_proof_claims
  verify-Accepts proof k = check_segments-Accepts proof (split b'.' proof) refl k

is_text-text_of : (t : String) (o : Option Json) → is_text t o ≡ true → text_of o ≡ some t
unfolding is_text text_of
is_text-text_of t (some (str s)) k = ground (arith, eq_iff s t)
is_text-text_of t (some null) k = cc
is_text-text_of t (some (bool b)) k = cc
is_text-text_of t (some (num n)) k = cc
is_text-text_of t (some (arr xs)) k = cc
is_text-text_of t (some (obj fs)) k = cc
is_text-text_of t none k = cc

seconds_of-num : (o : Option Json) (n : ℕ) → seconds_of o ≡ some n → o ≡ some (num (whole n))
unfolding seconds_of
seconds_of-num (some (num (whole m))) n k = ground arith
seconds_of-num (some (num (other m))) n k = cc
seconds_of-num (some null) n k = cc
seconds_of-num (some (bool b)) n k = cc
seconds_of-num (some (str s)) n k = cc
seconds_of-num (some (arr xs)) n k = cc
seconds_of-num (some (obj fs)) n k = cc
seconds_of-num none n k = cc

object_with_keys-obj :
    (p : ProofPlatform) (expected : List String) (o : Option Json) (fs : Fields)
    → object_with_keys p expected o ≡ some fs
    → o ≡ some (obj fs)
unfolding object_with_keys
object_with_keys-obj p expected (some (obj gs)) fs k = ground arith
object_with_keys-obj p expected (some null) fs k = cc
object_with_keys-obj p expected (some (bool b)) fs k = cc
object_with_keys-obj p expected (some (num n)) fs k = cc
object_with_keys-obj p expected (some (str s)) fs k = cc
object_with_keys-obj p expected (some (arr xs)) fs k = cc
object_with_keys-obj p expected none fs k = cc

decode_object-obj :
    (p : ProofPlatform) (segment : String) (expected : List String) (fs : Fields)
    → decode_object p segment expected ≡ some fs
    → p.decode_json segment ≡ some (obj fs)
unfolding decode_object
decode_object-obj p segment expected fs k =
    object_with_keys-obj p expected (p.decode_json segment) fs k

claimed_fields :
    (p : ProofPlatform) (now_ms : ℕ) (jti : Option String) (iat : Option ℕ)
    (v : VerifiedSessionProof)
    → claimed p now_ms jti iat ≡ some v
    → (jti ≡ some v.jti)
      × (iat ≡ some v.iat)
      × (now_ms ≤ v.iat * 1000 + 60_000)
      × (v.iat * 1000 ≤ now_ms + 60_000)
unfolding claimed
claimed_fields p now_ms (some jti) (some iat) v k =
    (ground arith, ground arith, ground arith, ground arith)
claimed_fields p now_ms (some jti) none v k = cc
claimed_fields p now_ms none iat v k = cc

-- What an accepted proof shows: the session key signed its first two segments, which name that key,
-- the endpoint, the client and the hash of the credential, within a minute of the clock.
pub record IsBoundTo (p : ProofPlatform) (proof : String) (e : SessionProofExpectation) (now_ms : ℕ)
    (v : VerifiedSessionProof) : Type 0 where
  pub h : String
  pub b : String
  pub s : String
  pub header : Fields
  pub payload : Fields
  pub segments : split b'.' proof ≡ h ∷ b ∷ s ∷ []
  pub signed : p.verify_ed25519 e.session_x (h <> ("." <> b)) (p.base64url_decode s) ≡ true
  pub decoded_header : p.decode_json h ≡ some (obj header)
  pub decoded_payload : p.decode_json b ≡ some (obj payload)
  pub kid : text_of (get "kid" header) ≡ some e.session_jkt
  pub htu : text_of (get "htu" payload) ≡ some e.htu
  pub client_id : text_of (get "client_id" payload) ≡ some e.client_id
  pub cred_hash : text_of (get "cred_hash" payload) ≡ some (p.sha256 e.credential)
  pub jti : text_of (get "jti" payload) ≡ some v.jti
  pub iat : get "iat" payload ≡ some (num (whole v.iat))
  pub not_late : now_ms ≤ v.iat * 1000 + 60_000
  pub not_early : v.iat * 1000 ≤ now_ms + 60_000

module _ (p : ProofPlatform) (e : SessionProofExpectation) (now_ms : ℕ) (v : VerifiedSessionProof)
    (proof : String) where
  -- An accepted proof was signed by the session key over segments that name that key, the endpoint,
  -- the client and the hash of the credential, at most a minute from the clock.
  pub verify_session_proof_claims_sound :
      verify_session_proof_claims p (some proof) e now_ms ≡ some v → IsBoundTo p proof e now_ms v
  unfolding check_header check_claims check_signature credential_hash
  verify_session_proof_claims_sound k =
      let a = verify-Accepts p e now_ms v proof k in
      let (jti, iat, late, early) =
        claimed_fields p now_ms (text_of (get "jti" a.payload)) (seconds_of (get "iat" a.payload)) v
          a.read in
      record {
        h = a.h;
        b = a.b;
        s = a.s;
        header = a.header;
        payload = a.payload;
        segments = a.parts;
        signed = ground (arith, a.signed);
        decoded_header = decode_object-obj p a.h header_keys a.header a.decoded_header;
        decoded_payload = decode_object-obj p a.b payload_keys a.payload a.decoded_payload;
        kid = is_text-text_of e.session_jkt (get "kid" a.header) (ground (arith, a.header_fits));
        htu = is_text-text_of e.htu (get "htu" a.payload) (ground (arith, a.claims_fit));
        client_id =
            is_text-text_of e.client_id (get "client_id" a.payload) (ground (arith, a.claims_fit));
        cred_hash =
            is_text-text_of (p.sha256 e.credential) (get "cred_hash" a.payload)
              (ground (arith, a.claims_fit));
        jti = jti;
        iat = seconds_of-num (get "iat" a.payload) v.iat iat;
        not_late = late;
        not_early = early;
      }
