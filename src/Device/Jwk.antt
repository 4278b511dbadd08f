-- ===== src/Device/Jwk.antt =====
-- The public keys of a device request and the session DID: `publicSessionJwk`, `publicRelayJwk`,
-- `base58btc`, `sessionDidForPublicJwk` and `strictSessionDid`.
pub mod Base58
use openkey.Common.{
  ℕ, String, Bool, true, false, not, ◌&&◌, ◌||◌, Option, none, some, List, [], ◌∷◌, ◌==◌, nat_eq,
  if◌then◌else◌, any, all, is_some, length,
}
use openkey.Common.Results.{Result, ok, err, ◌>>=◌, ◌>>◌, reject_if}
use openkey.Text.{◌<>◌, is_base64url_43, includes}
use openkey.Json.{Json, str, obj, Fields, end, field, get, keys}
use openkey.Device.Types.{DeviceAuthorizationError, device_error, invalid_request}
use openkey.Device.Platform.{Platform}
use Base58.{base58btc}

-- `value === text`
unfoldable pub is_text : String → Option Json → Bool
is_text t (some (str s)) = s == t
is_text t _ = false

abbrev bad_request : DeviceAuthorizationError
bad_request = device_error invalid_request 400

-- `typeof value === 'string' ? value : undefined`
unfoldable pub text_of : Option Json → Option String
text_of (some (str s)) = some s
text_of _ = none

abbrev private_fields : List String
private_fields = "d" ∷ "p" ∷ "q" ∷ "dp" ∷ "dq" ∷ "qi" ∷ "oth" ∷ "k" ∷ []

-- `...(typeof jwk.kid === 'string' && jwk.kid.length > 0 ? { kid: jwk.kid } : {})`
kid_fields : Option Json → Fields
kid_fields (some (str kid)) = if kid == "" then end else field "kid" (str kid) end
kid_fields _ = end

session_fields : Fields → Option String → Result DeviceAuthorizationError Fields
session_fields jwk none = err bad_request
session_fields jwk (some x) =
    if is_text "OKP" (get "kty" jwk)
      && is_text "Ed25519" (get "crv" jwk)
      && is_base64url_43 x
      && not (any (λ name. is_some (get name jwk)) private_fields)
    then ok (
        field "kty" (str "OKP")
          (field "crv" (str "Ed25519") (field "x" (str x) (kid_fields (get "kid" jwk)))))
    else err bad_request

unfoldable pub public_session_jwk : Json → Result DeviceAuthorizationError Fields
unfolding session_fields kid_fields
public_session_jwk (obj jwk) = session_fields jwk (text_of (get "x" jwk))
public_session_jwk _ = err bad_request

module _ (p : Platform) where
  -- decodes to 32 bytes, in the one canonical spelling
  canonical_32 : String → Bool
  canonical_32 x =
      let decoded = p.base64url_decode x in
      nat_eq (length decoded) 32 && p.base64url_encode decoded == x

  relay_fields : Fields → Option String → Option String → Result DeviceAuthorizationError Fields
  unfolding canonical_32
  relay_fields jwk (some x) (some y) = do
    reject_if
        (not (is_text "EC" (get "kty" jwk))
          || not (is_text "P-256" (get "crv" jwk))
          || not (is_base64url_43 x)
          || not (is_base64url_43 y)
          || is_some (get "d" jwk))
        bad_request
    reject_if (not (canonical_32 x && canonical_32 y)) bad_request
    ok (
        field "kty" (str "EC")
          (field "crv" (str "P-256") (field "x" (str x) (field "y" (str y) end))))
  relay_fields jwk _ _ = err bad_request

  unfoldable pub public_relay_jwk : Json → Result DeviceAuthorizationError Fields
  unfolding relay_fields
  public_relay_jwk (obj jwk) = relay_fields jwk (text_of (get "x" jwk)) (text_of (get "y" jwk))
  public_relay_jwk _ = err bad_request

  -- The DID of the coordinate of a checked key.
  did_of_x : Option String → Result DeviceAuthorizationError String
  unfolding canonical_32
  did_of_x none = err bad_request
  did_of_x (some x) =
      if canonical_32 x
      then (let identifier = "z" <> base58btc (0xed ∷ 0x01 ∷ p.base64url_decode x) in
          ok ("did:key:" <> identifier <> "#" <> identifier))
      else err bad_request

  unfoldable pub session_did_for_public_jwk : Json → Result DeviceAuthorizationError String
  unfolding did_of_x
  session_did_for_public_jwk value = do
    jwk ← public_session_jwk value
    did_of_x (text_of (get "x" jwk))

  -- `'kid' in value && (typeof value.kid !== 'string' || value.kid.length === 0)`
  bad_kid : Option Json → Bool
  bad_kid none = false
  bad_kid (some (str kid)) = kid == ""
  bad_kid (some _) = true

  unfoldable pub strict_session_did : Json → Result DeviceAuthorizationError String
  unfolding bad_kid
  strict_session_did (obj jwk) = do
    reject_if
        (any (λ name. not (includes ("kty" ∷ "crv" ∷ "x" ∷ "kid" ∷ []) name)) (keys jwk)
          || bad_kid (get "kid" jwk))
        bad_request
    session_did_for_public_jwk (obj jwk)
  strict_session_did _ = err bad_request
