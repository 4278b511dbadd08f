-- ===== src/Device/Relay.antt =====
-- `validateRelayApproval`: the encrypted relay result that the owner's browser posts, and its
-- binding to the request. Every refusal of the relay itself is `invalid_result`.
pub mod Laws
use openkey.Common.{
  ℕ, ◌+◌, ◌*◌, String, Bool, false, not, ◌&&◌, ◌||◌, Option, none, some, List, ◌==◌, leb, ltb,
  nat_eq, if◌then◌else◌, length,
}
use openkey.Common.Results.{Result, ok, err, ◌>>=◌, ◌>>◌, reject_if}
use openkey.Text.{all_chars, is_alnum}
use openkey.Json.{Json, num, obj, Fields, whole, get}
use openkey.Device.Types.{
  DevicePermission, DeviceRelayEnvelope, DeviceAuthorizationRecord, DeviceAuthorizationError,
  device_error, invalid_result,
}
use openkey.Device.Platform.{Platform}
use openkey.Device.Jwk.{is_text, text_of, public_relay_jwk}
use openkey.Device.Scope.Approved.{approved_permission_subset}

abbrev pub bad_result : DeviceAuthorizationError
bad_result = device_error invalid_result 400

pub record RelayApproval : Type 0 where
  pub relay : DeviceRelayEnvelope
  pub delegation_expires_at : ℕ
  pub approved_permissions : List DevicePermission

is_one : Option Json → Bool
is_one (some (num (whole n))) = nat_eq n 1
is_one _ = false

object_of : Option Json → Option Fields
object_of (some (obj fs)) = some fs
object_of _ = none

binding_matches : DeviceAuthorizationRecord → Fields → Bool
binding_matches r bound =
    is_text r.id (get "transactionId" bound)
    && is_text r.session_did (get "sessionDid" bound)
    && is_text r.node_origin (get "nodeOrigin" bound)
    && is_text r.share_origin (get "shareOrigin" bound)

module _ (p : Platform) where
  -- `canonicalRelayBytes`
  relay_bytes_of_text : Option String → Result DeviceAuthorizationError (List ℕ)
  unfolding all_chars
  relay_bytes_of_text none = err bad_result
  relay_bytes_of_text (some value) = do
    reject_if
        (value == "" || not (all_chars (λ c. is_alnum c || nat_eq c b'_' || nat_eq c b'-') value))
        bad_result
    reject_if (not (p.base64url_encode (p.base64url_decode value) == value)) bad_result
    ok (p.base64url_decode value)

  canonical_relay_bytes : Option Json → Result DeviceAuthorizationError (List ℕ)
  unfolding relay_bytes_of_text
  canonical_relay_bytes value = relay_bytes_of_text (text_of value)

  -- The expiry, checked against the approval window; NaN is `none`.
  check_expiry : DeviceAuthorizationRecord → ℕ → Option ℕ → Result DeviceAuthorizationError ℕ
  check_expiry r now none = err bad_result
  check_expiry r now (some t) =
      if leb t now || ltb (now + r.delegation_ttl_seconds * 1000) t || ltb r.delegation_expires_at t
      then err bad_result
      else ok t

  date_of : Option String → Option ℕ
  date_of none = none
  date_of (some text) = p.parse_date text

  -- An absent key is refused like `null`.
  or_null : Option Json → Json
  or_null none = Json.null
  or_null (some v) = v

  check_relay : Fields → Result DeviceAuthorizationError DeviceRelayEnvelope
  unfolding canonical_relay_bytes or_null
  check_relay relay = do
    ephemeral ← public_relay_jwk p (or_null (get "ephemeralPublicJwk" relay))
    nonce ← canonical_relay_bytes (get "nonce" relay)
    ciphertext ← canonical_relay_bytes (get "ciphertext" relay)
    reject_if
        (not (nat_eq (length nonce) 12)
          || leb (length ciphertext) 16
          || ltb (1024 * 1024) (length ciphertext))
        bad_result
    ok (record {
      ephemeral_public_jwk = obj ephemeral;
      nonce = p.base64url_encode nonce;
      ciphertext = p.base64url_encode ciphertext;
    })

  check_parts :
      DeviceAuthorizationRecord
      → ℕ
      → Option Fields
      → Option Fields
      → Result DeviceAuthorizationError RelayApproval
  unfolding is_one binding_matches check_expiry date_of check_relay
  check_parts r now (some relay) (some bound) = do
    reject_if
        (not (is_one (get "version" relay))
          || not (is_text "ECDH-P256-A256GCM" (get "algorithm" relay)))
        bad_result
    reject_if (not (binding_matches r bound)) bad_result
    permissions ← approved_permission_subset p r.permissions (get "permissions" bound)
    expires ← check_expiry r now (date_of (text_of (get "delegationExpiresAt" bound)))
    envelope ← check_relay relay
    ok (record {
      relay = envelope;
      delegation_expires_at = expires;
      approved_permissions = permissions;
    })
  check_parts r now _ _ = err bad_result

  unfoldable pub validate_relay_approval :
      DeviceAuthorizationRecord → Json → ℕ → Result DeviceAuthorizationError RelayApproval
  unfolding check_parts object_of
  validate_relay_approval r (obj approval) now =
      check_parts r now (object_of (get "relay" approval)) (object_of (get "binding" approval))
  validate_relay_approval r _ now = err bad_result
