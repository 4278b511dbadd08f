-- ===== src/Device/Service/Window.antt =====
-- `assertDelegationWindow` and `lookup` of `DeviceAuthorizationService`, with `canonicalSiweFields`.
use openkey.Common.{
  ℕ, ◌+◌, ◌*◌, String, Bool, not, ◌&&◌, ◌||◌, Option, none, some, List, ◌==◌, leb, ltb,
  if◌then◌else◌,
}
use openkey.Common.Results.{Result, ok, err, ◌>>=◌, ◌>>◌, reject_if}
use openkey.Json.{Json, str}
use openkey.Device.Types.{
  DevicePermission, DeviceAuthorizationRecord, DeviceAuthorizationError, device_error,
  invalid_request, clock_skew_ms,
}
use openkey.Device.Platform.{Platform}
use openkey.Device.Jwk.{strict_session_did, is_text}
use openkey.Device.Store
use openkey.Device.Store.{Store, is_pending, is_approved}
use openkey.Device.UserCode.{normalize_user_code}
use openkey.Device.Scope.{share_device_permissions}
use openkey.Device.Scope.Approved.{json_equal, permissions_json}
use openkey.Device.Service.{live_pending}

-- What `lookup` shows of a pending record: neither the secret hashes, nor the address hash, nor the
-- result. The approval's own fields are absent while it is pending.
pub record DeviceView : Type 0 where
  pub id : String
  pub user_code : String
  pub session_did : String
  pub public_jwk : Json
  pub relay_public_jwk : Json
  pub permissions : List DevicePermission
  pub reason : Option String
  pub node_origin : String
  pub share_origin : String
  pub delegation_expires_at : ℕ
  pub delegation_ttl_seconds : ℕ
  pub suggested_ttl_seconds : Option ℕ
  pub transaction_expires_at : ℕ
  pub requested_at : ℕ
  pub next_poll_at : ℕ
  pub poll_interval_seconds : ℕ
  pub share_only : Bool

-- The expiry that the guard of the signing routes is given: a signed SIWE, or a time.
pub data WindowInput : Type 0 where
  signed_siwe : String → WindowInput
  expires_at : Option ℕ → WindowInput

module _ (p : Platform) where
  -- `canonicalSiweFields`
  pub canonical_siwe_fields : String → Option (String × String)
  canonical_siwe_fields message = elim (p.parse_siwe message) [
    | none ↦ none
    | some m ↦ elim m.expiration_time [
      | none ↦ none
      | some e ↦ if p.prepare_message m == message && not (e == "") then some (m.uri, e) else none
    ]
  ]

  -- The signed DID and the expiry, `none` for NaN.
  window_fields : String → WindowInput → Result DeviceAuthorizationError (String × Option ℕ)
  unfolding canonical_siwe_fields
  window_fields jwk_did (expires_at t) = ok (jwk_did, t)
  window_fields jwk_did (signed_siwe message) = elim (canonical_siwe_fields message) [
    | none ↦ err (device_error invalid_request 400)
    | some (uri, e) ↦ ok (uri, p.parse_date e)
  ]

  check_window :
      DeviceAuthorizationRecord → ℕ → Option ℕ → Result DeviceAuthorizationError (Unit {0})
  check_window r now none = err (device_error invalid_request 400)
  check_window r now (some t) =
      reject_if
        (ltb (now + r.delegation_ttl_seconds * 1000 + clock_skew_ms) t
          || ltb r.delegation_expires_at t)
        (device_error invalid_request 400)

  find_transaction : Option Json → Store → Option DeviceAuthorizationRecord
  find_transaction (some (str id)) s = Store.find_by_id id s
  find_transaction _ s = none

  unfoldable pub assert_delegation_window :
      ℕ
      → Option Json
      → Option Json
      → Json
      → WindowInput
      → Store
      → Result DeviceAuthorizationError (Unit {0})
  unfolding window_fields check_window find_transaction
  assert_delegation_window now transaction_id node_origin jwk input s = do
    r ← live_pending now (find_transaction transaction_id s)
    jwk_did ← strict_session_did p jwk
    (signed_did, t) ← window_fields jwk_did input
    reject_if
        (not (is_text r.node_origin node_origin)
          || not (jwk_did == r.session_did)
          || not (signed_did == r.session_did))
        (device_error invalid_request 400)
    check_window r now t

  unfoldable pub view_of : DeviceAuthorizationRecord → DeviceView
  view_of r = record {
    id = r.id;
    user_code = r.user_code;
    session_did = r.session_did;
    public_jwk = r.public_jwk;
    relay_public_jwk = r.relay_public_jwk;
    permissions = r.permissions;
    reason = r.reason;
    node_origin = r.node_origin;
    share_origin = r.share_origin;
    delegation_expires_at = r.delegation_expires_at;
    delegation_ttl_seconds = r.delegation_ttl_seconds;
    suggested_ttl_seconds = r.suggested_ttl_seconds;
    transaction_expires_at = r.transaction_expires_at;
    requested_at = r.requested_at;
    next_poll_at = r.next_poll_at;
    poll_interval_seconds = r.poll_interval_seconds;
    share_only =
        json_equal p (permissions_json r.permissions) (permissions_json share_device_permissions);
  }

  unfoldable pub lookup : ℕ → String → Store → Option DeviceView
  unfolding view_of
  lookup now user_code s = elim (Store.find_by_user_code (normalize_user_code p user_code) s) [
    | none ↦ none
    | some r ↦
        if leb r.transaction_expires_at now || not (is_pending r.status)
        then none
        else some (view_of r)
  ]
