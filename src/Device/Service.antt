-- ===== src/Device/Service.antt =====
-- `DeviceAuthorizationService` of apps/api/src/services/device-authorization.ts over its in-memory
-- store. A method takes the readings of the clock that it makes, and returns the store after it and
-- its result; a throw is an `err` with the store as the method left it.
pub mod Begin
pub mod Window
pub mod Approve
pub mod Poll
use openkey.Common.{
  ℕ, suc, ◌+◌, ◌-◌, ◌*◌, ◌/◌, min, String, Bool, true, false, not, ◌&&◌, ◌||◌, Option, none, some,
  List, [], ◌∷◌, ◌==◌, leb, ltb, if◌then◌else◌,
}
use openkey.Common.Results.{Result, ok, err, ◌>>=◌, ◌>>◌, reject_if}
use openkey.Text.{◌<>◌}
use openkey.Json.{Json, str}
use openkey.Device.Types.{
  DevicePermission, DeviceRelayEnvelope, DeviceAuthorizationRecord, Status, pending, approved,
  denied, consumed, DeviceAuthorizationError, device_error, invalid_request, invalid_result,
  invalid_grant, expired_token, slow_down, rate_limited, transaction_ttl_ms, result_retention_ms,
  poll_interval, start_limit, start_window_ms, clock_skew_ms,
}
use openkey.Device.Platform.{Platform, SiweMessage}
use openkey.Device.Jwk.{strict_session_did, is_text}
use openkey.Device.Store
use openkey.Device.Store.{Store, is_pending, is_approved}
use openkey.Device.UserCode.{normalize_user_code, display_user_code, fresh_user_code}
use openkey.Device.Start.{StartInput, Checked, check_start, canonical_origin}
use openkey.Device.Relay.{RelayApproval, validate_relay_approval}
use openkey.Device.Scope.{share_device_permissions}
use openkey.Device.Scope.Approved.{json_equal, permissions_json}

pub record Options : Type 0 where
  pub verification_origin : String
  pub encryption_secret : String

abbrev pub Outcome : Type 0 → Type 0
Outcome A = Store × Result DeviceAuthorizationError A

abbrev pub expired : DeviceAuthorizationError
expired = device_error expired_token 410

-- A record that is live: `record && transactionExpiresAt > now`.
abbrev pub live :
    ℕ → Option DeviceAuthorizationRecord → Result DeviceAuthorizationError DeviceAuthorizationRecord
live now none = err expired
live now (some r) = if leb r.transaction_expires_at now then err expired else ok r

abbrev pub live_pending :
    ℕ → Option DeviceAuthorizationRecord → Result DeviceAuthorizationError DeviceAuthorizationRecord
live_pending now none = err expired
live_pending now (some r) =
    if not (is_pending r.status) || leb r.transaction_expires_at now then err expired else ok r

module _ (p : Platform) where
  unfoldable pub credentials_match : DeviceAuthorizationRecord → String → String → Bool
  credentials_match r device_secret code_verifier =
      p.sha256 device_secret == r.device_secret_hash && p.sha256 code_verifier == r.code_challenge

pub record Credentials : Type 0 where
  pub transaction_id : String
  pub device_secret : String
  pub code_verifier : String
