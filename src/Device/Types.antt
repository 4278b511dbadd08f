-- ===== src/Device/Types.antt =====
-- The records and constants of apps/api/src/services/device-authorization.ts. A `Date` is its
-- milliseconds since the epoch; the message of an error is left out.
use openkey.Common.{ℕ, ◌*◌, String, Option, List}
use openkey.Json.{Json}

abbrev pub transaction_ttl_ms : ℕ
transaction_ttl_ms = 10 * 60 * 1000

abbrev pub result_retention_ms : ℕ
result_retention_ms = 10 * 60 * 1000

abbrev pub default_delegation_ttl_ms : ℕ
default_delegation_ttl_ms = 30 * 24 * 60 * 60 * 1000

abbrev pub poll_interval : ℕ
poll_interval = 2

abbrev pub start_limit : ℕ
start_limit = 5

abbrev pub start_window_ms : ℕ
start_window_ms = 10 * 60 * 1000

abbrev pub clock_skew_ms : ℕ
clock_skew_ms = 5000

pub record DevicePermission : Type 0 where
  pub service : String
  pub space : String
  pub path : String
  pub actions : List String

pub data Status : Type 0 where
  pending approved denied consumed : Status

-- `encryptedResult` is the `JSON.stringify` of an envelope; the model keeps the envelope.
pub record DeviceRelayEnvelope : Type 0 where
  pub ephemeral_public_jwk : Json
  pub nonce : String
  pub ciphertext : String

pub record DeviceAuthorizationRecord : Type 0 where
  pub id : String
  pub user_code : String
  pub device_secret_hash : String
  pub code_challenge : String
  pub session_did : String
  pub public_jwk : Json
  pub relay_public_jwk : Json
  pub permissions : List DevicePermission
  pub approved_permissions : Option (List DevicePermission)
  pub reason : Option String
  pub node_origin : String
  pub share_origin : String
  pub delegation_expires_at : ℕ
  pub delegation_ttl_seconds : ℕ
  pub suggested_ttl_seconds : Option ℕ
  pub transaction_expires_at : ℕ
  pub requested_at : ℕ
  pub request_ip_hash : String
  pub next_poll_at : ℕ
  pub poll_interval_seconds : ℕ
  pub status : Status
  pub approved_by_user_id : Option String
  pub encrypted_result : Option DeviceRelayEnvelope
  pub consumed_at : Option ℕ

-- The `code` of a `DeviceAuthorizationError`.
pub data ErrorCode : Type 0 where
  invalid_request invalid_scope invalid_result invalid_grant : ErrorCode
  expired_token slow_down rate_limited : ErrorCode

pub data DeviceAuthorizationError : Type 0 where
  device_error : ErrorCode → ℕ → DeviceAuthorizationError
