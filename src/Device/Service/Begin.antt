-- ===== src/Device/Service/Begin.antt =====
-- `start` of `DeviceAuthorizationService`.
pub mod Laws
pub mod Limit
use mathlib.Core.Option
use openkey.Common.{ℕ, ◌+◌, ◌-◌, ◌*◌, ◌/◌, String, Option, none, some, List, leb, if◌then◌else◌}
use openkey.Common.Results.{Result, ok, err, ◌>>=◌}
use openkey.Text.{◌<>◌}
use openkey.Json.{str}
use openkey.Device.Types.{
  DeviceAuthorizationRecord, pending, DeviceAuthorizationError, device_error, invalid_request,
  rate_limited, transaction_ttl_ms, poll_interval, start_limit, start_window_ms,
}
use openkey.Device.Platform.{Platform}
use openkey.Device.Store
use openkey.Device.Store.{Store, is_pending, is_approved}
use openkey.Device.UserCode.{Draw, display_user_code, fresh_user_code}
use openkey.Device.Start.{StartInput, Checked, check_start, canonical_origin}
use openkey.Device.Service.{Options}

pub record StartResponse : Type 0 where
  pub transaction_id : String
  pub user_code : String
  pub verification_uri : String
  pub verification_uri_complete : String
  pub expires_in : ℕ
  pub interval : ℕ

module _ (p : Platform) (o : Options) where
  unfoldable pub ip_hash : String → String
  ip_hash request_ip = p.sha256 ("device-auth-ip\0" <> o.encryption_secret <> "\0" <> request_ip)

  unfoldable pub new_record :
      ℕ → StartInput → Checked → String → String → String → DeviceAuthorizationRecord
  new_record now input c hash id raw = record {
    id = id;
    user_code = raw;
    device_secret_hash = input.device_secret_hash;
    code_challenge = input.code_challenge;
    session_did = input.session_did;
    public_jwk = c.public_jwk;
    relay_public_jwk = c.relay_public_jwk;
    permissions = c.permissions;
    approved_permissions = none;
    reason = c.reason;
    node_origin = c.node_origin;
    share_origin = c.share_origin;
    delegation_expires_at = now + transaction_ttl_ms + c.delegation_ttl_seconds * 1000;
    delegation_ttl_seconds = c.delegation_ttl_seconds;
    suggested_ttl_seconds = c.suggested_ttl_seconds;
    transaction_expires_at = now + transaction_ttl_ms;
    requested_at = now;
    request_ip_hash = hash;
    next_poll_at = now;
    poll_interval_seconds = poll_interval;
    status = pending;
    approved_by_user_id = none;
    encrypted_result = none;
    consumed_at = none;
  }

  -- The response, made after the record is stored.
  unfoldable pub start_response : String → String → Result DeviceAuthorizationError StartResponse
  start_response id raw = do
    origin ← canonical_origin p (some (str o.verification_origin))
    ok (record {
      transaction_id = id;
      user_code = display_user_code p raw;
      verification_uri = origin <> "/device";
      verification_uri_complete =
          origin <> "/device" <> "?user_code=" <> p.encode_uri_component (display_user_code p raw);
      expires_in = transaction_ttl_ms / 1000;
      interval = poll_interval;
    })

  -- The limit, in the store that the count meets, and the loop that draws the code.
  start_limited :
      ℕ
      → StartInput
      → Checked
      → String
      → String
      → List Draw
      → Store
      → Option (Result DeviceAuthorizationError DeviceAuthorizationRecord)
  unfolding new_record
  start_limited now input c hash id draws t =
      if leb start_limit (Store.count_recent_by_ip_hash hash (now - start_window_ms) t)
      then some (err (device_error rate_limited 429))
      else Option.map (λ raw. ok (new_record now input c hash id raw)) (fresh_user_code draws)

  -- The part of `start` that reads: the record to store. `id` and the draws are the random values;
  -- `none` while the draws have not yet met a fresh code.
  unfoldable pub start_read :
      ℕ
      → Option StartInput
      → String
      → String
      → List Draw
      → Store
      → Option (Result DeviceAuthorizationError DeviceAuthorizationRecord)
  unfolding start_limited ip_hash
  start_read now none ip id draws t = some (err (device_error invalid_request 400))
  start_read now (some input) ip id draws t = elim (check_start p now (some input)) [
    | err e ↦ some (err e)
    | ok c ↦ start_limited now input c (ip_hash ip) id draws t
  ]

  -- The whole of `start`. Other requests may run at each await: `t` is the store that the count
  -- meets, `v` the one that is swept, and `w` the one that the record is written to. The stores
  -- returned are those that the sweep and the write leave.
  unfoldable pub start :
      ℕ
      → Option StartInput
      → String
      → String
      → List Draw
      → Store
      → Store
      → Store
      → Option (Store × Store × Result DeviceAuthorizationError StartResponse)
  unfolding start_read start_response
  start now input ip id draws t v w = elim (start_read now input ip id draws t) [
    | none ↦ none
    | some (err e) ↦ some (v, w, err e)
    | some (ok r) ↦
        some (Store.wipe_expired_results now v, Store.create r w, start_response r.id r.user_code)
  ]
