-- ===== src/Handoff/Types.antt =====
-- The records and errors of apps/api/src/services/prepared-handoff.ts. A `Date` is its milliseconds,
-- and a field that is absent or null is `none`; the message of an error is left out. A request is the
-- JSON object that was validated. Hashes, keys and callbacks are never empty texts, so that the
-- code's tests of their truth are tests of their presence.
use openkey.Common.{ℕ, String, Option}
use openkey.Json.{Fields}
use openkey.Device.Platform.{Platform}

pub record Delivery : Type 0 where
  pub handoff_id : String
  pub callback : Option String
  pub state : String
  pub cancel_secret : String

pub data Status : Type 0 where
  pending cancelled consumed : Status

pub record PreparedHandoffRecord : Type 0 where
  pub ticket_hash : String
  pub cancel_secret_hash : String
  pub nonce_hash : String
  pub request : Fields
  pub callback : Option String
  pub state : String
  pub expires_at : ℕ
  pub requested_at : ℕ
  pub status : Status
  pub owner_id : String
  pub context_token_hash : Option String
  pub selected_key_id : Option String

-- The `code` of a `PreparedHandoffError`.
pub data ErrorCode : Type 0 where
  prepared_expired rate_limited handoff_claimed handoff_replayed handoff_not_found : ErrorCode
  handoff_expired handoff_cancelled handoff_consumed binding_mismatch : ErrorCode
  handoff_context_unavailable invalid_cancel_secret : ErrorCode

-- `thrown` is an exception of another class.
pub data PreparedHandoffError : Type 0 where
  handoff_error : ErrorCode → ℕ → PreparedHandoffError
  thrown : PreparedHandoffError

-- What is taken from outside: the platform of device authorization, and
-- `createHash('sha256').update(text).digest('hex')`.
pub record HandoffPlatform : Type 0 where
  pub base : Platform
  pub sha256_hex : String → String
