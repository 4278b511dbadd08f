-- ===== src/Device/Start.antt =====
-- What `DeviceAuthorizationService.start` checks of a request: `canonicalOrigin`, `requestReason`,
-- `requestedTtlSeconds` and `requestedSuggestedTtlSeconds`.
use Prim.Native.Char.{code}
use openkey.Common.{
  ℕ, suc, ◌+◌, ◌*◌, ◌/◌, String, Bool, true, false, not, ◌&&◌, ◌||◌, Option, none, some, List, ◌==◌,
  leb, ltb, if◌then◌else◌,
}
use openkey.Common.Results.{Result, ok, err, ◌>>=◌, ◌>>◌, reject_if}
use openkey.Text.{is_base64url_43, remove_chars}
use openkey.Json.{Json, str, num, obj, whole}
use openkey.Device.Types.{
  DevicePermission, DeviceAuthorizationError, device_error, invalid_request, transaction_ttl_ms,
  default_delegation_ttl_ms,
}
use openkey.Device.Platform.{Platform, Url}
use openkey.Device.Jwk.{public_session_jwk, public_relay_jwk, session_did_for_public_jwk}
use openkey.Device.Scope.{device_request_permissions}

abbrev pub bad_request : DeviceAuthorizationError
bad_request = device_error invalid_request 400

abbrev max_safe_integer : ℕ
max_safe_integer = 9_007_199_254_740_991

-- `Date.UTC(9999, 11, 31, 23, 59, 59)`
abbrev latest_siwe_time_ms : ℕ
latest_siwe_time_ms = 253_402_300_799_000

-- `seconds > latest` is over the reals, so it is compared in milliseconds.
check_ttl : ℕ → ℕ → Result DeviceAuthorizationError ℕ
check_ttl now seconds =
    if not (leb seconds max_safe_integer)
      || ltb seconds 60
      || ltb latest_siwe_time_ms (seconds * 1000 + now + transaction_ttl_ms)
    then err bad_request
    else ok seconds

unfoldable pub requested_ttl_seconds : Option Json → ℕ → Result DeviceAuthorizationError ℕ
unfolding check_ttl
requested_ttl_seconds none now = check_ttl now (default_delegation_ttl_ms / 1000)
requested_ttl_seconds (some (num (whole n))) now = check_ttl now n
requested_ttl_seconds (some _) now = err bad_request

unfoldable pub requested_suggested_ttl_seconds :
    Option Json → ℕ → Result DeviceAuthorizationError (Option ℕ)
requested_suggested_ttl_seconds none max_seconds = ok none
requested_suggested_ttl_seconds (some (num (whole n))) max_seconds =
    if not (leb n max_safe_integer) || ltb n 60 || ltb max_seconds n
    then err bad_request
    else ok (some n)
requested_suggested_ttl_seconds (some _) max_seconds = err bad_request

-- `replace(/[\u0000-\u001f\u007f-\u009f]/g, ' ')`
control_to_space : String → String
control_to_space String.[] = ""
control_to_space (String.◌∷◌ c s) =
    if leb (code c) 0x1f || (leb 0x7f (code c) && leb (code c) 0x9f)
    then String.◌∷◌ " " (control_to_space s)
    else String.◌∷◌ c (control_to_space s)

-- The explicit ranges of the first pattern, beside the Unicode properties.
is_listed_invisible : ℕ → Bool
is_listed_invisible c =
    leb 0xe0000 c && leb c 0xe007f
    || leb 0x200b c && leb c 0x200f
    || leb 0x202a c && leb c 0x202e
    || leb 0x2060 c && leb c 0x2064
    || leb 0x2066 c && leb c 0x2069
    || leb 0xad c && leb c 0xad
    || leb 0x34f c && leb c 0x34f
    || leb 0x61c c && leb c 0x61c
    || leb 0x115f c && leb c 0x1160
    || leb 0x180e c && leb c 0x180e
    || leb 0x3164 c && leb c 0x3164
    || leb 0xfeff c && leb c 0xfeff
    || leb 0xffa0 c && leb c 0xffa0

-- `length`, in UTF-16 code units
unfoldable pub utf16_length : String → ℕ
utf16_length String.[] = 0
utf16_length (String.◌∷◌ c s) =
    if leb 0x10000 (code c) then suc (suc (utf16_length s)) else suc (utf16_length s)

module _ (p : Platform) where
  -- `replace(/\s+/g, ' ')`; the flag says that the run before was written.
  collapse_spaces : Bool → String → String
  collapse_spaces run String.[] = ""
  collapse_spaces run (String.◌∷◌ c s) =
      let other = String.◌∷◌ c (collapse_spaces false s) in
      let space = if run then collapse_spaces true s else String.◌∷◌ " " (collapse_spaces true s) in
      if p.is_space_char (code c) then space else other

  trim_start : String → String
  trim_start String.[] = ""
  trim_start (String.◌∷◌ c s) = if p.is_space_char (code c) then trim_start s else String.◌∷◌ c s

  trim_end : String → String
  trim_end String.[] = ""
  trim_end (String.◌∷◌ c s) =
      let rest = trim_end s in
      if p.is_space_char (code c) && rest == "" then "" else String.◌∷◌ c rest

  pub normalize_reason : String → String
  unfolding control_to_space is_listed_invisible collapse_spaces trim_start trim_end remove_chars
  normalize_reason value = trim_end (
      trim_start (
        collapse_spaces false (
          control_to_space
            (remove_chars (λ c. p.is_format_char c || is_listed_invisible c) value))))

  unfoldable pub request_reason : Option Json → Result DeviceAuthorizationError (Option String)
  unfolding utf16_length
  request_reason none = ok none
  request_reason (some (str value)) =
      let normalized = normalize_reason value in
      if ltb 200 (utf16_length normalized)
      then err bad_request
      else if normalized == ""
      then ok none
      else ok (some normalized)
  request_reason (some _) = err bad_request

  check_url : String → Option Url → Result DeviceAuthorizationError String
  check_url value none = err bad_request
  check_url value (some url) =
      let loopback = url.hostname == "127.0.0.1" || url.hostname == "localhost" in
      if not (url.origin == value)
        || (not (url.protocol == "https:") && not (loopback && url.protocol == "http:"))
      then err bad_request
      else ok value

  unfoldable pub canonical_origin : Option Json → Result DeviceAuthorizationError String
  unfolding check_url
  canonical_origin (some (str value)) = check_url value (p.parse_url value)
  canonical_origin _ = err bad_request

-- `DeviceAuthorizationStart`; the fields that are checked here hold any JSON value.
pub record StartInput : Type 0 where
  pub device_secret_hash : String
  pub code_challenge : String
  pub session_did : String
  pub public_jwk : Json
  pub relay_public_jwk : Json
  pub permissions : Json
  pub reason : Option Json
  pub node_origin : Option Json
  pub share_origin : Option Json
  pub delegation_ttl_seconds : Option Json
  pub suggested_ttl_seconds : Option Json

-- The checked values.
pub record Checked : Type 0 where
  pub public_jwk : Json
  pub relay_public_jwk : Json
  pub permissions : List DevicePermission
  pub reason : Option String
  pub delegation_ttl_seconds : ℕ
  pub suggested_ttl_seconds : Option ℕ
  pub node_origin : String
  pub share_origin : String

module _ (p : Platform) where
  -- The part of `start` before it reads the store.
  unfoldable pub check_start : ℕ → Option StartInput → Result DeviceAuthorizationError Checked
  check_start now none = err bad_request
  check_start now (some input) = do
    reject_if
        (not (is_base64url_43 input.device_secret_hash)
          || not (is_base64url_43 input.code_challenge))
        bad_request
    public_jwk ← public_session_jwk input.public_jwk
    relay_public_jwk ← public_relay_jwk p input.relay_public_jwk
    did ← session_did_for_public_jwk p (obj public_jwk)
    reject_if (not (input.session_did == did)) bad_request
    permissions ← device_request_permissions input.permissions
    reason ← request_reason p input.reason
    ttl ← requested_ttl_seconds input.delegation_ttl_seconds now
    suggested ← requested_suggested_ttl_seconds input.suggested_ttl_seconds ttl
    node_origin ← canonical_origin p input.node_origin
    share_origin ← canonical_origin p input.share_origin
    ok (record {
      public_jwk = obj public_jwk;
      relay_public_jwk = obj relay_public_jwk;
      permissions = permissions;
      reason = reason;
      delegation_ttl_seconds = ttl;
      suggested_ttl_seconds = suggested;
      node_origin = node_origin;
      share_origin = share_origin;
    })
