-- ===== src/Approvals/Service/Window.antt =====
-- `assertDelegationWindow` of `ApprovalResultService`.
pub mod Laws
use openkey.Common.{
  ℕ, ◌+◌, ◌*◌, String, Bool, true, false, not, ◌&&◌, ◌||◌, Option, none, some, ◌==◌, leb, ltb,
  if◌then◌else◌, is_some,
}
use openkey.Common.Results.{Result, ok, err, ◌>>=◌, ◌>>◌, reject_if}
use openkey.Json.{Json, str, obj, Fields, get, canonical}
use openkey.Device.Platform.{Platform, SiweMessage}
use openkey.Device.Jwk.{strict_session_did, is_text}
use openkey.Approvals.Types.{
  ApprovalRequest, ApprovalRequestRecord, ApprovalResultError, approval_error, denied_error,
  ApprovalPlatform, expired_request, request_binding, invalid_delegation,
}
use openkey.Approvals.Store
use openkey.Approvals.Store.{Table}
use openkey.Approvals.Service.{lift}

-- The caller's body, `undefined` as `none`; the lifetime is a whole number of milliseconds.
pub record WindowInput : Type 0 where
  pub jwk : Option Json
  pub host : Option Json
  pub permissions : Option Json
  pub expiry_ms : Option ℕ
  pub signed_siwe : Option String

find_request : Option Json → Table → Option ApprovalRequestRecord
find_request (some (str id)) t = Store.find_by_id id t
find_request _ t = none

-- Not denied, and neither expired nor approved.
unfoldable pub open_request :
    ℕ → Option ApprovalRequestRecord → Result ApprovalResultError ApprovalRequestRecord
open_request now none = err (approval_error expired_request 410)
open_request now (some r) = elim r.denied_at [
  | some t ↦ err (denied_error t)
  | none ↦
      if leb r.expires_at now || is_some r.result_ref
      then err (approval_error expired_request 410)
      else ok r
]

is_target_key : ApprovalRequest → Option Json → Bool
is_target_key request (some (obj jwk)) =
    is_text "OKP" (get "kty" jwk)
    && is_text "Ed25519" (get "crv" jwk)
    && is_text request.target_x (get "x" jwk)
    && not (is_some (get "d" jwk))
is_target_key request _ = false

longer_than : Option ℕ → ℕ → Bool
longer_than none bound = false
longer_than (some t) bound = ltb bound t

module _ (p : ApprovalPlatform) where
  same_json : Option Json → Json → Bool
  same_json none right = false
  same_json (some left) right =
      p.base.stringify (canonical p.base.locale_le left)
      == p.base.stringify (canonical p.base.locale_le right)

  -- `Date.parse(siwe.expirationTime ?? '')`, `none` for NaN
  unfoldable pub siwe_expiry : SiweMessage → Option ℕ
  siwe_expiry m = elim m.expiration_time [
    | none ↦ p.base.parse_date ""
    | some e ↦ p.base.parse_date e
  ]

  expires_within : ℕ → ApprovalRequest → Option ℕ → Bool
  expires_within now request none = false
  expires_within now request (some t) =
      ltb now t && leb t (now + request.grant_lifetime_seconds * 1000 + 5000)

  check_message : ℕ → ApprovalRequest → String → SiweMessage → Result ApprovalResultError (Unit {0})
  unfolding expires_within siwe_expiry
  check_message now request signed m = do
    reject_if (not (p.base.prepare_message m == signed)) (approval_error request_binding 400)
    did ← lift (strict_session_did p.base request.target_public_jwk)
    reject_if (not (m.uri == did) || not (expires_within now request (siwe_expiry m)))
        (approval_error request_binding 400)

  check_siwe : ℕ → ApprovalRequest → Option String → Result ApprovalResultError (Unit {0})
  unfolding check_message
  check_siwe now request none = ok tt
  check_siwe now request (some signed) = elim (p.base.parse_siwe signed) [
    | none ↦ err (approval_error invalid_delegation 400)
    | some m ↦ check_message now request signed m
  ]

  unfoldable pub assert_delegation_window :
      ℕ → Option Json → WindowInput → Table → Result ApprovalResultError ApprovalRequestRecord
  unfolding find_request is_target_key same_json longer_than check_siwe
  assert_delegation_window now id input t = do
    r ← open_request now (find_request id t)
    reject_if
        (not (is_target_key r.request input.jwk)
          || not (is_text r.request.node_origin input.host)
          || not (same_json input.permissions r.request.permissions))
        (approval_error request_binding 400)
    reject_if (longer_than input.expiry_ms (r.request.grant_lifetime_seconds * 1000))
        (approval_error request_binding 400)
    check_siwe now r.request input.signed_siwe
    ok r
