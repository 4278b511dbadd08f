-- ===== src/Approvals/Service/Window/Laws.antt =====
-- What a request that passes the window is, and that a denied one never does.
use mathlib.Core.Path.{subst}
use openkey.Device.Types.{DeviceAuthorizationError}
use openkey.Common.{
  ℕ, ◌≤◌, ◌<◌, ◌+◌, ◌*◌, String, ◌≡◌, refl, true, not, ◌==◌, ◌||◌, Option, none, some, arith,
  eq_iff, Option-cases, Bool-cases, inl, inr, leb, is_some,
}
use openkey.Common.Results.{Result, ok, err, ◌>>=◌, >>=-eq-ok, reject_if, reject_if-eq-ok}
use openkey.Json.{str}
use openkey.Device.Platform.{SiweMessage}
use openkey.Device.Jwk.{strict_session_did}
use openkey.Approvals.Types.{
  ApprovalRequest, ApprovalRequestRecord, approval_error, request_binding, ApprovalPlatform,
  denied_error,
}
use openkey.Approvals.Store.{Table, find_by_id}
use openkey.Approvals.Service.{lift}
use openkey.Approvals.Service.Window.{
  WindowInput, assert_delegation_window, find_request, open_request, check_siwe, check_message,
  expires_within, siwe_expiry,
}

pub assert_delegation_window_denied :
    (p : ApprovalPlatform) (now : ℕ) (id : String) (input : WindowInput) (t : Table)
    (r : ApprovalRequestRecord) (d : ℕ)
    → find_by_id id t ≡ some r
    → r.denied_at ≡ some d
    → assert_delegation_window p now (some (str id)) input t ≡ err (denied_error d)
unfolding assert_delegation_window open_request ◌>>=◌
assert_delegation_window_denied p now id input t r d found denied =
    rw (found, assert_delegation_window) (rw (denied, open_request) refl)

-- The request is there, is neither denied nor approved, and has not expired.
pub record IsOpen (now : ℕ) (o : Option ApprovalRequestRecord) (r : ApprovalRequestRecord)
    : Type 0 where
  pub found : o ≡ some r
  pub not_denied : r.denied_at ≡ none
  pub not_approved : r.result_ref ≡ none
  pub not_expired : now < r.expires_at

open_request-IsOpen :
    (now : ℕ) (o : Option ApprovalRequestRecord) (r : ApprovalRequestRecord)
    → open_request now o ≡ ok r
    → IsOpen now o r
unfolding open_request
open_request-IsOpen now none r e = cc
open_request-IsOpen now (some q) r e = elim (Option-cases q.denied_at) [
  | inr (d, denied) ↦ absurd (cc (rw (denied, open_request) at e))
  | inl not_denied ↦ elim (Bool-cases (leb q.expires_at now || is_some q.result_ref)) [
    | inl closed ↦ absurd (ground arith)
    | inr open_ ↦
        let same : q ≡ r = ground arith in
        let known : IsOpen now (some q) q = record {
          found = refl;
          not_denied = not_denied;
          not_approved = ground arith;
          not_expired = ground arith;
        } in
        subst (λ x. IsOpen now (some q) x) same known
  ]
]

-- The message is in its one spelling, for the target's session, and expires within the lifetime.
pub record IsSignable (p : ApprovalPlatform) (now : ℕ) (request : ApprovalRequest) (signed : String)
    (m : SiweMessage) : Type 0 where
  pub parsed : p.base.parse_siwe signed ≡ some m
  pub canonical : p.base.prepare_message m ≡ signed
  pub did : String
  pub target : strict_session_did p.base request.target_public_jwk ≡ ok did
  pub bound : m.uri ≡ did
  pub expiry : ℕ
  pub expires : siwe_expiry p m ≡ some expiry
  pub not_past : now < expiry
  pub within_lifetime : expiry ≤ now + request.grant_lifetime_seconds * 1000 + 5000

lift-ok {ℓ} :
    {A : Type ℓ} (m : Result DeviceAuthorizationError A) (a : A) → lift m ≡ ok a → m ≡ ok a
lift-ok (ok b) a e = ground arith
lift-ok (err x) a e = cc

expires_within-true :
    (p : ApprovalPlatform) (now : ℕ) (request : ApprovalRequest) (o : Option ℕ)
    → expires_within p now request o ≡ true
    → (t : ℕ) × (o ≡ some t) × (now < t) × (t ≤ now + request.grant_lifetime_seconds * 1000 + 5000)
unfolding expires_within
expires_within-true p now request none e = cc
expires_within-true p now request (some t) e = (t, refl, ground arith, ground arith)

check_message-IsSignable :
    (p : ApprovalPlatform) (now : ℕ) (request : ApprovalRequest) (signed : String) (m : SiweMessage)
    → p.base.parse_siwe signed ≡ some m
    → check_message p now request signed m ≡ ok tt
    → IsSignable p now request signed m
unfolding check_message
check_message-IsSignable p now request signed m parsed e =
    let (_, one, e1) =
      >>=-eq-ok
        (reject_if (not (p.base.prepare_message m == signed)) (approval_error request_binding 400))
        _ e in
    let (did, two, e2) =
      >>=-eq-ok (lift (strict_session_did p.base request.target_public_jwk)) _ e1 in
    let three =
      reject_if-eq-ok (not (m.uri == did) || not (expires_within p now request (siwe_expiry p m)))
        (approval_error request_binding 400) e2 in
    let four =
      reject_if-eq-ok (not (p.base.prepare_message m == signed))
        (approval_error request_binding 400) one in
    let (t, expires, past, within) =
      expires_within-true p now request (siwe_expiry p m) (ground arith) in
    record {
      parsed = parsed;
      canonical = ground (arith, eq_iff (p.base.prepare_message m) signed);
      did = did;
      target = lift-ok (strict_session_did p.base request.target_public_jwk) did two;
      bound = ground (arith, eq_iff m.uri did);
      expiry = t;
      expires = expires;
      not_past = past;
      within_lifetime = within;
    }

check_siwe-IsSignable :
    (p : ApprovalPlatform) (now : ℕ) (request : ApprovalRequest) (signed : String)
    → check_siwe p now request (some signed) ≡ ok tt
    → (m : SiweMessage) × IsSignable p now request signed m
unfolding check_siwe
check_siwe-IsSignable p now request signed e = elim (Option-cases (p.base.parse_siwe signed)) [
  | inl bad ↦ absurd (cc (rw (bad, check_siwe) at e))
  | inr (m, parsed) ↦
      (m, check_message-IsSignable p now request signed m parsed (rw (parsed, check_siwe) at e))
]

-- What a signed request that passes is.
pub assert_delegation_window-IsOpen :
    (p : ApprovalPlatform) (now : ℕ) (id : String) (input : WindowInput) (signed : String)
    (t : Table) (r : ApprovalRequestRecord)
    → input.signed_siwe ≡ some signed
    → assert_delegation_window p now (some (str id)) input t ≡ ok r
    → IsOpen now (find_by_id id t) r × ((m : SiweMessage) × IsSignable p now r.request signed m)
unfolding assert_delegation_window find_request
assert_delegation_window-IsOpen p now id input signed t r given e =
    let (q, one, e1) = >>=-eq-ok (open_request now (find_by_id id t)) _ e in
    let (_, two, e2) = >>=-eq-ok (reject_if _ (approval_error request_binding 400)) _ e1 in
    let (_, three, e3) = >>=-eq-ok (reject_if _ (approval_error request_binding 400)) _ e2 in
    let (_, four, e4) = >>=-eq-ok (check_siwe p now q.request input.signed_siwe) _ e3 in
    let same : q ≡ r = ground arith in
    (
      subst (λ x. IsOpen now (find_by_id id t) x) same
          (open_request-IsOpen now (find_by_id id t) q one),
      subst (λ (x : ApprovalRequestRecord). (m : SiweMessage) × IsSignable p now x.request signed m)
          same
          (check_siwe-IsSignable p now q.request signed
            (subst (λ (o : Option String). check_siwe p now q.request o ≡ ok tt) given four)),
    )
