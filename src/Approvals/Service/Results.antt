-- ===== src/Approvals/Service/Results.antt =====
-- `discover`, `deny`, `fetch` and `acknowledge` of `ApprovalResultService`.
pub mod Laws
pub mod Denials
pub mod Steps
use openkey.Common.{
  ℕ, String, Bool, true, false, not, ◌&&◌, ◌||◌, Option, none, some, ◌==◌, leb, ltb, if◌then◌else◌,
  is_some, nat_eq,
}
use openkey.Common.Results.{Result, ok, err, ◌>>=◌, ◌>>◌, reject_if}
use openkey.Text.{all_chars, is_alnum, size}
use openkey.Json.{Json}
use openkey.Device.Jwk.{text_of}
use openkey.Approvals.Types.{
  ApprovalRequestRecord, ApprovalResultError, approval_error, denied_error, ApprovalPlatform,
  Options, expired_request, link_required, request_binding, not_found, expired_result,
  already_approved, acknowledged, invalid_ack, ack_conflict,
}
use openkey.Approvals.Store
use openkey.Approvals.Store.{Table, after}
use openkey.Approvals.Service.{authenticate, discover, fetch, ack, Action}

pub data Discovery : Type 0 where
  is_pending : Discovery
  is_approved : String → ℕ → Discovery

pub record Link : Type 0 where
  pub body_cid : String
  pub issuer : String

pub record ResultBody : Type 0 where
  pub request_id : String
  pub body_cid : String

-- `relay` is the text that the code parses, and `expiresAt` is `record.resultExpiresAt!`.
pub record FetchResponse : Type 0 where
  pub relay : String
  pub request_id : String
  pub body_cid : String
  pub result_ref : String
  pub expires_at : Option ℕ

-- The state of a request: denied, approved with its reference, or open. A missing retention is read
-- as past.
discovered :
    ℕ → ApprovalRequestRecord → Option ℕ → Option String → Result ApprovalResultError Discovery
discovered now r (some denied) ref = err (denied_error denied)
discovered now r none (some ref) = elim r.result_expires_at [
  | none ↦ err (approval_error expired_result 410)
  | some t ↦ if leb t now then err (approval_error expired_result 410) else ok (is_approved ref t)
]
discovered now r none none =
    if leb r.expires_at now then err (approval_error expired_request 410) else ok is_pending

-- The answer of `deny` when the store changed nothing, from the record read again.
settled : Option ApprovalRequestRecord → Result ApprovalResultError (Unit {0})
settled none = err (approval_error not_found 404)
settled (some r) =
    if is_some r.denied_at
    then ok tt
    else (if is_some r.result_ref
        then err (approval_error already_approved 409)
        else err (approval_error expired_request 410))

-- The link that the caller opened must be this request's.
unfoldable pub deny : ℕ → String → Link → Table → Table × Result ApprovalResultError (Unit {0})
unfolding settled
deny now id link t = elim (Store.find_by_id id t) [
  | none ↦ (t, err (approval_error not_found 404))
  | some found ↦
      if not (found.body_cid == link.body_cid) || not (found.issuer == link.issuer)
      then (t, err (approval_error link_required 403))
      else (let (t', done) = Store.deny id now t in
          if done then (t', ok tt) else (t', settled (Store.find_by_id id t')))
]

-- `/^[A-Za-z0-9_-]{16,128}$/` of a text
is_ack_id : String → Bool
unfolding all_chars
is_ack_id s =
    all_chars (λ c. is_alnum c || nat_eq c b'_' || nat_eq c b'-') s
    && leb 16 (size s)
    && leb (size s) 128

module _ (p : ApprovalPlatform) (o : Options) where
  unfoldable pub discover_result :
      ℕ → ℕ → String → String → Option String → Table → Result ApprovalResultError Discovery
  unfolding discovered
  discover_result now1 now2 id body_cid proof t = elim (Store.find_by_id id t) [
    | none ↦ err (approval_error not_found 404)
    | some r ↦ do
      reject_if (not (r.body_cid == body_cid)) (approval_error request_binding 400)
      authenticate p o now1 r discover proof "" ""
      discovered now2 r r.denied_at r.result_ref
  ]

  result :
      ℕ
      → ℕ
      → String
      → ResultBody
      → Action
      → Option String
      → String
      → Table
      → Result ApprovalResultError ApprovalRequestRecord
  result now1 now2 ref body action proof ack_id t = elim (Store.find_by_result_ref ref t) [
    | none ↦ err (approval_error not_found 404)
    | some r ↦ do
      reject_if (not (r.id == body.request_id) || not (r.body_cid == body.body_cid))
          (approval_error request_binding 400)
      authenticate p o now1 r action proof ref ack_id
      reject_if (not (after now2 r.result_expires_at)) (approval_error expired_result 410)
      ok r
  ]

  fetched :
      String
      → ApprovalRequestRecord
      → Option String
      → Option String
      → Result ApprovalResultError FetchResponse
  fetched ref r none (some envelope) = ok (record {
    relay = envelope;
    request_id = r.id;
    body_cid = r.body_cid;
    result_ref = ref;
    expires_at = r.result_expires_at;
  })
  fetched ref r _ _ = err (approval_error acknowledged 409)

  unfoldable pub fetch_result :
      ℕ → ℕ → String → ResultBody → Option String → Table → Result ApprovalResultError FetchResponse
  unfolding result fetched
  fetch_result now1 now2 ref body proof t = do
    r ← result now1 now2 ref body fetch proof "" t
    fetched ref r r.ack_id r.encrypted_result

  acknowledged_by :
      ℕ
      → ℕ
      → ℕ
      → String
      → ResultBody
      → Option String
      → Option String
      → Table
      → Table × Result ApprovalResultError String
  unfolding result is_ack_id
  acknowledged_by now1 now2 now3 ref body none proof t = (t, err (approval_error invalid_ack 400))
  acknowledged_by now1 now2 now3 ref body (some ack_id) proof t =
      if is_ack_id ack_id
      then elim (result now1 now2 ref body ack proof ack_id t) [
        | err e ↦ (t, err e)
        | ok _ ↦
            let (t', saved) = Store.acknowledge ref ack_id now3 t in
            elim saved [
              | none ↦ (t', err (approval_error ack_conflict 409))
              | some r ↦ elim r.ack_id [ none ↦ (t', ok "") | some saved_id ↦ (t', ok saved_id) ]
            ]
      ]
      else (t, err (approval_error invalid_ack 400))

  unfoldable pub acknowledge_result :
      ℕ
      → ℕ
      → ℕ
      → String
      → ResultBody
      → Option Json
      → Option String
      → Table
      → Table × Result ApprovalResultError String
  unfolding acknowledged_by
  acknowledge_result now1 now2 now3 ref body ack_id proof t =
      acknowledged_by now1 now2 now3 ref body (text_of ack_id) proof t
