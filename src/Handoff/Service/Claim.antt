-- ===== src/Handoff/Service/Claim.antt =====
-- `claim`, from what `validateRequest` returns on.
pub mod Laws
use openkey.Common.{
  ℕ, ◌+◌, ◌-◌, min, String, Bool, true, false, not, ◌&&◌, ◌||◌, Option, none, some, ◌==◌, leb, ltb,
  if◌then◌else◌, is_some,
}
use openkey.Common.Results.{Result, ok, err, ◌>>=◌, ◌>>◌, reject_if}
use openkey.Text.{◌<>◌}
use openkey.Json.{Json, obj, Fields}
use openkey.Handoff.Types.{
  PreparedHandoffRecord, PreparedHandoffError, handoff_error, HandoffPlatform, Delivery, pending,
  prepared_expired, rate_limited, handoff_claimed, handoff_replayed,
}
use openkey.Handoff.Store.{Table, holds, create_limited, is_pending}
use openkey.Handoff.Service.{active, digest_jwk}

pub record Validated : Type 0 where
  pub request : Fields
  pub delivery : Delivery
  pub issued_at : Option String
  pub expiration_time : String
  pub nonce : String

-- `transportVersion` is 2.
pub record Claimed : Type 0 where
  pub ticket : String
  pub expires_at : ℕ

-- `a !== b` of two callbacks is the negation
abbrev pub same_callback : Option String → Option String → Bool
same_callback none none = true
same_callback none (some b) = false
same_callback (some a) none = false
same_callback (some a) (some b) = a == b

-- `Date.parse(issuedAt ?? '')`, and the freshness of both dates; the value is the grant's expiry.
fresh : ℕ → Option ℕ → Option ℕ → Option ℕ
fresh now (some prepared_at) (some grant_expires_at) =
    if ltb (prepared_at + 300_000) now || ltb (now + 30_000) prepared_at || leb grant_expires_at now
    then none
    else some grant_expires_at
fresh now _ _ = none

module _ (p : HandoffPlatform) where
  prepared_at : Validated → Option ℕ
  prepared_at v = elim v.issued_at [ none ↦ p.base.parse_date "" | some d ↦ p.base.parse_date d ]

  unfoldable pub grant_expiry : ℕ → Validated → Result PreparedHandoffError ℕ
  unfolding fresh prepared_at
  grant_expiry now v =
      if v.nonce == ""
      then err (handoff_error prepared_expired 410)
      else elim (fresh now (prepared_at v) (p.base.parse_date v.expiration_time)) [
        | none ↦ err (handoff_error prepared_expired 410)
        | some t ↦ ok t
      ]

  abbrev pub new_row : ℕ → Validated → String → ℕ → PreparedHandoffRecord
  new_row now v user_id grant_expires_at = record {
    ticket_hash = p.sha256_hex v.delivery.handoff_id;
    cancel_secret_hash = p.sha256_hex v.delivery.cancel_secret;
    nonce_hash = p.sha256_hex ("prepared-handoff-nonce\0" <> v.nonce);
    request = v.request;
    callback = v.delivery.callback;
    state = v.delivery.state;
    expires_at = min (now + 300_000) grant_expires_at;
    requested_at = now;
    status = pending;
    owner_id = user_id;
    context_token_hash = none;
    selected_key_id = none;
  }

  -- A row that is stored is this claim's.
  same_claim : PreparedHandoffRecord → PreparedHandoffRecord → Bool
  same_claim stored record_ =
      stored.ticket_hash == record_.ticket_hash
      && stored.nonce_hash == record_.nonce_hash
      && digest_jwk p (obj stored.request) == digest_jwk p (obj record_.request)
      && same_callback stored.callback record_.callback
      && stored.state == record_.state
      && stored.cancel_secret_hash == record_.cancel_secret_hash

  -- What is answered for the row that the store returned; `u` is the table that `active` meets.
  answer :
      ℕ
      → ℕ
      → String
      → PreparedHandoffRecord
      → Table
      → Option PreparedHandoffRecord
      → Result PreparedHandoffError Claimed
  unfolding same_claim
  answer now now' handoff_id record_ u none = err (handoff_error rate_limited 429)
  answer now now' handoff_id record_ u (some stored) = do
    reject_if (not (stored.owner_id == record_.owner_id)) (handoff_error handoff_claimed 403)
    reject_if (not (same_claim stored record_)) (handoff_error handoff_replayed 409)
    if not (is_pending stored.status) || leb stored.expires_at now
        then (active p now' handoff_id u >>= λ _. ok tt)
        else ok tt
    ok (record { ticket = handoff_id; expires_at = stored.expires_at })

  unfoldable pub claim :
      ℕ → ℕ → Validated → String → Table → Table → Table × Result PreparedHandoffError Claimed
  unfolding answer
  claim now now' v user_id t u =
      if user_id == ""
      then (t, err (handoff_error handoff_claimed 403))
      else elim (grant_expiry now v) [
        | err e ↦ (t, err e)
        | ok expires_at ↦
            let record_ = new_row now v user_id expires_at in
            let (t', stored) = create_limited record_ (now - 300_000) 5 t in
            (t', answer now now' v.delivery.handoff_id record_ u stored)
      ]
