-- ===== src/Handoff/Service/Signing.antt =====
-- `reserveSigning`, `completeSigning`, `cancelClaimed` and `cancel`.
pub mod Laws
use openkey.Common.{
  ℕ, String, Bool, true, false, not, ◌&&◌, ◌||◌, Option, none, some, ◌==◌, if◌then◌else◌,
}
use openkey.Common.Results.{Result, ok, err, ◌>>=◌, ◌>>◌, reject_if}
use openkey.Handoff.Types.{
  PreparedHandoffRecord, PreparedHandoffError, handoff_error, HandoffPlatform, Status, pending,
  cancelled, consumed, handoff_claimed, handoff_not_found, binding_mismatch, handoff_consumed,
  invalid_cancel_secret,
}
use openkey.Handoff.Store
use openkey.Handoff.Store.{Table, holds, find_row}
use openkey.Handoff.Service.{active, is_opaque}
use openkey.Handoff.Service.Context.{Kind, assert_context}

abbrev pub is_consumed : Status → Bool
is_consumed pending = false
is_consumed cancelled = false
is_consumed consumed = true

pub record Signed : Type 0 where
  pub delivery_state : String
  pub selected_key_id : String

module _ (p : HandoffPlatform) where
  -- The answer to a change that the store refused: what `active` says, or that it is signed.
  refused : ℕ → String → Table → Result PreparedHandoffError (Unit {0})
  refused now ticket t = do _ ← active p now ticket t; err (handoff_error handoff_consumed 409)

  -- A change of the store and its answer; `v` is the table that is met afterwards.
  pub settle : ℕ → String → Table → Table × Bool → Table × Result PreparedHandoffError (Unit {0})
  unfolding refused
  settle now ticket v (u, done) = (u, if done then ok tt else refused now ticket v)

  -- The checks of `reserveSigning` before it writes.
  unfoldable pub check_signer :
      ℕ
      → String
      → String
      → String
      → String
      → Kind
      → Table
      → Result PreparedHandoffError PreparedHandoffRecord
  check_signer now ticket user_id token key_id kind t = do
    r ← assert_context p now ticket user_id token kind t
    reject_if (not (holds r.selected_key_id key_id)) (handoff_error binding_mismatch 403)
    ok r

  unfoldable pub reserve_signing :
      ℕ
      → ℕ
      → ℕ
      → String
      → String
      → String
      → String
      → Kind
      → Table
      → Table
      → Table
      → Table × Result PreparedHandoffError (Unit {0})
  unfolding settle
  reserve_signing now1 now2 now3 ticket user_id token key_id kind t u v =
      elim (check_signer now1 ticket user_id token key_id kind t) [
        | err e ↦ (u, err e)
        | ok r ↦
            settle now3 ticket v
              (Store.reserve r.ticket_hash user_id (p.sha256_hex token) key_id now2 u)
      ]

  completed :
      String → String → String → Option PreparedHandoffRecord → Result PreparedHandoffError Signed
  completed user_id token key_id none = err (handoff_error binding_mismatch 403)
  completed user_id token key_id (some r) =
      if is_consumed r.status
        && r.owner_id == user_id
        && holds r.context_token_hash (p.sha256_hex token)
        && holds r.selected_key_id key_id
      then ok (record { delivery_state = r.state; selected_key_id = key_id })
      else err (handoff_error binding_mismatch 403)

  unfoldable pub complete_signing :
      String → String → String → String → Table → Result PreparedHandoffError Signed
  unfolding completed
  complete_signing ticket user_id token key_id t =
      if is_opaque p ticket
      then completed user_id token key_id (find_row (p.sha256_hex ticket) t)
      else err (handoff_error handoff_not_found 404)

  unfoldable pub cancel_claimed :
      ℕ
      → ℕ
      → ℕ
      → String
      → String
      → Table
      → Table
      → Table
      → Table × Result PreparedHandoffError (Unit {0})
  unfolding settle
  cancel_claimed now1 now2 now3 ticket user_id t u v = elim (active p now1 ticket t) [
    | err e ↦ (u, err e)
    | ok r ↦
        if user_id == "" || not (r.owner_id == user_id)
        then (u, err (handoff_error handoff_claimed 403))
        else settle now3 ticket v (Store.cancel r.ticket_hash now2 (some user_id) u)
  ]

  -- `secret` is the text that is digested, empty where the caller's value is none. Both sides of
  -- `timingSafeEqual` are digests of one length.
  unfoldable pub cancel :
      ℕ
      → ℕ
      → ℕ
      → String
      → String
      → Table
      → Table
      → Table
      → Table × Result PreparedHandoffError (Unit {0})
  unfolding settle
  cancel now1 now2 now3 ticket secret t u v = elim (active p now1 ticket t) [
    | err e ↦ (u, err e)
    | ok r ↦
        if p.sha256_hex secret == r.cancel_secret_hash
        then settle now3 ticket v (Store.cancel r.ticket_hash now2 none u)
        else (u, err (handoff_error invalid_cancel_secret 403))
  ]
