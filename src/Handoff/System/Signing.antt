-- ===== src/Handoff/System/Signing.antt =====
-- What a reservation of a handoff promises of every later history.
use mathlib.Core.Path.{subst}
use openkey.Common.{
  ℕ, ◌<◌, String, ◌≡◌, refl, sym, true, not, ◌||◌, inl, inr, none, some, ◌==◌, arith, eq_iff,
  Bool-cases,
}
use openkey.Common.Results.{Result-cases, ok, err}
use openkey.Handoff.Types.{
  PreparedHandoffRecord, PreparedHandoffError, HandoffPlatform, handoff_error, handoff_claimed,
  invalid_cancel_secret, consumed, pending,
}
use openkey.Handoff.Store
use openkey.Handoff.Store.{
  Table, holds, find_row, can_reserve, set_consumed, can_cancel, set_cancelled,
}
use openkey.Handoff.Store.Laws.{Evolves, reserve-Keeps, find_row-key, holds-some}
use openkey.Handoff.Store.Follows.{change_if-found, change_if-refused}
use openkey.Handoff.Service.{active}
use openkey.Handoff.Service.Context.{Kind, has_kind}
use openkey.Handoff.Service.Signing.{check_signer, reserve_signing, cancel_claimed, cancel}
use openkey.Handoff.Service.Signing.Laws.{
  active-IsActive, check_signer-IsActive, reserve_signing-ok, settle-refused,
}
use openkey.Handoff.System.{Reach, Reach-Follows}

-- The row that is reserved, as the store's operation met it.
pub record IsReserved (p : HandoffPlatform) (now : ℕ) (ticket user_id token key_id : String)
    (u w : Table) (r : PreparedHandoffRecord) : Type 0 where
  pub found : find_row (p.sha256_hex ticket) u ≡ some r
  pub was_pending : r.status ≡ pending
  pub owner : r.owner_id ≡ user_id
  pub context : r.context_token_hash ≡ some (p.sha256_hex token)
  pub key : r.selected_key_id ≡ some key_id
  pub not_expired : now < r.expires_at
  pub left : find_row (p.sha256_hex ticket) w ≡ some (set_consumed r)

module _ (p : HandoffPlatform) (now1 now2 now3 : ℕ) (ticket user_id token key_id : String)
    (kind : Kind) (t u v w : Table) where
  -- A reservation whose write meets a table that follows the one it read found the handoff there
  -- unexpired, pending, of the caller, of the expected kind, and bound to the caller's context and
  -- key, and leaves it consumed.
  pub reserve_signing_sound :
      reserve_signing p now1 now2 now3 ticket user_id token key_id kind t u v ≡ (w, ok tt)
      → Reach t u
      → (r : PreparedHandoffRecord) × IsReserved p now2 ticket user_id token key_id u w r
        × (has_kind kind r.request ≡ true)
  unfolding Store.reserve
  reserve_signing_sound e rest =
      let (q, live, kind_, ran) =
        reserve_signing-ok p now1 now2 now3 ticket user_id token key_id kind t u v w e in
      let (r, found, passes, left) =
        change_if-found (p.sha256_hex ticket) (can_reserve user_id (p.sha256_hex token) key_id now2)
          set_consumed (reserve-Keeps user_id (p.sha256_hex token) key_id now2) u w ran in
      let (s, found', evolved) = Reach-Follows rest (p.sha256_hex ticket) q live.found in
      let same : s ≡ r = cc (found, found') in
      (
        r,
        record {
          found = found;
          was_pending = ground arith;
          owner = ground (arith, eq_iff r.owner_id user_id);
          context = holds-some r.context_token_hash (p.sha256_hex token) (ground arith);
          key = holds-some r.selected_key_id key_id (ground arith);
          not_expired = ground arith;
          left = left;
        },
        subst (λ (x : PreparedHandoffRecord). has_kind kind x.request ≡ true) same
            (subst (λ x. has_kind kind x ≡ true) evolved.same_request kind_),
      )

  -- The row stays consumed.
  pub stays_consumed :
      (v' : Table)
      → reserve_signing p now1 now2 now3 ticket user_id token key_id kind t u v ≡ (w, ok tt)
      → Reach t u
      → Reach w v'
      → (r s : PreparedHandoffRecord) × IsReserved p now2 ticket user_id token key_id u w r
        × (find_row (p.sha256_hex ticket) v' ≡ some s)
        × (s.status ≡ consumed)
        × Evolves (set_consumed r) s
  stays_consumed v' e rest later =
      let (r, reserved, _) = reserve_signing_sound e rest in
      let (s, found, evolved) =
        Reach-Follows later (p.sha256_hex ticket) (set_consumed r) reserved.left in
      (r, s, reserved, found, ground (arith, evolved.stays_ended), evolved)

-- No operation changes a row that is consumed.
module _ (p : HandoffPlatform) (now1 now2 now3 : ℕ) (ticket : String) (t u v : Table)
    (s : PreparedHandoffRecord) (found : find_row (p.sha256_hex ticket) u ≡ some s)
    (ended : s.status ≡ consumed) where
  reserve_signing-consumed :
      (user_id token key_id : String) (kind : Kind)
      → (e : PreparedHandoffError) × (reserve_signing p now1 now2 now3 ticket user_id token key_id
            kind t u v
          ≡ (u, err e))
  unfolding reserve_signing Store.reserve
  reserve_signing-consumed user_id token key_id kind =
      elim (Result-cases (check_signer p now1 ticket user_id token key_id kind t)) [
        | inr (x, failed) ↦ (x, rw (failed, reserve_signing) refl)
        | inl (r, checked) ↦
            let (live, _) =
              check_signer-IsActive p now1 ticket user_id token key_id kind t r checked in
            let key = find_row-key (p.sha256_hex ticket) t r live.found in
            let kept =
              change_if-refused r.ticket_hash (can_reserve user_id (p.sha256_hex token) key_id now2)
                set_consumed u s (subst (λ h. find_row h u ≡ some s) (sym key) found)
                (ground arith) in
            let (e, refused) = settle-refused p now3 ticket v u in
            (e, rw (checked, reserve_signing) (rw kept refused))
      ]

  cancel_claimed-consumed :
      (user_id : String)
      → (e : PreparedHandoffError) × (cancel_claimed p now1 now2 now3 ticket user_id t u v
          ≡ (u, err e))
  unfolding cancel_claimed Store.cancel
  cancel_claimed-consumed user_id = elim (Result-cases (active p now1 ticket t)) [
    | inr (x, failed) ↦ (x, rw (failed, cancel_claimed) refl)
    | inl (r, live) ↦ elim (Bool-cases (user_id == "" || not (r.owner_id == user_id))) [
      | inl other ↦ (handoff_error handoff_claimed 403, rw (live, cancel_claimed) (rw other refl))
      | inr owner ↦
          let key =
            find_row-key (p.sha256_hex ticket) t r (active-IsActive p now1 ticket t r live).found in
          let kept =
            change_if-refused r.ticket_hash (can_cancel (some user_id) now2) set_cancelled u s
              (subst (λ h. find_row h u ≡ some s) (sym key) found) (ground arith) in
          let (e, refused) = settle-refused p now3 ticket v u in
          (e, rw (live, cancel_claimed) (rw (owner, kept) refused))
    ]
  ]

  cancel-consumed :
      (secret : String)
      → (e : PreparedHandoffError) × (cancel p now1 now2 now3 ticket secret t u v ≡ (u, err e))
  unfolding cancel Store.cancel
  cancel-consumed secret = elim (Result-cases (active p now1 ticket t)) [
    | inr (x, failed) ↦ (x, rw (failed, cancel) refl)
    | inl (r, live) ↦ elim (Bool-cases (p.sha256_hex secret == r.cancel_secret_hash)) [
      | inr other ↦ (handoff_error invalid_cancel_secret 403, rw (live, cancel) (rw other refl))
      | inl owner ↦
          let key =
            find_row-key (p.sha256_hex ticket) t r (active-IsActive p now1 ticket t r live).found in
          let kept =
            change_if-refused r.ticket_hash (can_cancel none now2) set_cancelled u s
              (subst (λ h. find_row h u ≡ some s) (sym key) found) (ground arith) in
          let (e, refused) = settle-refused p now3 ticket v u in
          (e, rw (live, cancel) (rw (owner, kept) refused))
    ]
  ]

-- Once a handoff is reserved by a reservation whose write met a table that follows the one it read,
-- whatever happens to the table and whatever they read before, a reservation and both cancellations
-- of it are refused and change nothing.
pub reserve_signing_is_final :
    (p : HandoffPlatform) (now1 now2 now3 now4 now5 now6 : ℕ)
    (ticket user_id token key_id user_id' token' key_id' secret : String) (kind kind' : Kind)
    (t u v w t' u' v' : Table)
    → reserve_signing p now1 now2 now3 ticket user_id token key_id kind t u v ≡ (w, ok tt)
    → Reach t u
    → Reach w u'
    → ((e : PreparedHandoffError) × (reserve_signing p now4 now5 now6 ticket user_id' token' key_id'
            kind' t' u' v'
          ≡ (u', err e)))
      × ((e : PreparedHandoffError) × (cancel_claimed p now4 now5 now6 ticket user_id' t' u' v'
            ≡ (u', err e)))
      × ((e : PreparedHandoffError) × (cancel p now4 now5 now6 ticket secret t' u' v'
            ≡ (u', err e)))
reserve_signing_is_final p now1 now2 now3 now4 now5 now6 ticket user_id token key_id user_id' token'
      key_id' secret kind kind' t u v w t' u' v' e rest later =
    let (_, s, _, found, ended, _) =
      stays_consumed p now1 now2 now3 ticket user_id token key_id kind t u v w u' e rest later in
    (
      reserve_signing-consumed p now4 now5 now6 ticket t' u' v' s found ended user_id' token'
          key_id' kind',
      cancel_claimed-consumed p now4 now5 now6 ticket t' u' v' s found ended user_id',
      cancel-consumed p now4 now5 now6 ticket t' u' v' s found ended secret,
    )
