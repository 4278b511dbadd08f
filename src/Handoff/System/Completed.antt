-- ===== src/Handoff/System/Completed.antt =====
-- What a signing completes with.
use openkey.Common.{
  ℕ, String, ◌≡◌, sym, ap, ◌∙◌, true, inl, inr, some, arith, eq_iff, eq_refl, Bool-cases,
}
use openkey.Common.Results.{ok}
use openkey.Handoff.Types.{PreparedHandoffRecord, HandoffPlatform, consumed}
use openkey.Handoff.Store.{Table, holds, find_row}
use openkey.Handoff.Service.{is_opaque}
use openkey.Handoff.Service.Context.{Kind}
use openkey.Handoff.Service.Signing.{reserve_signing, complete_signing, Signed}
use openkey.Handoff.Service.Signing.Laws.{reserve_signing-ok}
use openkey.Handoff.System.{Reach}
use openkey.Handoff.System.Signing.{IsReserved, stays_consumed}

module _ (p : HandoffPlatform) (ticket user_id token key_id : String) (t : Table)
    (s : PreparedHandoffRecord) where
  complete_signing-ok :
      is_opaque p ticket ≡ true
      → find_row (p.sha256_hex ticket) t ≡ some s
      → s.status ≡ consumed
      → s.owner_id ≡ user_id
      → s.context_token_hash ≡ some (p.sha256_hex token)
      → s.selected_key_id ≡ some key_id
      → complete_signing p ticket user_id token key_id t
        ≡ ok (record { delivery_state = s.state; selected_key_id = key_id })
  unfolding complete_signing
  complete_signing-ok good found ended owner context key =
      rw (good, found)
        (rw (ended, context, key)
          (ground (arith, eq_iff s.owner_id user_id, eq_refl (p.sha256_hex token), eq_refl key_id)))

  complete_signing-same :
      (x : Signed)
      → find_row (p.sha256_hex ticket) t ≡ some s
      → complete_signing p ticket user_id token key_id t ≡ ok x
      → (s.owner_id ≡ user_id)
        × (holds s.context_token_hash (p.sha256_hex token) ≡ true)
        × (holds s.selected_key_id key_id ≡ true)
  unfolding complete_signing
  complete_signing-same x found e = elim (Bool-cases (is_opaque p ticket)) [
    | inr bad ↦ absurd (ground arith)
    | inl good ↦
        let e' = rw (good, found) at e in
        (ground (arith, e', eq_iff s.owner_id user_id), ground (arith, e'), ground (arith, e'))
  ]

module _ (p : HandoffPlatform) (now1 now2 now3 : ℕ) (ticket user_id token key_id : String)
    (kind : Kind) (t u v w v' : Table)
    (reserved : reserve_signing p now1 now2 now3 ticket user_id token key_id kind t u v
      ≡ (w, ok tt))
    (rest : Reach t u) (later : Reach w v') where
  -- Once a handoff is reserved by a reservation whose write met a table that follows the one it read,
  -- whatever happens to the table, the caller who reserved it completes it, with the state of the row
  -- that was reserved.
  pub complete_signing-reserve_signing :
      (r : PreparedHandoffRecord) × IsReserved p now2 ticket user_id token key_id u w r
      × (complete_signing p ticket user_id token key_id v'
          ≡ ok (record { delivery_state = r.state; selected_key_id = key_id }))
  complete_signing-reserve_signing =
      let (_, live, _, _) =
        reserve_signing-ok p now1 now2 now3 ticket user_id token key_id kind t u v w reserved in
      let (r, s, is_reserved, found, ended, evolved) =
        stays_consumed p now1 now2 now3 ticket user_id token key_id kind t u v w v' reserved rest
          later in
      let done =
        complete_signing-ok p ticket user_id token key_id v' s live.opaque_ found ended
          (sym evolved.same_owner ∙ is_reserved.owner)
          (ground (arith, evolved.stays_ended, is_reserved.context))
          (ground (arith, evolved.stays_ended, is_reserved.key)) in
      (
        r,
        is_reserved,
        done
            ∙ ap (λ (x : String). ok (record { delivery_state = x; selected_key_id = key_id }))
                (sym evolved.same_state),
      )

  -- Whoever completes a handoff, after a reservation whose write met a table that follows the one it
  -- read, is the caller who reserved it, with a context of the same digest and the same key.
  pub complete_signing_only :
      (user_id' token' key_id' : String) (x : Signed)
      → complete_signing p ticket user_id' token' key_id' v' ≡ ok x
      → (user_id' ≡ user_id) × (p.sha256_hex token' ≡ p.sha256_hex token) × (key_id' ≡ key_id)
  complete_signing_only user_id' token' key_id' x e =
      let (r, s, is_reserved, found, ended, evolved) =
        stays_consumed p now1 now2 now3 ticket user_id token key_id kind t u v w v' reserved rest
          later in
      let (owner, context, key) =
        complete_signing-same p ticket user_id' token' key_id' v' s x found e in
      let s_context : s.context_token_hash ≡ some (p.sha256_hex token) =
        ground (arith, evolved.stays_ended, is_reserved.context) in
      let s_key : s.selected_key_id ≡ some key_id =
        ground (arith, evolved.stays_ended, is_reserved.key) in
      (
        sym owner ∙ sym evolved.same_owner ∙ is_reserved.owner,
        ground (arith, eq_iff (p.sha256_hex token) (p.sha256_hex token')),
        ground (arith, eq_iff key_id key_id'),
      )
