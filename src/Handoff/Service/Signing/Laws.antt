-- ===== src/Handoff/Service/Signing/Laws.antt =====
-- What the methods that end a handoff have checked, and which operation they run.
use mathlib.Core.Path.{subst}
use openkey.Common.{
  ℕ, ◌<◌, String, ◌≡◌, refl, ap, ap₂, ◌∙◌, Bool, true, false, not, inl, inr, Option, none, some,
  arith, leb, Bool-cases,
}
use openkey.Common.Results.{Result-cases, ok, err, ◌>>=◌, >>=-eq-ok, reject_if, reject_if-eq-ok}
use openkey.Handoff.Types.{
  PreparedHandoffRecord, PreparedHandoffError, handoff_error, HandoffPlatform, Status, pending,
  cancelled, consumed, handoff_claimed, binding_mismatch, handoff_consumed,
}
use openkey.Handoff.Store
use openkey.Handoff.Store.{Table, holds, find_row}
use openkey.Handoff.Store.Laws.{find_row-key}
use openkey.Handoff.Service.{active, active_row, by_status, is_opaque}
use openkey.Handoff.Service.Context.{Kind, assert_context, has_kind}
use openkey.Handoff.Service.Signing.{check_signer, reserve_signing, refused, settle}

by_status-pending :
    (r q : PreparedHandoffRecord) (s : Status) → by_status r s ≡ ok q → (s ≡ pending) × (r ≡ q)
unfolding by_status
by_status-pending r q pending e = (refl, ground arith)
by_status-pending r q cancelled e = cc
by_status-pending r q consumed e = cc

module _ (p : HandoffPlatform) where
  -- The row of an active ticket.
  pub record IsActive (now : ℕ) (ticket : String) (t : Table) (r : PreparedHandoffRecord)
      : Type 0 where
    pub opaque_ : is_opaque p ticket ≡ true
    pub found : find_row (p.sha256_hex ticket) t ≡ some r
    pub is_pending : r.status ≡ pending
    pub not_expired : now < r.expires_at

  active_row-ok :
      (now : ℕ) (o : Option PreparedHandoffRecord) (r : PreparedHandoffRecord)
      → active_row p now o ≡ ok r
      → (o ≡ some r) × (r.status ≡ pending) × (now < r.expires_at)
  unfolding active_row
  active_row-ok now none r e = cc
  active_row-ok now (some q) r e = elim (Bool-cases (leb q.expires_at now)) [
    | inl expired ↦ absurd (ground arith)
    | inr live ↦
        let (pending_, same) = by_status-pending q r q.status (ground arith) in
        (
          ap some same,
          subst (λ (x : PreparedHandoffRecord). x.status ≡ pending) same pending_,
          subst (λ (x : PreparedHandoffRecord). now < x.expires_at) same (ground arith),
        )
  ]

  pub active-IsActive :
      (now : ℕ) (ticket : String) (t : Table) (r : PreparedHandoffRecord)
      → active p now ticket t ≡ ok r
      → IsActive now ticket t r
  unfolding active
  active-IsActive now ticket t r e = elim (Bool-cases (is_opaque p ticket)) [
    | inr bad ↦ absurd (ground arith)
    | inl good ↦
        let (found, pending_, live) =
          active_row-ok now (find_row (p.sha256_hex ticket) t) r (rw (good, active) at e) in
        record { opaque_ = good; found = found; is_pending = pending_; not_expired = live }
  ]

  pub assert_context-IsActive :
      (now : ℕ) (ticket user_id token : String) (kind : Kind) (t : Table)
      (r : PreparedHandoffRecord)
      → assert_context p now ticket user_id token kind t ≡ ok r
      → IsActive now ticket t r × (has_kind kind r.request ≡ true)
  unfolding assert_context
  assert_context-IsActive now ticket user_id token kind t r e =
      let (q, one, e1) = >>=-eq-ok (active p now ticket t) _ e in
      let (_, two, e2) = >>=-eq-ok (reject_if _ (handoff_error handoff_claimed 403)) _ e1 in
      let (_, three, e3) =
        >>=-eq-ok (reject_if (not (has_kind kind q.request)) (handoff_error binding_mismatch 403)) _
          e2 in
      let (_, four, e4) = >>=-eq-ok (reject_if _ (handoff_error binding_mismatch 403)) _ e3 in
      let same : q ≡ r = ground (arith, e4) in
      let kept =
        reject_if-eq-ok (not (has_kind kind q.request)) (handoff_error binding_mismatch 403)
          three in
      (
        subst (λ x. IsActive now ticket t x) same (active-IsActive now ticket t q one),
        subst (λ (x : PreparedHandoffRecord). has_kind kind x.request ≡ true) same (ground arith),
      )

  pub check_signer-IsActive :
      (now : ℕ) (ticket user_id token key_id : String) (kind : Kind) (t : Table)
      (r : PreparedHandoffRecord)
      → check_signer p now ticket user_id token key_id kind t ≡ ok r
      → IsActive now ticket t r × (has_kind kind r.request ≡ true)
  unfolding check_signer
  check_signer-IsActive now ticket user_id token key_id kind t r e =
      let (q, one, e1) = >>=-eq-ok (assert_context p now ticket user_id token kind t) _ e in
      let (_, two, e2) = >>=-eq-ok (reject_if _ (handoff_error binding_mismatch 403)) _ e1 in
      let same : q ≡ r = ground (arith, e2) in
      assert_context-IsActive now ticket user_id token kind t r (one ∙ ap ok same)

  pub settle-ok :
      (now : ℕ) (ticket : String) (v u u' : Table) (done : Bool)
      → settle p now ticket v (u, done) ≡ (u', ok tt)
      → (done ≡ true) × (u ≡ u')
  unfolding settle refused ◌>>=◌
  settle-ok now ticket v u u' true e = (refl, ground arith)
  settle-ok now ticket v u u' false e = elim (Result-cases (active p now ticket v)) [
    | inl (r, live) ↦ absurd (ground (arith, rw (live, refused) at e))
    | inr (x, ended) ↦ absurd (ground (arith, rw (ended, refused) at e))
  ]

  -- A change that is refused is an error, and leaves the table.
  pub settle-refused :
      (now : ℕ) (ticket : String) (v u : Table)
      → (e : PreparedHandoffError) × (settle p now ticket v (u, false) ≡ (u, err e))
  unfolding settle refused ◌>>=◌
  settle-refused now ticket v u = elim (Result-cases (active p now ticket v)) [
    | inl (r, live) ↦ (handoff_error handoff_consumed 409, rw (live, refused) refl)
    | inr (x, ended) ↦ (x, rw (ended, refused) refl)
  ]

  -- A reservation runs the store's operation on the ticket, in the table that it meets.
  pub reserve_signing-ok :
      (now1 now2 now3 : ℕ) (ticket user_id token key_id : String) (kind : Kind) (t u v w : Table)
      → reserve_signing p now1 now2 now3 ticket user_id token key_id kind t u v ≡ (w, ok tt)
      → (r : PreparedHandoffRecord) × IsActive now1 ticket t r
        × (has_kind kind r.request ≡ true)
        × (Store.reserve (p.sha256_hex ticket) user_id (p.sha256_hex token) key_id now2 u
            ≡ (w, true))
  unfolding reserve_signing
  reserve_signing-ok now1 now2 now3 ticket user_id token key_id kind t u v w e =
      elim (Result-cases (check_signer p now1 ticket user_id token key_id kind t)) [
        | inr (x, failed) ↦ absurd (ground (arith, rw (failed, reserve_signing) at e))
        | inl (r, checked) ↦
            let (live, kind_) =
              check_signer-IsActive now1 ticket user_id token key_id kind t r checked in
            let key = find_row-key (p.sha256_hex ticket) t r live.found in
            let ran = Store.reserve r.ticket_hash user_id (p.sha256_hex token) key_id now2 u in
            let (done, same) =
              settle-ok now3 ticket v ran.0 w ran.1 (rw (checked, reserve_signing) at e) in
            (
              r,
              live,
              kind_,
              subst (λ h. Store.reserve h user_id (p.sha256_hex token) key_id now2 u ≡ (w, true))
                  key (ap₂ (λ (x : Table) (y : Bool). (x, y)) same done),
            )
      ]
