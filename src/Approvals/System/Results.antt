-- ===== src/Approvals/System/Results.antt =====
-- What the methods' answers promise of every later history.
use openkey.Common.{ℕ, String, ◌≡◌, refl, ◌∙◌, false, inl, inr, Option, some, [], arith}
use openkey.Common.Results.{ok, err}
use openkey.Json.{Json, str}
use openkey.Approvals.Types.{
  ApprovalRequestRecord, ApprovalResultError, denied_error, ApprovalPlatform, Options,
}
use openkey.Approvals.Store
use openkey.Approvals.Store.{
  Table, find_by_id, find_by_result_ref, update_many, is_open, set_approved, ApprovedResult, equals,
}
use openkey.Approvals.Store.Laws.{Evolves}
use openkey.Approvals.Store.Unique.{IsUnique, has_id, count_unique, open→id}
use openkey.Approvals.Service.Window.{WindowInput, assert_delegation_window}
use openkey.Approvals.Service.Window.Laws.{assert_delegation_window_denied}
use openkey.Approvals.Service.Results.{Link, ResultBody, deny, fetch_result, acknowledge_result}
use openkey.Approvals.Service.Results.Denials.{deny-IsDenied}
use openkey.Approvals.Service.Results.Laws.{
  acknowledge_result-IsAcknowledged, fetch_result-acknowledged,
}
use openkey.Approvals.Service.Results.Steps.{deny-Reach, acknowledge_result-Reach}
use openkey.Approvals.System.{Reach, Reach-trans, Reach-Follows, Reach-IsUnique, empty-IsUnique}

Evolves-denied :
    (r s : ApprovalRequestRecord) (d : ℕ)
    → Evolves r s
    → r.denied_at ≡ some d
    → s.denied_at ≡ some d
Evolves-denied r s d v e = elim v.stays_denied [
  | inl open_ ↦ absurd (cc (open_, e))
  | inr (kept, _) ↦ kept ∙ e
]

-- An approval of a request that is not open changes nothing.
approve-denied :
    (id : String) (i : ApprovedResult) (now : ℕ) (t : Table) (r : ApprovalRequestRecord) (d : ℕ)
    → IsUnique t
    → find_by_id id t ≡ some r
    → r.denied_at ≡ some d
    → Store.approve id i now t ≡ some (t, false)
unfolding Store.approve find_by_id
approve-denied id i now t r d u found denied =
    let none_open =
      count_unique (has_id id) (is_open id now) (open→id id now) t r (u.ids id) found
        (ground arith) in
    rw none_open refl

-- Once a request is declined, whatever happens to the table, the window refuses the id with the
-- time of the denial, which is the one that the row holds right after it, and no approval is written
-- for it.
pub deny_is_final :
    (p : ApprovalPlatform) (now later : ℕ) (id : String) (link : Link) (input : WindowInput)
    (i : ApprovedResult) (t t' v : Table)
    → Reach [] t
    → deny now id link t ≡ (t', ok tt)
    → Reach t' v
    → (d : ℕ) × (r : ApprovalRequestRecord) × (find_by_id id t' ≡ some r)
      × (r.denied_at ≡ some d)
      × (assert_delegation_window p later (some (str id)) input v ≡ err (denied_error d))
      × (Store.approve id i later v ≡ some (v, false))
deny_is_final p now later id link input i t t' v start done rest =
    let start' = Reach-trans start (deny-Reach now id link t t' (ok tt) done) in
    let (d, r, found, denied) =
      deny-IsDenied now id link t t' (Reach-IsUnique empty-IsUnique start) done in
    let (s, found', evolved) =
      (Reach-Follows (Reach-Follows tt start').well rest).by_id id r found in
    let denied' = Evolves-denied r s d evolved denied in
    (
      d,
      r,
      found,
      denied,
      assert_delegation_window_denied p later id input v s d found' denied',
      approve-denied id i later v s d (Reach-IsUnique empty-IsUnique (Reach-trans start' rest))
          found' denied',
    )

Evolves-acknowledged :
    (r s : ApprovalRequestRecord) (a : String) → Evolves r s → r.ack_id ≡ some a → s.ack_id ≡ some a
Evolves-acknowledged r s a v e = elim v.stays_acknowledged [
  | inl open_ ↦ absurd (cc (open_, e))
  | inr (kept, _, _) ↦ kept ∙ e
]

-- Once a result is acknowledged, whatever happens to the table, it is not fetched again.
pub acknowledge_result_is_final :
    (p : ApprovalPlatform) (o : Options) (now1 now2 now3 now4 now5 : ℕ) (ref a : String)
    (body body' : ResultBody) (ack_id : Option Json) (proof proof' : Option String) (t u v : Table)
    → Reach [] t
    → acknowledge_result p o now1 now2 now3 ref body ack_id proof t ≡ (u, ok a)
    → Reach u v
    → (e : ApprovalResultError) × (fetch_result p o now4 now5 ref body' proof' v ≡ err e)
acknowledge_result_is_final p o now1 now2 now3 now4 now5 ref a body body' ack_id proof proof' t u v
      start done rest =
    let start' =
      Reach-trans start
        (acknowledge_result-Reach p o now1 now2 now3 ref body ack_id proof t u (ok a) done) in
    let (b, r, found, acked) =
      acknowledge_result-IsAcknowledged p o now1 now2 now3 ref body ack_id proof t u a
        (Reach-IsUnique empty-IsUnique start) done in
    let (s, found', evolved) =
      (Reach-Follows (Reach-Follows tt start').well rest).by_ref ref r found in
    fetch_result-acknowledged p o now4 now5 ref body' proof' v s b found'
      (Evolves-acknowledged r s b evolved acked)
