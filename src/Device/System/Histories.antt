-- ===== src/Device/System/Histories.antt =====
-- What holds after any history of the store, in
-- apps/api/src/services/device-authorization.ts.
use mathlib.Core.Path.{subst}
use openkey.Common.{ℕ, String, ◌≡◌, refl, sym, ap, ◌∙◌, [], some, inl, inr, All, Option-cases}
use openkey.Common.Results.{Result}
use openkey.Device.Types.{DeviceAuthorizationRecord, DeviceAuthorizationError}
use openkey.Device.Platform.{Platform}
use openkey.Device.Store
use openkey.Device.Store.{Store, find_by_id, modify, set_approved, set_consumed}
use openkey.Device.Store.Laws.{All-find_by_id, All-create, All-modify}
use openkey.Device.Store.Follows.{
  Follows, Follows-refl, Follows-trans, wipe-Follows, create-Follows, modify-Follows,
  update_poll-Follows, modify_missing, consume_approved_cases,
}
use openkey.Device.Relay.{RelayApproval}
use openkey.Device.Scope.Approved.Laws.{IsSubset}
use openkey.Device.Service.{Options}
use openkey.Device.Service.Begin.{ip_hash}
use openkey.Device.Service.Begin.Laws.{start_read-IsAdmitted}
use openkey.Device.Service.Approve.{approve_input, approve_commit}
use openkey.Device.Service.Approve.Laws.{approve_read-IsBounded, approve_commit_cases}
use openkey.Device.System.{
  System, Reach, start_here, waits, sweeps, creates, approves, polls, consumes,
}
use openkey.Device.System.Invariant.{
  IsWell, All-IsWell-mono, All-IsWell-wipe, new_record-IsWell, set_approved-IsWell,
  set_consumed-IsWell, next_poll-IsWell,
}

approve_commit-Follows :
    (now : ℕ) (id user_id : String) (a : RelayApproval) (s s' : Store)
    (response : Result DeviceAuthorizationError (Unit {0}))
    → approve_commit now id user_id a s ≡ (s', response)
    → Follows s s'
approve_commit-Follows now id user_id a s s' response e =
    elim (approve_commit_cases now id user_id a s s' response e) [
      | inl same ↦ subst (λ x. Follows s x) (sym same) (Follows-refl s)
      | inr (r, found, was_pending, written) ↦
          subst (λ x. Follows s x) (sym written)
            (modify-Follows id (set_approved (approve_input now user_id a)) s r found (λ q. refl)
              (λ q. refl)
              (record {
                same_id = refl;
                same_code = refl;
                same_session = refl;
                same_permissions = refl;
                stays_consumed = λ x. absurd (cc (was_pending, x));
                pending_before = λ x. absurd (cc x);
              }))
    ]

consume_approved-Follows :
    (id : String) (now : ℕ) (s : Store) → Follows s (Store.consume_approved id now s).0
consume_approved-Follows id now s = elim (consume_approved_cases id now s) [
  | inl same ↦ subst (λ x. Follows s x) (sym same) (Follows-refl s)
  | inr (r, found, st, written) ↦
      subst (λ x. Follows s x) (sym written)
        (modify-Follows id (set_consumed now) s r found (λ q. refl) (λ q. refl)
          (record {
            same_id = refl;
            same_code = refl;
            same_session = refl;
            same_permissions = refl;
            stays_consumed = λ x. refl;
            pending_before = λ x. absurd (cc x);
          }))
]

module _ (p : Platform) (o : Options) where
  pub Reach-Follows : {u v : System} → Reach p o u v → Follows u.store v.store
  Reach-Follows {u} start_here = Follows-refl u.store
  Reach-Follows {u} (waits h l e) = subst (λ x. Follows u.store x) (sym e) (Reach-Follows h)
  Reach-Follows {u} {v = w} (sweeps {v = m} now h l k e) =
      Follows-trans u.store m.store w.store (Reach-Follows h)
        (subst (λ x. Follows m.store x) (sym e) (wipe-Follows now m.store))
  Reach-Follows {u} {v = w} (creates {v = m} now input ip id draws met r h l e new made) =
      Follows-trans u.store m.store w.store (Reach-Follows h)
        (subst (λ x. Follows m.store x) (sym made) (create-Follows r m.store new))
  Reach-Follows {u} {v = w}
        (approves {t = t} {v = m} now1 now2 now3 id user_id value a response h read k l e) =
      Follows-trans u.store m.store w.store
        (Follows-trans u.store t.store m.store (Reach-Follows h) (Reach-Follows k))
        (approve_commit-Follows now3 id user_id a m.store w.store response e)
  Reach-Follows {u} {v = w} (polls {v = m} id next_poll_at h l e) =
      Follows-trans u.store m.store w.store (Reach-Follows h)
        (subst (λ x. Follows m.store x) (sym e) (update_poll-Follows id next_poll_at m.store))
  Reach-Follows {u} {v = w} (consumes {v = m} id wall h l e) =
      Follows-trans u.store m.store w.store (Reach-Follows h)
        (subst (λ x. Follows m.store x) (sym e) (consume_approved-Follows id wall m.store))

  update_poll-IsWell :
      (clock : ℕ) (id : String) (t : ℕ) (s : Store)
      → All (IsWell clock) s
      → All (IsWell clock) (Store.update_poll id t s)
  unfolding Store.update_poll
  update_poll-IsWell clock id t s h = elim (Option-cases (find_by_id id s)) [
    | inl missing ↦ rw (modify_missing id (λ q. record q { next_poll_at = t }) s missing) h
    | inr (r, found) ↦
        All-modify (IsWell clock) id (λ q. record q { next_poll_at = t }) s r found
          (next_poll-IsWell clock t r (All-find_by_id (IsWell clock) id s r h found)) h
  ]

  consume_approved-IsWell :
      (clock : ℕ) (id : String) (wall : ℕ) (s : Store)
      → All (IsWell clock) s
      → All (IsWell clock) (Store.consume_approved id wall s).0
  consume_approved-IsWell clock id wall s h = elim (consume_approved_cases id wall s) [
    | inl same ↦ rw same h
    | inr (r, found, st, written) ↦ rw written (
        All-modify (IsWell clock) id (set_consumed wall) s r found
          (set_consumed-IsWell clock wall r st (All-find_by_id (IsWell clock) id s r h found)) h)
  ]

  -- The permissions of the result are a part of those of the record that the write meets, as that
  -- record evolved from the one that was read.
  approve_commit-IsWell :
      (clock now now2 : ℕ) (id user_id : String) (a : RelayApproval) (t s s' : Store)
      (r : DeviceAuthorizationRecord) (response : Result DeviceAuthorizationError (Unit {0}))
      → Follows t s
      → find_by_id id t ≡ some r
      → IsSubset a.approved_permissions r.permissions
      → approve_commit now id user_id a s ≡ (s', response)
      → All (IsWell clock) s
      → All (IsWell clock) s'
  approve_commit-IsWell clock now now2 id user_id a t s s' r response follows found within e h =
      elim (approve_commit_cases now id user_id a s s' response e) [
        | inl same ↦ rw same h
        | inr (q, met, was_pending, written) ↦
            let (q', met', evolved) = follows.by_id id r found in
            let same : q' ≡ q = cc (met, met') in
            let permissions : r.permissions ≡ q.permissions =
              sym evolved.same_permissions
              ∙ ap (λ (x : DeviceAuthorizationRecord). x.permissions) same in
            rw written (
              All-modify (IsWell clock) id (set_approved (approve_input now user_id a)) s q met
                (set_approved-IsWell clock now user_id a q was_pending
                  (subst (λ x. IsSubset a.approved_permissions x) permissions within)
                  (All-find_by_id (IsWell clock) id s q h met))
                h)
      ]

  keeps_IsWell :
      {u v : System} → All (IsWell u.clock) u.store → Reach p o u v → All (IsWell v.clock) v.store
  keeps_IsWell {u} h start_here = h
  keeps_IsWell {u} {v = w} h (waits {v = m} later l e) =
      rw e (All-IsWell-mono m.clock w.clock m.store l (keeps_IsWell h later))
  keeps_IsWell {u} {v = w} h (sweeps {v = m} now later l k e) = rw e (
      All-IsWell-wipe w.clock now m.store k
        (All-IsWell-mono m.clock w.clock m.store l (keeps_IsWell h later)))
  keeps_IsWell {u} {v = w} h (creates {v = m} now input ip id draws met r later l read new made) =
      let a = start_read-IsAdmitted p o now ip id draws input met r read in
      rw made (
        All-create (IsWell w.clock) r m.store
          (subst (IsWell w.clock) (sym a.whole)
            (new_record-IsWell p o w.clock now a.input_ a.checked (ip_hash p o ip) id a.raw))
          (All-IsWell-mono m.clock w.clock m.store l (keeps_IsWell h later)))
  keeps_IsWell {u} {v = w} h
        (approves {t = t} {v = m} now1 now2 now3 id user_id value a response first read later l e) =
      let (r, found, bounded) = approve_read-IsBounded p now1 now2 id value t.store a read in
      approve_commit-IsWell w.clock now3 now2 id user_id a t.store m.store w.store r response
        (Reach-Follows later) found bounded.permissions e
        (All-IsWell-mono m.clock w.clock m.store l (keeps_IsWell (keeps_IsWell h first) later))
  keeps_IsWell {u} {v = w} h (polls {v = m} id next_poll_at later l e) = rw e (
      update_poll-IsWell w.clock id next_poll_at m.store
        (All-IsWell-mono m.clock w.clock m.store l (keeps_IsWell h later)))
  keeps_IsWell {u} {v = w} h (consumes {v = m} id wall later l e) = rw e (
      consume_approved-IsWell w.clock id wall m.store
        (All-IsWell-mono m.clock w.clock m.store l (keeps_IsWell h later)))

  -- After any history that begins with an empty store, every record is well formed: a pending one has
  -- no result, an approved one has one as long as it lives, a consumed one has none again, what was
  -- approved is a part of what was asked, and nothing is denied.
  pub Reach-IsWell : (u v : System) → u.store ≡ [] → Reach p o u v → All (IsWell v.clock) v.store
  Reach-IsWell u v empty h = keeps_IsWell (rw empty tt) h
