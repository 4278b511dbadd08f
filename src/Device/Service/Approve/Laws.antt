-- ===== src/Device/Service/Approve/Laws.antt =====
-- What an approval does to the store, alone and against another one.
use openkey.Common.{
  ℕ, ◌<◌, String, ◌≡◌, refl, sym, true, false, some, ◌==◌, arith, eq_refl, Option-cases, Bool-cases,
  inl, inr, ◌⊎◌,
}
use openkey.Common.Results.{Result, ok, err, ◌>>=◌}
use openkey.Json.{Json}
use openkey.Device.Types.{DeviceAuthorizationRecord, Status, pending, DeviceAuthorizationError}
use openkey.Device.Platform.{Platform}
use openkey.Device.Store
use openkey.Device.Store.{Store, find_by_id, set_approved, modify, is_pending}
use openkey.Device.Store.Laws.{find_by_id-modify}
use openkey.Device.Relay.{RelayApproval, validate_relay_approval}
use openkey.Device.Relay.Laws.{IsBounded, validate_relay_approval-IsBounded}
use openkey.Device.Service.{expired, live_pending}
use openkey.Device.Service.Approve.{approve_read, approve_commit, approve_input, approve}

-- What a written approval leaves: the record that was pending now carries it, and no other record
-- changed.
pub record IsWritten (now : ℕ) (id user_id : String) (a : RelayApproval) (s s' : Store)
    : Type 0 where
  pub before : DeviceAuthorizationRecord
  pub found : find_by_id id s ≡ some before
  pub was_pending : before.status ≡ pending
  pub after : find_by_id id s' ≡ some (set_approved (approve_input now user_id a) before)
  pub others : (other : String) → (id == other) ≡ false → find_by_id other s' ≡ find_by_id other s
  pub whole : s' ≡ modify id (set_approved (approve_input now user_id a)) s

is_pending→pending : (st : Status) → is_pending st ≡ true → st ≡ pending
is_pending→pending st h = ground arith

pub approve_commit-IsWritten :
    (now : ℕ) (id user_id : String) (a : RelayApproval) (s s' : Store)
    → approve_commit now id user_id a s ≡ (s', ok tt)
    → IsWritten now id user_id a s s'
unfolding approve_commit Store.approve
approve_commit-IsWritten now id user_id a s s' e = elim (Option-cases (find_by_id id s)) [
  | inl missing ↦ absurd (ground arith)
  | inr (r, found) ↦ elim (Bool-cases (is_pending r.status)) [
    | inl is ↦
        let same : modify id (set_approved (approve_input now user_id a)) s ≡ s' = ground arith in
        record {
          before = r;
          found = found;
          was_pending = is_pending→pending r.status is;
          after = rw (← same) (
              rw
                (
                  find_by_id-modify id id (set_approved (approve_input now user_id a)) s
                      (λ _. refl),
                  eq_refl,
                  found,
                )
                refl);
          others = λ other apart. rw (← same) (
              rw
                (
                  find_by_id-modify id other (set_approved (approve_input now user_id a)) s
                      (λ _. refl),
                  apart,
                )
                refl);
          whole = sym same;
        }
    | inr not_pending ↦ absurd (ground arith)
  ]
]

-- Of two approvals of one request that were both validated, only the first is written: the second
-- fails and changes nothing, whoever makes it and whatever it holds.
pub approve_commit_once :
    (now later : ℕ) (id user_id rival_id : String) (a rival : RelayApproval) (s s' : Store)
    → approve_commit now id user_id a s ≡ (s', ok tt)
    → approve_commit later id rival_id rival s' ≡ (s', err expired)
unfolding approve_commit Store.approve
approve_commit_once now later id user_id rival_id a rival s s' e =
    let w = approve_commit-IsWritten now id user_id a s s' e in
    rw (w.after, approve_commit, Store.approve) refl

module _ (p : Platform) where
  approve_read_sound :
      (now1 now2 : ℕ) (id : String) (value : Json) (s : Store) (a : RelayApproval)
      (r : DeviceAuthorizationRecord)
      → find_by_id id s ≡ some r
      → approve_read p now1 now2 id value s ≡ ok a
      → IsBounded r now2 a × (now1 < r.transaction_expires_at)
  unfolding approve_read ◌>>=◌
  approve_read_sound now1 now2 id value s a r found e =
      let read : live_pending now1 (some r) >>= (λ q. validate_relay_approval p q value now2)
          ≡ ok a =
        rw found at e in
      let checked : validate_relay_approval p r value now2 ≡ ok a = ground arith in
      (validate_relay_approval-IsBounded p r now2 value a checked, ground arith)

  -- An approval that succeeds found the request pending and not expired, is bounded by it, and is
  -- written to it and to no other record.
  pub approve_sound :
      (now1 now2 now3 : ℕ) (id user_id : String) (value : Json) (s s' : Store)
      → approve p now1 now2 now3 id user_id value s ≡ (s', ok tt)
      → (a : RelayApproval) × (w : IsWritten now3 id user_id a s s') × IsBounded w.before now2 a
        × (now1 < w.before.transaction_expires_at)
  unfolding approve
  approve_sound now1 now2 now3 id user_id value s s' e =
      go (approve_read p now1 now2 id value s) refl
    where
      go :
          (m : Result DeviceAuthorizationError RelayApproval)
          → approve_read p now1 now2 id value s ≡ m
          → (a : RelayApproval) × (w : IsWritten now3 id user_id a s s') × IsBounded w.before now2 a
            × (now1 < w.before.transaction_expires_at)
      go (err x) read = absurd (cc (rw (read, approve) at e))
      go (ok a) read =
          let w = approve_commit-IsWritten now3 id user_id a s s' (rw (read, approve) at e) in
          let (bounded, open_) = approve_read_sound now1 now2 id value s a w.before w.found read in
          (a, w, bounded, open_)

  -- What was validated is bounded by the record that was read.
  pub approve_read-IsBounded :
      (now1 now2 : ℕ) (id : String) (value : Json) (s : Store) (a : RelayApproval)
      → approve_read p now1 now2 id value s ≡ ok a
      → (r : DeviceAuthorizationRecord) × (find_by_id id s ≡ some r) × IsBounded r now2 a
  unfolding approve_read ◌>>=◌
  approve_read-IsBounded now1 now2 id value s a e = elim (Option-cases (find_by_id id s)) [
    | inl missing ↦ absurd (ground (arith, rw (missing, approve_read) at e))
    | inr (r, found) ↦ (r, found, (approve_read_sound now1 now2 id value s a r found e).0)
  ]

-- A write changes nothing, or is made to a pending record.
pub approve_commit_cases :
    (now : ℕ) (id user_id : String) (a : RelayApproval) (s s' : Store)
    (response : Result DeviceAuthorizationError (Unit {0}))
    → approve_commit now id user_id a s ≡ (s', response)
    → (s' ≡ s)
      ⊎ ((r : DeviceAuthorizationRecord) × (find_by_id id s ≡ some r)
          × (r.status ≡ pending)
          × (s' ≡ modify id (set_approved (approve_input now user_id a)) s))
unfolding approve_commit Store.approve
approve_commit_cases now id user_id a s s' response e = elim (Option-cases (find_by_id id s)) [
  | inl missing ↦ inl (ground arith)
  | inr (r, found) ↦ elim (Bool-cases (is_pending r.status)) [
    | inl is ↦ inr (r, found, is_pending→pending r.status is, ground arith)
    | inr not_pending ↦ inl (ground arith)
  ]
]
