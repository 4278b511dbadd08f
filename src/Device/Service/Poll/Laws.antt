-- ===== src/Device/Service/Poll/Laws.antt =====
-- Polling shows a result to the holder of both secrets, again and again until it is acknowledged.
use openkey.Common.{
  ℕ, ◌+◌, ◌*◌, ◌≤◌, ◌<◌, String, ◌≡◌, refl, ap, ◌∙◌, false, Option, none, some, leb, ltb, arith,
  eq_iff, eq_refl, Option-cases, Bool-cases, inl, inr, ◌⊎◌,
}
use openkey.Common.Results.{Result, ok, err}
use openkey.Device.Types.{
  DeviceAuthorizationRecord, DeviceRelayEnvelope, Status, pending, approved, denied, consumed,
  DeviceAuthorizationError, device_error, slow_down, invalid_result,
}
use openkey.Device.Platform.{Platform}
use openkey.Device.Store
use openkey.Device.Store.{Store, find_by_id, modify, set_consumed, is_approved}
use openkey.Device.Store.Laws.{find_by_id-modify, find_by_id-id}
use openkey.Device.Service.{Outcome, Credentials, credentials_match}
use openkey.Device.Service.Poll.{
  PollResponse, still_pending, is_ready, binding_of, ready, poll_response, poll_live, poll,
}

-- A pending record is answered by its interval, an approved one by its result and its binding.
pub data Answers (r : DeviceAuthorizationRecord) (a : PollResponse) : Type 0 where
  waits : r.status ≡ pending → a ≡ still_pending r.poll_interval_seconds → Answers r a
  shows :
      (relay : DeviceRelayEnvelope)
      → r.status ≡ approved
      → r.encrypted_result ≡ some relay
      → a ≡ is_ready relay (binding_of r)
      → Answers r a

-- A poll that is answered found a live record whose two hashes are those of the secrets, and waited
-- for its time; it records the poll and changes nothing else.
pub record IsAnswered (p : Platform) (now1 now2 : ℕ) (c : Credentials) (s s' : Store)
    (a : PollResponse) : Type 0 where
  pub at : DeviceAuthorizationRecord
  pub found : find_by_id c.transaction_id s ≡ some at
  pub unexpired : now1 < at.transaction_expires_at
  pub secret : p.sha256 c.device_secret ≡ at.device_secret_hash
  pub verifier : p.sha256 c.code_verifier ≡ at.code_challenge
  pub on_time : at.next_poll_at ≤ now2
  pub answer : Answers at a
  pub recorded : s' ≡ Store.update_poll at.id (now2 + at.poll_interval_seconds * 1000) s

module _ (p : Platform) where
  poll_found :
      (now1 now2 : ℕ) (c : Credentials) (s : Store) (r : DeviceAuthorizationRecord)
      → find_by_id c.transaction_id s ≡ some r
      → now1 < r.transaction_expires_at
      → poll p now1 now2 (some c) s ≡ poll_live p now2 c r s
  unfolding poll
  poll_found now1 now2 c s r found open_ =
      let is_open : leb r.transaction_expires_at now1 ≡ false = ground arith in
      rw (found, poll, is_open) refl

  response_lost :
      (st : Status) (r : DeviceAuthorizationRecord)
      → poll_response st r ≡ err (device_error invalid_result 500)
      → (st ≡ approved) × (r.encrypted_result ≡ none)
  unfolding poll_response ready
  response_lost st r e = ground arith

  -- A poll that misses its result found a live approved record without one.
  pub poll_lost :
      (now1 now2 : ℕ) (c : Credentials) (s s' : Store)
      → poll p now1 now2 (some c) s ≡ (s', err (device_error invalid_result 500))
      → (r : DeviceAuthorizationRecord) × (find_by_id c.transaction_id s ≡ some r)
        × (now1 < r.transaction_expires_at)
        × (r.status ≡ approved)
        × (r.encrypted_result ≡ none)
  unfolding poll poll_live
  poll_lost now1 now2 c s s' e = elim (Option-cases (find_by_id c.transaction_id s)) [
    | inl missing ↦ absurd (ground arith)
    | inr (r, found) ↦
        let (st, lost) = response_lost r.status r (ground arith) in
        (r, found, ground arith, st, lost)
  ]

  poll_response-Answers :
      (r : DeviceAuthorizationRecord) (st : Status) (a : PollResponse)
      → r.status ≡ st
      → poll_response st r ≡ ok a
      → Answers r a
  unfolding poll_response
  poll_response-Answers r pending a st e = waits st (ground arith)
  poll_response-Answers r approved a st e = elim (Option-cases r.encrypted_result) [
    | inl missing ↦ absurd (ground arith)
    | inr (relay, kept) ↦ shows relay st kept (ground arith)
  ]
  poll_response-Answers r denied a st e = cc
  poll_response-Answers r consumed a st e = cc

  pub poll-IsAnswered :
      (now1 now2 : ℕ) (c : Credentials) (s s' : Store) (a : PollResponse)
      → poll p now1 now2 (some c) s ≡ (s', ok a)
      → IsAnswered p now1 now2 c s s' a
  unfolding poll poll_live credentials_match
  poll-IsAnswered now1 now2 c s s' a e = elim (Option-cases (find_by_id c.transaction_id s)) [
    | inl missing ↦ absurd (ground arith)
    | inr (r, found) ↦ record {
      at = r;
      found = found;
      unexpired = ground arith;
      secret = ground (arith, eq_iff (p.sha256 c.device_secret) r.device_secret_hash);
      verifier = ground (arith, eq_iff (p.sha256 c.code_verifier) r.code_challenge);
      on_time = ground arith;
      answer = poll_response-Answers r r.status a refl (ground arith);
      recorded = ground arith;
    }
  ]

  find_by_id-update_poll :
      (id : String) (t : ℕ) (s : Store) (r : DeviceAuthorizationRecord)
      → find_by_id id s ≡ some r
      → find_by_id id (Store.update_poll r.id t s) ≡ some (record r { next_poll_at = t })
  unfolding Store.update_poll
  find_by_id-update_poll id t s r found =
      ap (λ i. find_by_id id (Store.update_poll i t s)) (find_by_id-id id s r found)
      ∙ rw
          (
            find_by_id-modify id id (λ q. record q { next_poll_at = t }) s (λ _. refl),
            eq_refl,
            found,
          )
          refl

  -- The second poll meets the record with the next time recorded.
  poll_after :
      (now1 now2 later1 later2 : ℕ) (c : Credentials) (s s' : Store) (a : PollResponse)
      (h : IsAnswered p now1 now2 c s s' a)
      → later1 < h.at.transaction_expires_at
      → poll p later1 later2 (some c) s'
        ≡ poll_live p later2 c
            (record h.at { next_poll_at = now2 + h.at.poll_interval_seconds * 1000 })
            s'
  poll_after now1 now2 later1 later2 c s s' a h open_ =
      poll_found later1 later2 c s' _
        (rw h.recorded (find_by_id-update_poll c.transaction_id _ s h.at h.found)) open_

  answer_at :
      (r : DeviceAuthorizationRecord) (a : PollResponse)
      → Answers r a
      → poll_response r.status r ≡ ok a
  unfolding poll_response
  answer_at r a (waits st e) = ground arith
  answer_at r a (shows relay st kept e) = ground arith

  poll_live_soon :
      (now : ℕ) (c : Credentials) (r : DeviceAuthorizationRecord) (s : Store)
      → p.sha256 c.device_secret ≡ r.device_secret_hash
      → p.sha256 c.code_verifier ≡ r.code_challenge
      → now < r.next_poll_at
      → poll_live p now c r s ≡ (s, err (device_error slow_down 429))
  unfolding poll_live credentials_match
  poll_live_soon now c r s secret verifier soon = ground (
    arith,
    eq_iff (p.sha256 c.device_secret) r.device_secret_hash,
    eq_iff (p.sha256 c.code_verifier) r.code_challenge,
  )

  poll_live_due :
      (now : ℕ) (c : Credentials) (r : DeviceAuthorizationRecord) (s : Store)
      → p.sha256 c.device_secret ≡ r.device_secret_hash
      → p.sha256 c.code_verifier ≡ r.code_challenge
      → r.next_poll_at ≤ now
      → (poll_live p now c r s).1 ≡ poll_response r.status r
  unfolding poll_live credentials_match
  poll_live_due now c r s secret verifier due = ground (
    arith,
    eq_iff (p.sha256 c.device_secret) r.device_secret_hash,
    eq_iff (p.sha256 c.code_verifier) r.code_challenge,
  )

  next_same :
      (r : DeviceAuthorizationRecord) (t : ℕ) (st : Status)
      → poll_response st (record r { next_poll_at = t }) ≡ poll_response st r
  unfolding poll_response
  next_same r t pending = refl
  next_same r t approved = refl
  next_same r t denied = refl
  next_same r t consumed = refl

  -- Before its interval has passed, and before the record that the first one met expires, a second
  -- poll with the same secrets is told to slow down, and changes nothing.
  pub poll_too_soon :
      (now1 now2 later1 later2 : ℕ) (c : Credentials) (s s' : Store) (a : PollResponse)
      (r : DeviceAuthorizationRecord)
      → find_by_id c.transaction_id s ≡ some r
      → poll p now1 now2 (some c) s ≡ (s', ok a)
      → later1 < r.transaction_expires_at
      → later2 < now2 + r.poll_interval_seconds * 1000
      → poll p later1 later2 (some c) s' ≡ (s', err (device_error slow_down 429))
  poll_too_soon now1 now2 later1 later2 c s s' a r found e open_ soon =
      let h = poll-IsAnswered now1 now2 c s s' a e in
      let same : r ≡ h.at = cc h.found in
      poll_after now1 now2 later1 later2 c s s' a h (rw same at open_)
      ∙ poll_live_soon later2 c _ s' h.secret h.verifier (rw same at soon)

  -- From then on, while the record lives, it gets the same answer: polling spends nothing.
  pub poll_repeats :
      (now1 now2 later1 later2 : ℕ) (c : Credentials) (s s' : Store) (a : PollResponse)
      (r : DeviceAuthorizationRecord)
      → find_by_id c.transaction_id s ≡ some r
      → poll p now1 now2 (some c) s ≡ (s', ok a)
      → later1 < r.transaction_expires_at
      → now2 + r.poll_interval_seconds * 1000 ≤ later2
      → (poll p later1 later2 (some c) s').1 ≡ ok a
  poll_repeats now1 now2 later1 later2 c s s' a r found e open_ due =
      let h = poll-IsAnswered now1 now2 c s s' a e in
      let same : r ≡ h.at = cc h.found in
      ap (λ (x : Outcome PollResponse). x.1)
        (poll_after now1 now2 later1 later2 c s s' a h (rw same at open_))
      ∙ poll_live_due later2 c _ s' h.secret h.verifier (rw same at due)
      ∙ next_same h.at _ h.at.status
      ∙ answer_at h.at a h.answer

  -- A live record is answered when its time has come and both secrets are right.
  pub poll_answers :
      (now1 now2 : ℕ) (c : Credentials) (s : Store) (r : DeviceAuthorizationRecord)
      → find_by_id c.transaction_id s ≡ some r
      → now1 < r.transaction_expires_at
      → p.sha256 c.device_secret ≡ r.device_secret_hash
      → p.sha256 c.code_verifier ≡ r.code_challenge
      → r.next_poll_at ≤ now2
      → (poll p now1 now2 (some c) s).1 ≡ poll_response r.status r
  poll_answers now1 now2 c s r found open_ secret verifier due =
      ap (λ (x : Outcome PollResponse). x.1) (poll_found now1 now2 c s r found open_)
      ∙ poll_live_due now2 c r s secret verifier due

  -- A poll changes nothing, or the time of the next poll of a record.
  pub poll_cases :
      (now1 now2 : ℕ) (input : Option Credentials) (s s' : Store)
      (response : Result DeviceAuthorizationError PollResponse)
      → poll p now1 now2 input s ≡ (s', response)
      → (s' ≡ s)
        ⊎ ((r : DeviceAuthorizationRecord) × (t : ℕ) × (find_by_id r.id s ≡ some r)
            × (s' ≡ Store.update_poll r.id t s))
  unfolding poll poll_live
  poll_cases now1 now2 none s s' response e = inl (ground arith)
  poll_cases now1 now2 (some c) s s' response e =
      elim (Option-cases (find_by_id c.transaction_id s)) [
        | inl missing ↦ inl (ground arith)
        | inr (r, found) ↦ elim (Bool-cases (leb r.transaction_expires_at now1)) [
          | inl over ↦ inl (ground arith)
          | inr open_ ↦ elim (Bool-cases (credentials_match p r c.device_secret c.code_verifier)) [
            | inr wrong ↦ inl (ground arith)
            | inl right ↦ elim (Bool-cases (ltb now2 r.next_poll_at)) [
              | inl soon ↦ inl (ground arith)
              | inr due ↦ inr (
                r,
                now2 + r.poll_interval_seconds * 1000,
                ap (λ i. find_by_id i s) (find_by_id-id c.transaction_id s r found) ∙ found,
                ground arith,
              )
            ]
          ]
        ]
      ]
