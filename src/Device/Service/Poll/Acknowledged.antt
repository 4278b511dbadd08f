-- ===== src/Device/Service/Poll/Acknowledged.antt =====
-- An acknowledgement spends the result for good.
use openkey.Common.{
  ℕ, ◌<◌, String, ◌≡◌, refl, sym, ◌∙◌, none, some, arith, eq_iff, eq_refl, Option-cases, inl, inr,
}
use mathlib.Core.Path.{subst}
use openkey.Common.Results.{ok}
use openkey.Device.Types.{DeviceAuthorizationRecord, Status, pending, approved, denied, consumed}
use openkey.Device.Platform.{Platform}
use openkey.Device.Store
use openkey.Device.Store.{Store, find_by_id, modify, set_consumed, is_approved}
use openkey.Device.Store.Laws.{find_by_id-modify, find_by_id-id}
use openkey.Device.Service.{Credentials, credentials_match}
use openkey.Device.Service.Poll.{acknowledge, acknowledge_status, consume}

-- The transaction is live, its secrets are those of the request, and it is spent.
pub record IsSpent (p : Platform) (now : ℕ) (c : Credentials) (s : Store) : Type 0 where
  pub at : DeviceAuthorizationRecord
  pub found : find_by_id c.transaction_id s ≡ some at
  pub unexpired : now < at.transaction_expires_at
  pub secret : p.sha256 c.device_secret ≡ at.device_secret_hash
  pub verifier : p.sha256 c.code_verifier ≡ at.code_challenge
  pub spent : at.status ≡ consumed

-- The record that consuming leaves under an id.
consume_found :
    (p : Platform) (id : String) (wall : ℕ) (s s' : Store) (r : DeviceAuthorizationRecord)
    → find_by_id id s ≡ some r
    → consume p id wall s ≡ (s', ok tt)
    → find_by_id id s' ≡ some (set_consumed wall r)
unfolding consume Store.consume_approved
consume_found p id wall s s' r found e =
    let same : modify id (set_consumed wall) s ≡ s' = ground arith in
    rw (← same)
      (rw (find_by_id-modify id id (set_consumed wall) s (λ _. refl), eq_refl, found) refl)

module _ (p : Platform) where
  spent_status :
      (st : Status) (wall : ℕ) (id : String) (s s' : Store) (r : DeviceAuthorizationRecord)
      → find_by_id id s ≡ some r
      → r.status ≡ st
      → acknowledge_status p st r.id wall s ≡ (s', ok tt)
      → (q : DeviceAuthorizationRecord) × (find_by_id id s' ≡ some q)
        × (q.status ≡ consumed)
        × (q.transaction_expires_at ≡ r.transaction_expires_at)
        × (q.device_secret_hash ≡ r.device_secret_hash)
        × (q.code_challenge ≡ r.code_challenge)
  unfolding acknowledge_status
  spent_status consumed wall id s s' r found st e =
      let same : s ≡ s' = ground arith in (r, rw (← same) found, st, refl, refl, refl)
  spent_status approved wall id s s' r found st e =
      let e' : consume p id wall s ≡ (s', ok tt) =
        subst (λ i. consume p i wall s ≡ (s', ok tt)) (find_by_id-id id s r found) e in
      (set_consumed wall r, consume_found p id wall s s' r found e', refl, refl, refl, refl)
  spent_status pending wall id s s' r found st e = absurd (ground arith)
  spent_status denied wall id s s' r found st e = absurd (ground arith)

  acknowledge_parts :
      (now wall : ℕ) (c : Credentials) (s s' : Store) (r : DeviceAuthorizationRecord)
      → find_by_id c.transaction_id s ≡ some r
      → acknowledge p now wall (some c) s ≡ (s', ok tt)
      → (now < r.transaction_expires_at)
        × (p.sha256 c.device_secret ≡ r.device_secret_hash)
        × (p.sha256 c.code_verifier ≡ r.code_challenge)
        × (acknowledge_status p r.status r.id wall s ≡ (s', ok tt))
  unfolding acknowledge credentials_match
  acknowledge_parts now wall c s s' r found e = (
    ground arith,
    ground (arith, eq_iff (p.sha256 c.device_secret) r.device_secret_hash),
    ground (arith, eq_iff (p.sha256 c.code_verifier) r.code_challenge),
    ground arith,
  )

  acknowledge_missing :
      (now wall : ℕ) (c : Credentials) (s s' : Store)
      → find_by_id c.transaction_id s ≡ none
      → ¬ (acknowledge p now wall (some c) s ≡ (s', ok tt))
  unfolding acknowledge
  acknowledge_missing now wall c s s' missing = ground arith

  -- An acknowledgement that succeeds leaves its transaction spent.
  pub acknowledge-IsSpent :
      (now wall : ℕ) (c : Credentials) (s s' : Store)
      → acknowledge p now wall (some c) s ≡ (s', ok tt)
      → IsSpent p now c s'
  acknowledge-IsSpent now wall c s s' e = elim (Option-cases (find_by_id c.transaction_id s)) [
    | inl missing ↦ absurd (acknowledge_missing now wall c s s' missing e)
    | inr (r, found) ↦
        let (open_, secret, verifier, step) = acknowledge_parts now wall c s s' r found e in
        let (q, found', spent, same1, same2, same3) =
          spent_status r.status wall c.transaction_id s s' r found refl step in
        record {
          at = q;
          found = found';
          unexpired = omega arith;
          secret = secret ∙ sym same2;
          verifier = verifier ∙ sym same3;
          spent = spent;
        }
  ]

  -- To acknowledge again, before the transaction expires, succeeds and changes nothing.
  pub acknowledge_twice :
      (now wall later wall' : ℕ) (c : Credentials) (s s' : Store) (r : DeviceAuthorizationRecord)
      → acknowledge p now wall (some c) s ≡ (s', ok tt)
      → find_by_id c.transaction_id s' ≡ some r
      → later < r.transaction_expires_at
      → acknowledge p later wall' (some c) s' ≡ (s', ok tt)
  unfolding acknowledge credentials_match acknowledge_status
  acknowledge_twice now wall later wall' c s s' r e found open_ =
      let h = acknowledge-IsSpent now wall c s s' e in
      let same : r ≡ h.at = cc h.found in
      ground (
        arith,
        eq_iff (p.sha256 c.device_secret) h.at.device_secret_hash,
        eq_iff (p.sha256 c.code_verifier) h.at.code_challenge,
      )
