-- ===== src/Device/System/Results.antt =====
-- What a poll answers after any history of the store, in
-- apps/api/src/services/device-authorization.ts.

use openkey.Common.{ℕ, ◌≤◌, ◌<◌, ◌≡◌, sym, ap, ◌∙◌, none, some, [], arith, inl, inr}
use openkey.Common.Results.{ok, err}
use openkey.Device.Types.{
  DeviceAuthorizationRecord, DeviceRelayEnvelope, Status, pending, approved, denied, consumed,
  device_error, invalid_result,
}
use openkey.Device.Platform.{Platform}
use openkey.Device.Store.{Store, find_by_id}
use openkey.Device.Store.Laws.{All-find_by_id}
use openkey.Device.Scope.Approved.Laws.{IsSubset}
use openkey.Device.Service.{Options, Credentials}
use openkey.Device.Service.Poll.{Binding, binding_of, is_ready, PollResponse, poll, acknowledge}
use openkey.Device.Service.Poll.Laws.{poll_lost, poll-IsAnswered, Answers, waits, shows}
use openkey.Device.Service.Poll.Acknowledged.{acknowledge-IsSpent}
use openkey.Device.System.{System, Reach}
use openkey.Device.System.Invariant.{IsWell, Fits}
use openkey.Device.System.Histories.{Reach-IsWell, Reach-Follows}

kept_result :
    (clock : ℕ) (st : Status) (r : DeviceAuthorizationRecord)
    → Fits clock st r
    → clock < r.transaction_expires_at
    → st ≡ approved
    → ¬ (r.encrypted_result ≡ none)
kept_result clock approved r (inl kept, _, _) open_ e = kept
kept_result clock approved r (inr over, _, _) open_ e = omega arith
kept_result clock pending r h open_ e = absurd (ground arith)
kept_result clock denied r h open_ e = absurd (ground arith)
kept_result clock consumed r h open_ e = absurd (ground arith)

shown_within :
    (clock : ℕ) (st : Status) (r : DeviceAuthorizationRecord)
    → Fits clock st r
    → st ≡ approved
    → IsSubset (binding_of r).permissions r.permissions
shown_within clock approved r (_, _, (qs, same, within)) e = rw same within
shown_within clock pending r h e = absurd (ground arith)
shown_within clock denied r h e = absurd (ground arith)
shown_within clock consumed r h e = absurd (ground arith)

consumed_silent :
    (r : DeviceAuthorizationRecord) (a : PollResponse) → r.status ≡ consumed → ¬ (Answers r a)
consumed_silent r a st (waits st' _) = cc
consumed_silent r a st (shows relay st' _ _) = cc

module _ (p : Platform) (o : Options) where
  -- After an acknowledgement that succeeded, and any history from there, no poll of that transaction
  -- is answered, whatever its secrets and its time.
  pub acknowledge_ends_polls :
      (now wall later1 later2 : ℕ) (c d : Credentials) (s s'' : Store) (u v : System)
      (a : PollResponse)
      → acknowledge p now wall (some c) s ≡ (u.store, ok tt)
      → Reach p o u v
      → d.transaction_id ≡ c.transaction_id
      → ¬ (poll p later1 later2 (some d) v.store ≡ (s'', ok a))
  acknowledge_ends_polls now wall later1 later2 c d s s'' u v a e rest same polled =
      let h = acknowledge-IsSpent p now wall c s u.store e in
      let (r, found, evolved) = (Reach-Follows p o rest).by_id c.transaction_id h.at h.found in
      let g = poll-IsAnswered p later1 later2 d v.store s'' a polled in
      let met : find_by_id c.transaction_id v.store ≡ some g.at = rw (← same) g.found in
      let one : r ≡ g.at = cc (found, met) in
      consumed_silent g.at a
        (ap (λ (x : DeviceAuthorizationRecord). x.status) (sym one)
          ∙ evolved.stays_consumed h.spent)
        g.answer

  -- After any history that begins with an empty store, a poll that is made no earlier never fails
  -- because the result of an approval has been lost.
  pub Reach-keeps_result :
      (u v : System) (now1 now2 : ℕ) (c : Credentials) (s' : Store)
      → u.store ≡ []
      → Reach p o u v
      → v.clock ≤ now1
      → ¬ (poll p now1 now2 (some c) v.store ≡ (s', err (device_error invalid_result 500)))
  Reach-keeps_result u v now1 now2 c s' empty h later e =
      let (r, found, open_, st, lost) = poll_lost p now1 now2 c v.store s' e in
      let k : IsWell v.clock r =
        All-find_by_id (IsWell v.clock) c.transaction_id v.store r (Reach-IsWell p o u v empty h)
          found in
      kept_result v.clock r.status r k (omega arith) st lost

  -- After any such history, a poll that shows a result binds it to the request of that id, and to
  -- permissions that are a part of those the request asked for.
  pub Reach-shows_within :
      (u v : System) (now1 now2 : ℕ) (c : Credentials) (s' : Store) (relay : DeviceRelayEnvelope)
      (b : Binding)
      → u.store ≡ []
      → Reach p o u v
      → poll p now1 now2 (some c) v.store ≡ (s', ok (is_ready relay b))
      → (r : DeviceAuthorizationRecord) × (find_by_id c.transaction_id v.store ≡ some r)
        × (r.encrypted_result ≡ some relay)
        × (b ≡ binding_of r)
        × IsSubset b.permissions r.permissions
  Reach-shows_within u v now1 now2 c s' relay b empty h e =
      let g = poll-IsAnswered p now1 now2 c v.store s' (is_ready relay b) e in
      let k : IsWell v.clock g.at =
        All-find_by_id (IsWell v.clock) c.transaction_id v.store g.at (Reach-IsWell p o u v empty h)
          g.found in
      shown g.at g.found k g.answer
    where
      shown :
          (r : DeviceAuthorizationRecord)
          → find_by_id c.transaction_id v.store ≡ some r
          → IsWell v.clock r
          → Answers r (is_ready relay b)
          → (q : DeviceAuthorizationRecord) × (find_by_id c.transaction_id v.store ≡ some q)
            × (q.encrypted_result ≡ some relay)
            × (b ≡ binding_of q)
            × IsSubset b.permissions q.permissions
      shown r found k (waits st same) = absurd (ground arith)
      shown r found k (shows relay' st kept same) =
          let bound : b ≡ binding_of r = ground arith in
          (r, found, rw kept (ground arith), bound, rw bound (shown_within v.clock r.status r k st))
