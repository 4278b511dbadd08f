-- ===== src/Device/System.antt =====
-- Histories of device authorization, in the store's operations: each is one step, made by a method at
-- one of its awaits, with any others in between, under a clock that does not run backwards. The ids
-- that are drawn are new.
pub mod Invariant
pub mod Histories
pub mod Results
pub mod Calls
use openkey.Common.{ℕ, ◌≤◌, ◌≡◌, String, Option, none, some, List}
use openkey.Common.Results.{Result, ok}
use openkey.Json.{Json}
use openkey.Device.Types.{DeviceAuthorizationRecord, DeviceAuthorizationError}
use openkey.Device.Platform.{Platform}
use openkey.Device.Store
use openkey.Device.Store.{Store, find_by_id}
use openkey.Device.UserCode.{Draw}
use openkey.Device.Start.{StartInput}
use openkey.Device.Relay.{RelayApproval}
use openkey.Device.Service.{Options}
use openkey.Device.Service.Begin.{start_read}
use openkey.Device.Service.Approve.{approve_read, approve_commit}

-- The store and the latest reading of the clock.
pub record System : Type 0 where
  pub clock : ℕ
  pub store : Store

module _ (p : Platform) (o : Options) where
  -- `waits` lets time pass; `sweeps` and `creates` are the writes of `start`, the record being one that its reads admitted in
  -- whatever stores they met; `approves` is the write of `approve`, of a result that its reads
  -- validated in an earlier store; `polls` and `consumes` are the writes of `poll` and `acknowledge`.
  pub data Reach : System → System → Type 0 where
    start_here : {u : System} → Reach u u
    waits : {u v w : System} → Reach u v → v.clock ≤ w.clock → w.store ≡ v.store → Reach u w
    sweeps :
        {u v w : System} (now : ℕ)
        → Reach u v
        → v.clock ≤ w.clock
        → now ≤ w.clock
        → w.store ≡ Store.wipe_expired_results now v.store
        → Reach u w
    creates :
        {u v w : System} (now : ℕ) (input : Option StartInput) (ip id : String) (draws : List Draw)
        (met : Store) (r : DeviceAuthorizationRecord)
        → Reach u v
        → v.clock ≤ w.clock
        → start_read p o now input ip id draws met ≡ some (ok r)
        → find_by_id r.id v.store ≡ none
        → w.store ≡ Store.create r v.store
        → Reach u w
    approves :
        {u t v w : System} (now1 now2 now3 : ℕ) (id user_id : String) (value : Json)
        (a : RelayApproval) (response : Result DeviceAuthorizationError (Unit {0}))
        → Reach u t
        → approve_read p now1 now2 id value t.store ≡ ok a
        → Reach t v
        → v.clock ≤ w.clock
        → approve_commit now3 id user_id a v.store ≡ (w.store, response)
        → Reach u w
    polls :
        {u v w : System} (id : String) (next_poll_at : ℕ)
        → Reach u v
        → v.clock ≤ w.clock
        → w.store ≡ Store.update_poll id next_poll_at v.store
        → Reach u w
    consumes :
        {u v w : System} (id : String) (wall : ℕ)
        → Reach u v
        → v.clock ≤ w.clock
        → w.store ≡ (Store.consume_approved id wall v.store).0
        → Reach u w
