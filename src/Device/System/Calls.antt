-- ===== src/Device/System/Calls.antt =====
-- The methods of `DeviceAuthorizationService` as histories of the store.
use openkey.Common.{ℕ, ◌≤◌, ◌≡◌, String, Option, none, some, List}
use openkey.Common.Results.{Result}
use openkey.Json.{Json}
use openkey.Device.Types.{DeviceAuthorizationError}
use openkey.Device.Platform.{Platform}
use openkey.Device.Store
use openkey.Device.Store.{Store, find_by_id}
use openkey.Device.UserCode.{Draw}
use openkey.Device.Start.{StartInput}
use openkey.Device.Service.{Options, Credentials}
use openkey.Device.Service.Begin.{StartResponse, start}
use openkey.Device.Service.Approve.{approve}
use openkey.Device.Service.Poll.{PollResponse, poll, acknowledge}
use openkey.Device.System.{
  System, Reach, start_here, waits, sweeps, creates, approves, polls, consumes,
}

module _ (p : Platform) (o : Options) where
  -- One call of a method. The first system is the one that the sweep of a start meets: its count may
  -- have met any store, and other requests may run between its sweep and its write. It read the clock
  -- before, and the id that it drew is new. The other methods run with no request between.
  pub data Call : System → System → Type 0 where
    start_call :
        {u m v : System} (now : ℕ) (input : Option StartInput) (ip id : String) (draws : List Draw)
        (t swept : Store) (response : Result DeviceAuthorizationError StartResponse)
        → start p o now input ip id draws t u.store m.store ≡ some (swept, v.store, response)
        → now ≤ u.clock
        → Reach p o (record { clock = u.clock; store = swept }) m
        → m.clock ≤ v.clock
        → find_by_id id m.store ≡ none
        → Call u v
    approve_call :
        {u v : System} (now1 now2 now3 : ℕ) (id user_id : String) (value : Json)
        (response : Result DeviceAuthorizationError (Unit {0}))
        → approve p now1 now2 now3 id user_id value u.store ≡ (v.store, response)
        → u.clock ≤ v.clock
        → Call u v
    poll_call :
        {u v : System} (now1 now2 : ℕ) (input : Option Credentials)
        (response : Result DeviceAuthorizationError PollResponse)
        → poll p now1 now2 input u.store ≡ (v.store, response)
        → u.clock ≤ v.clock
        → Call u v
    acknowledge_call :
        {u v : System} (now wall : ℕ) (input : Option Credentials)
        (response : Result DeviceAuthorizationError (Unit {0}))
        → acknowledge p now wall input u.store ≡ (v.store, response)
        → u.clock ≤ v.clock
        → Call u v

  pub Reach-trans : {u v w : System} → Reach p o u v → Reach p o v w → Reach p o u w
  Reach-trans a start_here = a
  Reach-trans a (waits h l e) = waits (Reach-trans a h) l e
  Reach-trans a (sweeps now h l k e) = sweeps now (Reach-trans a h) l k e
  Reach-trans a (creates now input ip id draws met r h l e new made) =
      creates now input ip id draws met r (Reach-trans a h) l e new made
  Reach-trans a (approves now1 now2 now3 id user_id value i response first read later l e) =
      approves now1 now2 now3 id user_id value i response (Reach-trans a first) read later l e
  Reach-trans a (polls id t h l e) = polls id t (Reach-trans a h) l e
  Reach-trans a (consumes id wall h l e) = consumes id wall (Reach-trans a h) l e
