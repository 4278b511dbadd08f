-- ===== src/Device/Service/Poll.antt =====
-- `poll` and `acknowledge` of `DeviceAuthorizationService`.
pub mod Laws
pub mod Acknowledged
use openkey.Common.{ℕ, ◌+◌, ◌*◌, String, not, Option, none, some, List, ltb, if◌then◌else◌}
use openkey.Common.Results.{Result, ok, err}
use openkey.Device.Types.{
  DevicePermission, DeviceRelayEnvelope, DeviceAuthorizationRecord, Status, pending, approved,
  consumed, DeviceAuthorizationError, device_error, invalid_request, invalid_result, invalid_grant,
  slow_down,
}
use openkey.Device.Platform.{Platform}
use openkey.Device.Store
use openkey.Device.Store.{Store, is_pending, is_approved}
use openkey.Device.Service.{Outcome, live, credentials_match, Credentials}

pub record Binding : Type 0 where
  pub transaction_id : String
  pub session_did : String
  pub node_origin : String
  pub share_origin : String
  pub permissions : List DevicePermission
  pub delegation_expires_at : ℕ

pub data PollResponse : Type 0 where
  still_pending : ℕ → PollResponse
  is_ready : DeviceRelayEnvelope → Binding → PollResponse

abbrev or_requested : Option (List DevicePermission) → List DevicePermission → List DevicePermission
or_requested none requested = requested
or_requested (some qs) requested = qs

abbrev pub binding_of : DeviceAuthorizationRecord → Binding
binding_of r = record {
  transaction_id = r.id;
  session_did = r.session_did;
  node_origin = r.node_origin;
  share_origin = r.share_origin;
  permissions = or_requested r.approved_permissions r.permissions;
  delegation_expires_at = r.delegation_expires_at;
}

ready : Option DeviceRelayEnvelope → Binding → Result DeviceAuthorizationError PollResponse
ready none b = err (device_error invalid_result 500)
ready (some relay) b = ok (is_ready relay b)

-- What `poll` answers once the poll is recorded.
unfoldable pub poll_response :
    Status → DeviceAuthorizationRecord → Result DeviceAuthorizationError PollResponse
unfolding ready
poll_response pending r = ok (still_pending r.poll_interval_seconds)
poll_response approved r = ready r.encrypted_result (binding_of r)
poll_response _ r = err (device_error invalid_grant 409)

module _ (p : Platform) where
  unfoldable pub poll_live :
      ℕ → Credentials → DeviceAuthorizationRecord → Store → Outcome PollResponse
  unfolding credentials_match poll_response
  poll_live now input r s =
      if not (credentials_match p r input.device_secret input.code_verifier)
      then (s, err (device_error invalid_grant 401))
      else if ltb now r.next_poll_at
      then (s, err (device_error slow_down 429))
      else (
        Store.update_poll r.id (now + r.poll_interval_seconds * 1000) s,
        poll_response r.status r,
      )

  -- `none` is a request that is no object.
  unfoldable pub poll : ℕ → ℕ → Option Credentials → Store → Outcome PollResponse
  unfolding poll_live
  poll now1 now2 none s = (s, err (device_error invalid_request 400))
  poll now1 now2 (some input) s = elim (live now1 (Store.find_by_id input.transaction_id s)) [
    | err e ↦ (s, err e)
    | ok r ↦ poll_live now2 input r s
  ]

  unfoldable pub consume : String → ℕ → Store → Outcome (Unit {0})
  consume id now s =
      let (s', taken) = Store.consume_approved id now s in
      (s', elim taken [ none ↦ err (device_error invalid_grant 409) | some _ ↦ ok tt ])

  unfoldable pub acknowledge_status : Status → String → ℕ → Store → Outcome (Unit {0})
  unfolding consume
  acknowledge_status consumed id now s = (s, ok tt)
  acknowledge_status approved id now s = consume id now s
  acknowledge_status _ id now s = (s, err (device_error invalid_grant 409))

  -- `none` is a request without the two texts. `wall` is the store's own reading of the clock.
  unfoldable pub acknowledge : ℕ → ℕ → Option Credentials → Store → Outcome (Unit {0})
  unfolding acknowledge_status credentials_match
  acknowledge now wall none s = (s, err (device_error invalid_request 400))
  acknowledge now wall (some input) s = elim (live now (Store.find_by_id input.transaction_id s)) [
    | err e ↦ (s, err e)
    | ok r ↦
        if credentials_match p r input.device_secret input.code_verifier
        then acknowledge_status r.status r.id wall s
        else (s, err (device_error invalid_grant 401))
  ]
