-- ===== src/Device/Demo/Witnesses.antt =====
-- The theorems at concrete inputs.
use openkey.Device.Scope.Paths.{path_allowed, is_delegated_path, has_dot_segment, has_denied_root}
use openkey.Device.Jwk.Base58.{base58btc}
use openkey.Text.{all_chars, includes, is_base64url_43}
use openkey.Device.Scope.Space.{space_identity}
use openkey.Json.{get, items, keys}
use openkey.Common.{◌≡◌, refl, some, [], ◌∷◌}
use openkey.Common.Results.{ok, err, ◌>>=◌, ◌>>◌}
use openkey.Device.Types.{DeviceAuthorizationRecord}
use openkey.Device.Store
use openkey.Device.Store.{Store}
use openkey.Device.Service.Begin.{start, start_read}
use openkey.Device.Relay.{validate_relay_approval}
use openkey.Device.Service.Approve.{approve}
use openkey.Device.Start.{
  check_start, canonical_origin, request_reason, requested_ttl_seconds,
  requested_suggested_ttl_seconds,
}
use openkey.Device.Jwk.{
  public_session_jwk, public_relay_jwk, session_did_for_public_jwk, is_text, text_of,
}
use openkey.Device.Scope.{device_request_permissions, abilities}
use openkey.Device.Scope.Approved.{
  permission_key, requested_by_resource, approved_permission_subset,
}
use openkey.Device.UserCode.{fresh_user_code, random_user_code, display_user_code}
use openkey.Device.Service.Begin.{start_response, new_record, ip_hash}
use openkey.Common.{arith, ◌<◌, All}
use openkey.Device.Types.{device_error, slow_down, invalid_result}
use openkey.Device.Store.{find_by_id}
use openkey.Device.Service.{expired}
use openkey.Device.Service.Window.{DeviceView, lookup}
use openkey.Device.Service.Approve.{approve_read, approve_commit}
use openkey.Device.Service.Approve.Laws.{IsWritten, approve_sound, approve_commit_once}
use openkey.Device.Service.Begin.Limit.{IsLimited, start-IsLimited}
use openkey.Device.Service.Poll.{poll, acknowledge, binding_of}
use openkey.Device.Service.Poll.Laws.{IsAnswered, poll-IsAnswered, poll_too_soon, poll_repeats}
use openkey.Device.Service.Poll.Acknowledged.{IsSpent, acknowledge-IsSpent, acknowledge_twice}
use openkey.Device.Relay.{RelayApproval}
use openkey.Device.Relay.Laws.{IsBounded, validate_relay_approval-IsBounded}
use openkey.Device.Scope.Approved.Laws.{IsSubset, KeepsCapabilities}
use openkey.Device.Scope.Approved.Sound.{IsKeyed, HasActions, approved_permission_subset_sound}
use openkey.Device.Flow.{lookup-start}
use openkey.Device.UserCode.{normalize_user_code}
use openkey.Device.UserCode.Laws.{normalize-display_user_code}
use openkey.Device.Jwk.Base58.Value.{base58btc_value, text_value, bytes_value}
use openkey.Device.System.{System, Reach, start_here, sweeps, creates, approves, consumes}
use openkey.Device.System.Invariant.{IsWell}
use openkey.Device.System.Histories.{Reach-IsWell}
use openkey.Device.System.Results.{acknowledge_ends_polls, Reach-keeps_result, Reach-shows_within}
use openkey.Device.Demo.{
  pending_store, approved_record, approved_store, polled_store, spent_store, spent_record,
  demo_ready, demo_credentials, approved_json, demo_checked,
}
use openkey.Device.Demo.{
  demo, demo_options, demo_input, demo_draws, demo_record, demo_started, demo_approval,
  approval_json,
}

started :
    start demo demo_options 1000 (some demo_input) "ip" "t1" demo_draws [] [] []
    ≡ some ([], demo_record ∷ [], ok demo_started)
unfolding start check_start start_response new_record ip_hash public_session_jwk public_relay_jwk
    session_did_for_public_jwk device_request_permissions request_reason requested_ttl_seconds
    requested_suggested_ttl_seconds canonical_origin fresh_user_code random_user_code
    display_user_code ◌>>=◌ ◌>>◌ is_base64url_43 text_of get base58btc keys includes abilities
    space_identity path_allowed is_delegated_path has_dot_segment has_denied_root
    Store.count_recent_by_ip_hash Store.find_by_user_code Store.create Store.wipe_expired_results
started = refl

start_read_run :
    start_read demo demo_options 1000 (some demo_input) "ip" "t1" demo_draws []
    ≡ some (ok demo_record)
unfolding start_read check_start new_record ip_hash public_session_jwk public_relay_jwk
    session_did_for_public_jwk device_request_permissions request_reason requested_ttl_seconds
    requested_suggested_ttl_seconds canonical_origin fresh_user_code random_user_code ◌>>=◌ ◌>>◌
    is_base64url_43 text_of get base58btc keys includes abilities space_identity path_allowed
    is_delegated_path has_dot_segment has_denied_root Store.count_recent_by_ip_hash
    Store.find_by_user_code
start_read_run = refl

uninterrupted_run :
    start demo demo_options 1000
      (some demo_input)
      "ip"
      "t1"
      demo_draws
      []
      []
      (Store.wipe_expired_results 1000 [])
    ≡ some ([], demo_record ∷ [], ok demo_started)
unfolding Store.wipe_expired_results
uninterrupted_run = started

validated : validate_relay_approval demo demo_record approval_json 2000 ≡ ok demo_approval
unfolding validate_relay_approval approved_permission_subset public_relay_jwk ◌>>=◌ ◌>>◌ get is_text
    space_identity items includes text_of is_base64url_43
validated = refl

subset_run :
    approved_permission_subset demo demo_checked.permissions (some approved_json)
    ≡ ok demo_approval.approved_permissions
unfolding approved_permission_subset ◌>>=◌ ◌>>◌ get space_identity items includes
subset_run = refl

approved_run :
    approve demo 2000 2000 2000 "t1" "alice" approval_json pending_store ≡ (approved_store, ok tt)
unfolding approve ◌>>=◌ find_by_id validate_relay_approval get is_text approved_permission_subset
    space_identity items includes text_of public_relay_jwk is_base64url_43 Store.approve
    Store.modify
approved_run = refl

committed_run :
    approve_commit 2000 "t1" "alice" demo_approval pending_store ≡ (approved_store, ok tt)
unfolding approve_commit Store.approve find_by_id Store.modify
committed_run = refl

read_run : approve_read demo 2000 2000 "t1" approval_json pending_store ≡ ok demo_approval
unfolding approve_read ◌>>=◌ find_by_id validate_relay_approval get is_text
    approved_permission_subset space_identity items includes text_of public_relay_jwk
    is_base64url_43
read_run = refl

refused_run :
    approve demo 3000 3000 3000 "t1" "bob" approval_json approved_store
    ≡ (approved_store, err expired)
unfolding approve ◌>>=◌ find_by_id
refused_run = refl

polled_run :
    poll demo 4000 4000 (some demo_credentials) approved_store ≡ (polled_store, ok demo_ready)
unfolding poll find_by_id Store.update_poll Store.modify
polled_run = refl

acknowledged_run :
    acknowledge demo 4000 4000 (some demo_credentials) approved_store ≡ (spent_store, ok tt)
unfolding acknowledge find_by_id Store.consume_approved Store.modify
acknowledged_run = refl

code_found :
    Store.find_by_user_code (normalize_user_code demo "2345-6789") pending_store ≡ some demo_record
unfolding Store.find_by_user_code normalize_user_code
code_found = refl

approved_found : find_by_id "t1" approved_store ≡ some approved_record
unfolding find_by_id
approved_found = refl

spent_found : find_by_id "t1" spent_store ≡ some spent_record
unfolding find_by_id
spent_found = refl

abbrev empty_system : System
empty_system = record { clock = 500; store = [] }

abbrev approved_system : System
approved_system = record { clock = 2000; store = approved_store }

abbrev started_system : System
started_system = record { clock = 1000; store = pending_store }

abbrev spent_system : System
spent_system = record { clock = 4000; store = spent_store }

start_history : Reach demo demo_options empty_system started_system
start_history =
    creates {v = empty_system} {w = started_system} 1000 (some demo_input) "ip" "t1" demo_draws []
      demo_record start_here (omega arith) start_read_run (unfold find_by_id in refl)
      (unfold Store.create in refl)

approve_history :
    (u : System)
    → Reach demo demo_options u started_system
    → Reach demo demo_options u approved_system
approve_history u first =
    approves {t = started_system} {v = started_system} 2000 2000 2000 "t1" "alice" approval_json
      demo_approval (ok tt) first read_run start_here (omega arith) committed_run

history : Reach demo demo_options empty_system approved_system
history = approve_history empty_system start_history

approve_sound_example :
    (a : RelayApproval) × (w : IsWritten 2000 "t1" "alice" a pending_store approved_store)
    × IsBounded w.before 2000 a
    × (2000 < w.before.transaction_expires_at)
approve_sound_example =
    approve_sound demo 2000 2000 2000 "t1" "alice" approval_json pending_store approved_store
      approved_run

approve_commit_once_example :
    approve_commit 2500 "t1" "bob" demo_approval approved_store ≡ (approved_store, err expired)
approve_commit_once_example =
    approve_commit_once 2000 2500 "t1" "alice" "bob" demo_approval demo_approval pending_store
      approved_store committed_run

poll-IsAnswered_example :
    IsAnswered demo 4000 4000 demo_credentials approved_store polled_store demo_ready
poll-IsAnswered_example =
    poll-IsAnswered demo 4000 4000 demo_credentials approved_store polled_store demo_ready
      polled_run

poll_too_soon_example :
    poll demo 5000 5000 (some demo_credentials) polled_store
    ≡ (polled_store, err (device_error slow_down 429))
poll_too_soon_example =
    poll_too_soon demo 4000 4000 5000 5000 demo_credentials approved_store polled_store demo_ready
      approved_record approved_found polled_run (omega arith) (omega arith)

poll_repeats_example : (poll demo 6000 6000 (some demo_credentials) polled_store).1 ≡ ok demo_ready
poll_repeats_example =
    poll_repeats demo 4000 4000 6000 6000 demo_credentials approved_store polled_store demo_ready
      approved_record approved_found polled_run (omega arith) (omega arith)

acknowledge-IsSpent_example : IsSpent demo 4000 demo_credentials spent_store
acknowledge-IsSpent_example =
    acknowledge-IsSpent demo 4000 4000 demo_credentials approved_store spent_store acknowledged_run

acknowledge_twice_example :
    acknowledge demo 5000 5000 (some demo_credentials) spent_store ≡ (spent_store, ok tt)
acknowledge_twice_example =
    acknowledge_twice demo 4000 4000 5000 5000 demo_credentials approved_store spent_store
      spent_record acknowledged_run spent_found (omega arith)

acknowledge_ends_polls_example :
    ¬ (poll demo 8000 8000 (some demo_credentials) spent_store ≡ (spent_store, ok demo_ready))
acknowledge_ends_polls_example =
    acknowledge_ends_polls demo demo_options 4000 4000 8000 8000 demo_credentials demo_credentials
      approved_store spent_store spent_system spent_system demo_ready acknowledged_run
      (consumes {v = spent_system} {w = spent_system} "t1" 5000 start_here (omega arith)
        (unfold Store.consume_approved in unfold find_by_id in refl))
      refl

demo-IsKeyed : IsKeyed demo demo_checked.permissions demo_checked.permissions
unfolding requested_by_resource permission_key space_identity
demo-IsKeyed = (refl, (refl, tt))

approved_permission_subset_sound_example :
    IsSubset demo_approval.approved_permissions demo_checked.permissions
    × All HasActions demo_approval.approved_permissions
    × KeepsCapabilities demo_approval.approved_permissions demo_checked.permissions
approved_permission_subset_sound_example =
    approved_permission_subset_sound demo demo_checked.permissions (some approved_json)
      demo_approval.approved_permissions demo-IsKeyed subset_run

validate_relay_approval-IsBounded_example : IsBounded demo_record 2000 demo_approval
validate_relay_approval-IsBounded_example =
    validate_relay_approval-IsBounded demo demo_record 2000 approval_json demo_approval validated

normalize-display_user_code_example :
    normalize_user_code demo (display_user_code demo "23456789") ≡ "23456789"
unfolding all_chars
normalize-display_user_code_example = normalize-display_user_code demo (λ s h. refl) "23456789" refl

base58btc_value_example :
    text_value 0 (base58btc (0xed ∷ 1 ∷ 7 ∷ [])) ≡ bytes_value 0 (0xed ∷ 1 ∷ 7 ∷ [])
base58btc_value_example = base58btc_value (0xed ∷ 1 ∷ 7 ∷ [])

lookup-start_example :
    (v : DeviceView) × (lookup demo 2000 "2345-6789" pending_store ≡ some v)
    × (v.id ≡ "t1")
    × (v.session_did ≡ demo_input.session_did)
    × (v.transaction_expires_at ≡ 601_000)
lookup-start_example =
    lookup-start demo (λ s h. refl) demo_options 1000 2000 demo_input "ip" "t1" demo_draws [] [] []
      [] demo_started demo_record started_system started_system started
      (unfold Store.find_by_user_code in refl)
      (sweeps {v = started_system} {w = started_system} 1000 start_here (omega arith) (omega arith)
        (unfold Store.wipe_expired_results in refl))
      code_found refl (omega arith)

abbrev first_system : System
first_system = record { clock = 1000; store = [] }

Reach-IsWell_example : All (IsWell 2000) approved_store
Reach-IsWell_example = Reach-IsWell demo demo_options empty_system approved_system refl history

empty-IsLimited : IsLimited []
empty-IsLimited hash from = omega arith

start-IsLimited_example : IsLimited [] × IsLimited pending_store
start-IsLimited_example =
    start-IsLimited demo demo_options 1000 (some demo_input) "ip" "t1" demo_draws [] []
      pending_store (ok demo_started) empty-IsLimited uninterrupted_run

Reach-keeps_result_example : ¬ (
    poll demo 4000 4000 (some demo_credentials) approved_store
    ≡ (polled_store, err (device_error invalid_result 500)))
Reach-keeps_result_example =
    Reach-keeps_result demo demo_options empty_system approved_system 4000 4000 demo_credentials
      polled_store refl history (omega arith)

Reach-shows_within_example :
    (r : DeviceAuthorizationRecord) × (find_by_id "t1" approved_store ≡ some r)
    × (r.encrypted_result ≡ some demo_approval.relay)
    × (binding_of approved_record ≡ binding_of r)
    × IsSubset demo_approval.approved_permissions r.permissions
Reach-shows_within_example =
    Reach-shows_within demo demo_options empty_system approved_system 4000 4000 demo_credentials
      polled_store demo_approval.relay (binding_of approved_record) refl history polled_run
