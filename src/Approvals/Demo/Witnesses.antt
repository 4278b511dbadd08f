-- ===== src/Approvals/Demo/Witnesses.antt =====
-- Tests, and the theorems at concrete inputs.
use openkey.Common.{ℕ, ◌≡◌, refl, true, false, none, some, [], arith}
use openkey.Common.Results.{ok, err, ◌>>=◌}
use openkey.Json.{str, get, keys, canonical}
use openkey.Text.{all_chars, split_from, includes}
use openkey.Native.SessionProof.{verify_session_proof_claims}
use openkey.Review.Multiset.{same_texts}
use openkey.Device.Start.{utf16_length}
use openkey.Device.Jwk.{
  is_text, text_of, strict_session_did, session_did_for_public_jwk, public_session_jwk,
}
use openkey.Text.{is_base64url_43}
use openkey.Device.Jwk.Base58.{base58btc}
use openkey.Approvals.Types.{
  ApprovalRequestRecord, ApprovalResultError, approval_error, denied_error, already_approved,
}
use openkey.Approvals.Store
use openkey.Approvals.Store.{find_by_id, ApprovedResult}
use openkey.Approvals.Store.Laws.{Evolves}
use openkey.Approvals.Service.{authenticate, expectation, fetch}
use openkey.Approvals.Service.Window.{
  WindowInput, assert_delegation_window, open_request, siwe_expiry,
}
use openkey.Approvals.Service.Approve.{approve, approve_read, approve_commit, owner_did_of}
use openkey.Approvals.Service.Approve.Laws.{IsApproval, approve_request_sound}
use openkey.Approvals.Service.Results.{deny, fetch_result, acknowledge_result, ResultBody}
use openkey.Approvals.System.{
  Reach, start_here, next, IsConsistent, registers, approves, denies, Reach-IsConsistent,
  Reach-Evolves,
}
use openkey.Approvals.System.Results.{deny_is_final, acknowledge_result_is_final}
use openkey.Approvals.System.Approved.{fetch_result-approve_commit, approve_commit_is_final}
use openkey.Approvals.Demo.{
  demo_platform, demo_options, demo_row, demo_table, demo_body, demo_delegation, demo_draw,
  demo_request, demo_result, approved_row, approved_table, acknowledged_table, denied_table,
}

registered : Reach [] demo_table
unfolding Store.register Store.find_by_id Store.upsert
registered = next start_here (registers "r1" "cid" "issuer" demo_request 601_000 1000 refl)

approve_run :
    approve demo_platform demo_options 2000 2000 2000 "r1" "alice" demo_body demo_delegation
      demo_draw demo_table
    ≡ (approved_table, ok tt)
unfolding approve text_of get ◌>>=◌ assert_delegation_window open_request Store.find_by_id is_text
    strict_session_did session_did_for_public_jwk public_session_jwk includes keys base58btc
    siwe_expiry is_base64url_43 owner_did_of approve_read approve_commit Store.approve
    Store.find_by_result_ref canonical
approve_run = refl

deny_run :
    deny 2000 "r1" (record { body_cid = "cid"; issuer = "issuer" }) demo_table
    ≡ (denied_table, ok tt)
unfolding deny Store.find_by_id Store.deny
deny_run = refl

deny_approved_run :
    deny 2000 "r1" (record { body_cid = "cid"; issuer = "issuer" }) approved_table
    ≡ (approved_table, err (approval_error already_approved 409))
unfolding deny Store.find_by_id Store.deny
deny_approved_run = refl

commit_run :
    approve_commit demo_platform demo_options 2000 "r1" demo_result demo_table
    ≡ (approved_table, ok tt)
unfolding approve_commit Store.approve Store.find_by_result_ref
commit_run = refl

acknowledge_run :
    acknowledge_result demo_platform demo_options 3000 3000 3000 "ref1"
      (record { request_id = "r1"; body_cid = "cid" })
      (some (str "acknowledgement1"))
      (some "h.a.s")
      approved_table
    ≡ (acknowledged_table, ok "acknowledgement1")
unfolding acknowledge_result text_of all_chars Store.find_by_result_ref Store.acknowledge ◌>>=◌
    authenticate expectation verify_session_proof_claims split_from same_texts keys get is_text
    utf16_length
acknowledge_run = refl

authentic_run :
    authenticate demo_platform demo_options 3000 approved_row fetch (some "h.f.s") "ref1" "" ≡ ok tt
unfolding authenticate expectation verify_session_proof_claims all_chars split_from same_texts keys
    get is_text text_of utf16_length
authentic_run = refl

denied_later : Reach denied_table denied_table
unfolding Store.register Store.find_by_id Store.upsert
denied_later = next start_here (registers "r1" "cid" "issuer" demo_request 601_000 5000 refl)

approved_later : Reach approved_table approved_table
unfolding Store.deny
approved_later = next start_here (denies "r1" 5000 refl)

acknowledged_later : Reach acknowledged_table acknowledged_table
unfolding Store.deny
acknowledged_later = next start_here (denies "r1" 5000 refl)

approved_before : Reach [] approved_table
unfolding Store.approve Store.find_by_result_ref
approved_before = next registered (approves "r1" demo_result 2000 true refl)

approve_request_sound_example :
    (i : ApprovedResult) × IsApproval demo_platform demo_options 2000 2000 "r1" "alice"
      demo_delegation demo_draw demo_table i
    × (Store.approve "r1" i 2000 demo_table ≡ some (approved_table, true))
approve_request_sound_example =
    approve_request_sound demo_platform demo_options 2000 2000 2000 "r1" "alice" demo_body
      demo_delegation demo_draw demo_table approved_table approve_run

Reach-IsConsistent_example : IsConsistent approved_table
Reach-IsConsistent_example = Reach-IsConsistent approved_table approved_before

found_run : find_by_id "r1" demo_table ≡ some demo_row
unfolding find_by_id
found_run = refl

approval_step : Reach demo_table approved_table
unfolding Store.approve Store.find_by_result_ref
approval_step = next start_here (approves "r1" demo_result 2000 true refl)

Reach-Evolves_example :
    (s : ApprovalRequestRecord) × (find_by_id "r1" approved_table ≡ some s) × Evolves demo_row s
Reach-Evolves_example =
    Reach-Evolves "r1" demo_table approved_table demo_row registered found_run approval_step

abbrev demo_input : WindowInput
demo_input = record {
  jwk = demo_body.jwk;
  host = demo_body.host;
  permissions = demo_body.permissions;
  expiry_ms = none;
  signed_siwe = some "siwe";
}

deny_is_final_example :
    (d : ℕ) × (r : ApprovalRequestRecord) × (find_by_id "r1" denied_table ≡ some r)
    × (r.denied_at ≡ some d)
    × (assert_delegation_window demo_platform 5000 (some (str "r1")) demo_input denied_table
        ≡ err (denied_error d))
    × (Store.approve "r1" demo_result 5000 denied_table ≡ some (denied_table, false))
deny_is_final_example =
    deny_is_final demo_platform 2000 5000 "r1" (record { body_cid = "cid"; issuer = "issuer" })
      demo_input demo_result demo_table denied_table denied_table registered deny_run denied_later

abbrev demo_result_body : ResultBody
demo_result_body = record { request_id = "r1"; body_cid = "cid" }

acknowledge_result_is_final_example :
    (e : ApprovalResultError) × (fetch_result demo_platform demo_options 4000 4000 "ref1"
        demo_result_body
        (some "h.f.s")
        acknowledged_table
      ≡ err e)
acknowledge_result_is_final_example =
    acknowledge_result_is_final demo_platform demo_options 3000 3000 3000 4000 4000 "ref1"
      "acknowledgement1" demo_result_body demo_result_body (some (str "acknowledgement1"))
      (some "h.a.s") (some "h.f.s") approved_table acknowledged_table acknowledged_table
      approved_before acknowledge_run acknowledged_later

found_by_ref_run : Store.find_by_result_ref "ref1" approved_table ≡ some approved_row
unfolding Store.find_by_result_ref
found_by_ref_run = refl

fetch_result-approve_commit_example :
    fetch_result demo_platform demo_options 3000 3000 "ref1" demo_result_body
      (some "h.f.s")
      approved_table
    ≡ ok (record {
      relay = "sealed";
      request_id = "r1";
      body_cid = "cid";
      result_ref = "ref1";
      expires_at = some 1_002_000;
    })
fetch_result-approve_commit_example =
    fetch_result-approve_commit demo_platform demo_options 2000 3000 3000 "r1" demo_result
      (some "h.f.s") demo_table approved_table approved_table approved_row registered commit_run
      approved_later found_by_ref_run refl authentic_run (omega arith)

approve_commit_is_final_example :
    (e : ApprovalResultError) × (deny 5000 "r1"
        (record { body_cid = "cid"; issuer = "issuer" })
        approved_table
      ≡ (approved_table, err e))
    × (Store.approve "r1" demo_result 5000 approved_table ≡ some (approved_table, false))
approve_commit_is_final_example =
    approve_commit_is_final demo_platform demo_options 2000 5000 "r1" demo_result demo_result
      (record { body_cid = "cid"; issuer = "issuer" }) demo_table approved_table approved_table
      registered commit_run approved_later
