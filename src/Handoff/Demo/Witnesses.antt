-- ===== src/Handoff/Demo/Witnesses.antt =====
-- Tests, and the theorems at concrete inputs.
use openkey.Common.{◌-◌, ◌≤◌, String, ◌≡◌, refl, true, false, none, some, [], count, ◌⊎◌}
use openkey.Common.Results.{ok, err, ◌>>=◌}
use openkey.Text.{is_base64url_43}
use openkey.Json.{get, canonical}
use openkey.Device.Jwk.{is_text}
use openkey.Device.Demo.{key_text}
use openkey.Handoff.Types.{
  PreparedHandoffRecord, PreparedHandoffError, handoff_error, handoff_consumed,
}
use openkey.Handoff.Store
use openkey.Handoff.Store.{
  Table, find_row, change_if, update, is_recent, create_limited, scan, set_bound, set_consumed,
}
use openkey.Handoff.Store.Follows.{IsTable}
use openkey.Handoff.Service.{is_opaque, digest_jwk, active, active_row, by_status, digest_of}
use openkey.Handoff.Service.Claim.{claim, grant_expiry}
use openkey.Handoff.Service.Claim.Laws.{IsClaimed, claim_sound, claim_limit}
use openkey.Handoff.Service.Context.{
  bind_context, assert_context, has_kind, authorization, text_or_empty,
}
use openkey.Handoff.Service.Context.Bound.{IsBound}
use openkey.Handoff.Service.Signing.{
  reserve_signing, complete_signing, cancel_claimed, cancel, check_signer,
}
use openkey.Handoff.System.{
  Reach, start_here, next, creates, binds, reserves, cancels, Reach-IsTable,
}
use openkey.Handoff.System.Signing.{IsReserved, reserve_signing_sound, reserve_signing_is_final}
use openkey.Handoff.System.Completed.{complete_signing-reserve_signing, complete_signing_only}
use openkey.Handoff.System.Binding.{assert_context-bind_context}
use openkey.Handoff.Demo.{
  platform, validated, claimed_row, claimed_table, bound_table, consumed_table, demo_claimed,
  binding,
}

abbrev alice : String
alice = "alice"

abbrev context : String
context = "context"

abbrev key : String
key = "k1"

claim_run : claim platform 2000 2000 validated "alice" [] [] ≡ (claimed_table, ok demo_claimed)
unfolding claim grant_expiry create_limited scan ◌>>=◌ digest_jwk canonical
claim_run = refl

-- The claim again, and of another account.
again_run :
    claim platform 3000 3000 validated "alice" claimed_table claimed_table
    ≡ (claimed_table, ok demo_claimed)
unfolding claim grant_expiry create_limited scan ◌>>=◌ digest_jwk canonical
again_run = refl

bind_run :
    bind_context platform 3000 3000 key_text "alice" binding claimed_table claimed_table
    ≡ (bound_table, ok tt)
unfolding bind_context is_opaque digest_jwk canonical active active_row by_status ◌>>=◌ digest_of
    Store.bind change_if find_row update get is_text is_base64url_43
bind_run = refl

reserve_run :
    reserve_signing platform 4000 4000 4000 key_text "alice" "context" "k1" authorization
      bound_table bound_table consumed_table
    ≡ (consumed_table, ok tt)
unfolding reserve_signing check_signer assert_context has_kind is_opaque digest_jwk canonical active
    active_row by_status ◌>>=◌ Store.reserve change_if find_row update get is_text is_base64url_43
reserve_run = refl

cancel_run :
    cancel platform 4000 4000 4000 key_text "secret" consumed_table consumed_table consumed_table
    ≡ (consumed_table, err (handoff_error handoff_consumed 409))
unfolding cancel ◌>>=◌ is_opaque active active_row by_status find_row is_base64url_43
cancel_run = refl

claimed : Reach [] claimed_table
unfolding create_limited scan
claimed = next start_here (creates claimed_row 0 5 (some claimed_row) refl refl refl refl)

bound : Reach claimed_table bound_table
unfolding Store.bind change_if find_row update
bound = next start_here (binds key_text "alice" "context" "k1" 3000 true refl)

-- Later attempts, which are refused.
bound_later : Reach bound_table bound_table
unfolding Store.cancel change_if find_row
bound_later = next start_here (cancels key_text 400_000 none false refl)

consumed_later : Reach consumed_table consumed_table
unfolding Store.reserve change_if find_row
consumed_later = next start_here (reserves key_text "alice" "context" "k1" 5000 false refl)

claim_sound_example :
    (r : PreparedHandoffRecord) × IsClaimed platform validated "alice" claimed_table demo_claimed r
claim_sound_example =
    claim_sound platform 2000 2000 validated "alice" [] [] claimed_table demo_claimed claim_run

claim_limit_example :
    ((claim platform 2000 2000 validated "alice" [] []).0 ≡ [])
    ⊎ (count
          (is_recent "alice" (2000 - 300_000))
          (claim platform 2000 2000 validated "alice" [] []).0
        ≤ 5)
claim_limit_example = claim_limit platform 2000 2000 validated "alice" [] []

assert_run :
    assert_context platform 4000 key_text "alice" "context" authorization bound_table
    ≡ ok (set_bound "context" "k1" claimed_row)
unfolding assert_context has_kind is_opaque active active_row by_status ◌>>=◌ find_row get is_text
    is_base64url_43
assert_run = refl

assert_context-bind_context_example :
    (alice ≡ alice)
    × (context ≡ platform.sha256_hex (text_or_empty binding.authorization_context_token))
    × IsBound platform key_text "alice" binding bound_table (set_bound "context" "k1" claimed_row)
assert_context-bind_context_example =
    assert_context-bind_context platform 3000 3000 4000 key_text "alice" "alice" "context" binding
      authorization claimed_table claimed_table bound_table bound_table
      (set_bound "context" "k1" claimed_row) bind_run start_here bound_later assert_run

reserve_signing_sound_example :
    (r : PreparedHandoffRecord) × IsReserved platform 4000 key_text "alice" "context" "k1"
      bound_table consumed_table r
    × (has_kind authorization r.request ≡ true)
reserve_signing_sound_example =
    reserve_signing_sound platform 4000 4000 4000 key_text "alice" "context" "k1" authorization
      bound_table bound_table consumed_table consumed_table reserve_run start_here

reserve_signing_is_final_example :
    ((e : PreparedHandoffError) × (reserve_signing platform 5000 5000 5000 key_text "alice"
          "context" "k1" authorization bound_table consumed_table consumed_table
        ≡ (consumed_table, err e)))
    × ((e : PreparedHandoffError) × (cancel_claimed platform 5000 5000 5000 key_text "alice"
            bound_table consumed_table consumed_table
          ≡ (consumed_table, err e)))
    × ((e : PreparedHandoffError) × (cancel platform 5000 5000 5000 key_text "secret" bound_table
            consumed_table consumed_table
          ≡ (consumed_table, err e)))
reserve_signing_is_final_example =
    reserve_signing_is_final platform 4000 4000 4000 5000 5000 5000 key_text "alice" "context" "k1"
      "alice" "context" "k1" "secret" authorization authorization bound_table bound_table
      consumed_table consumed_table bound_table consumed_table consumed_table reserve_run start_here
      consumed_later

complete_signing-reserve_signing_example :
    (r : PreparedHandoffRecord) × IsReserved platform 4000 key_text "alice" "context" "k1"
      bound_table consumed_table r
    × (complete_signing platform key_text "alice" "context" "k1" consumed_table
        ≡ ok (record { delivery_state = r.state; selected_key_id = "k1" }))
complete_signing-reserve_signing_example =
    complete_signing-reserve_signing platform 4000 4000 4000 key_text "alice" "context" "k1"
      authorization bound_table bound_table consumed_table consumed_table consumed_table reserve_run
      start_here consumed_later

complete_run :
    complete_signing platform key_text "alice" "context" "k1" consumed_table
    ≡ ok (record { delivery_state = "state"; selected_key_id = "k1" })
unfolding complete_signing is_opaque find_row is_base64url_43
complete_run = refl

complete_signing_only_example : (alice ≡ alice) × (context ≡ context) × (key ≡ key)
complete_signing_only_example =
    complete_signing_only platform 4000 4000 4000 key_text "alice" "context" "k1" authorization
      bound_table bound_table consumed_table consumed_table consumed_table reserve_run start_here
      consumed_later "alice" "context" "k1"
      (record { delivery_state = "state"; selected_key_id = "k1" }) complete_run

Reach-IsTable_example : IsTable claimed_table
Reach-IsTable_example = Reach-IsTable claimed_table claimed
