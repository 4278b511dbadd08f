-- ===== src/Handoff/Demo.antt =====
-- Concrete inputs: a handoff that is claimed, bound, reserved and completed.
pub mod Witnesses
use openkey.Common.{
  ℕ, ◌-◌, ◌≤◌, String, ◌≡◌, refl, true, false, Option, none, some, List, [], ◌∷◌, ◌==◌,
  if◌then◌else◌, count, ◌⊎◌, nat_eq, length,
}
use openkey.Common.Results.{Result, ok, err, ◌>>=◌}
use openkey.Text.{is_base64url_43}
use openkey.Json.{Json, Fields, str, obj, end, field, get, canonical}
use openkey.Device.Jwk.{is_text}
use openkey.Device.Platform.{Platform}
use openkey.Device.Demo.{demo, key_text}
use openkey.Handoff.Types.{
  PreparedHandoffRecord, PreparedHandoffError, handoff_error, HandoffPlatform, pending, consumed,
  handoff_consumed, rate_limited,
}
use openkey.Handoff.Store
use openkey.Handoff.Store.{
  Table, find_row, change_if, update, is_recent, create_limited, scan, set_bound, set_consumed,
}
use openkey.Handoff.Store.Follows.{IsTable}
use openkey.Handoff.Service.{is_opaque, digest_jwk, active, active_row, by_status, digest_of}
use openkey.Handoff.Service.Claim.{Validated, Claimed, claim, grant_expiry}
use openkey.Handoff.Service.Claim.Laws.{IsClaimed, claim_sound, claim_limit}
use openkey.Handoff.Service.Context.{
  Binding, bind_context, assert_context, has_kind, authorization, text_or_empty,
}
use openkey.Handoff.Service.Context.Bound.{IsBound}
use openkey.Handoff.Service.Signing.{
  reserve_signing, complete_signing, cancel_claimed, cancel, check_signer, Signed,
}
use openkey.Handoff.System.{Reach, start_here, next, creates, binds, reserves, Reach-IsTable}
use openkey.Handoff.System.Signing.{IsReserved, reserve_signing_sound, reserve_signing_is_final}
use openkey.Handoff.System.Completed.{complete_signing-reserve_signing, complete_signing_only}
use openkey.Handoff.System.Binding.{assert_context-bind_context}

abbrev pub text_of_json : Json → String
text_of_json (str s) = s
text_of_json _ = "?"

abbrev pub base : Platform
base = record demo {
  stringify = text_of_json;
  parse_date = λ s. if s == "issued" then some 1000 else some 900_000;
}

abbrev pub platform : HandoffPlatform
platform = record { base = base; sha256_hex = λ s. s }

abbrev pub jwk : Json
jwk = obj (field "x" (str key_text) end)

abbrev pub request : Fields
request =
    field "siwe" (str "siwe") (field "jwk" jwk (field "host" (str "https://node.example") end))

abbrev pub validated : Validated
validated = record {
  request = request;
  delivery = record {
    handoff_id = key_text;
    callback = none;
    state = "state";
    cancel_secret = "secret";
  };
  issued_at = some "issued";
  expiration_time = "expires";
  nonce = "nonce";
}

-- Claimed at 2000, for five minutes.
abbrev pub claimed_row : PreparedHandoffRecord
claimed_row = record {
  ticket_hash = key_text;
  cancel_secret_hash = "secret";
  nonce_hash = "prepared-handoff-nonce\0nonce";
  request = request;
  callback = none;
  state = "state";
  expires_at = 302_000;
  requested_at = 2000;
  status = pending;
  owner_id = "alice";
  context_token_hash = none;
  selected_key_id = none;
}

abbrev pub claimed_table : Table
claimed_table = claimed_row ∷ []

abbrev pub bound_table : Table
bound_table = set_bound "context" "k1" claimed_row ∷ []

abbrev pub consumed_table : Table
consumed_table = set_consumed (set_bound "context" "k1" claimed_row) ∷ []

abbrev pub demo_claimed : Claimed
demo_claimed = record { ticket = key_text; expires_at = 302_000 }

abbrev pub binding : Binding
binding = record {
  key_id = some (str "k1");
  siwe = "siwe";
  jwk = some jwk;
  host = "https://node.example";
  authorization_context_token = some (str "context");
}
