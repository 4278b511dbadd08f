-- ===== src/Device/Demo.antt =====
-- Concrete inputs for the tests and the witnesses: a small platform, a start and an approval.
pub mod Witnesses
use openkey.Common.{
  ℕ, zero, suc, String, Bool, true, false, Option, none, some, List, [], ◌∷◌, ◌==◌, if◌then◌else◌,
  nat_eq, length, ◌≡◌, refl, eq_iff,
}
use openkey.Common.Results.{Result, ok, err}
use openkey.Json.{Json, Fields, Items, str, obj, arr, num, whole, field, end, item, nil}
use openkey.Device.Types.{
  DeviceAuthorizationRecord, DevicePermission, DeviceRelayEnvelope, DeviceAuthorizationError,
  pending,
}
use openkey.Device.Platform.{Platform, Url, SiweMessage}
use openkey.Device.Store
use openkey.Device.Store.{Store}
use openkey.Device.Jwk
use openkey.Device.Start
use openkey.Device.Start.{StartInput, Checked}
use openkey.Device.UserCode.{Draw}
use openkey.Device.Relay.{RelayApproval, validate_relay_approval}
use openkey.Device.Service.{Options, Credentials}
use openkey.Device.Service.Approve.{approve_input}
use openkey.Device.Service.Poll.{PollResponse, is_ready, binding_of}
use openkey.Device.Service.Begin
use openkey.Device.Service.Begin.{StartResponse, start, new_record, ip_hash}

abbrev pub zeros : ℕ → List ℕ
zeros zero = []
zeros (suc n) = 0 ∷ zeros n

-- Twelve and thirty-two zero bytes in base64url.
abbrev pub nonce_text : String
nonce_text = "AAAAAAAAAAAAAAAA"

abbrev pub key_text : String
key_text = "AAAAAAAAAAAAAAAAAAAAAAAAAAAAAAAAAAAAAAAAAAA"

abbrev pub demo_origin : String
demo_origin = "https://node.example"

abbrev pub demo : Platform
demo = record {
  sha256 = λ s. s;
  base64url_decode = λ s. if s == nonce_text then zeros 12 else zeros 32;
  base64url_encode = λ bytes. if nat_eq (length bytes) 12 then nonce_text else key_text;
  parse_url =
      λ s. some (record { origin = demo_origin; hostname = "node.example"; protocol = "https:" });
  parse_siwe = λ s. none;
  prepare_message = λ m. m.uri;
  parse_date = λ s. some 3_000_000;
  to_iso_string = λ t. "1970-01-01T00:50:00.000Z";
  to_upper_case = λ s. s;
  is_format_char = λ c. false;
  is_space_char = λ c. nat_eq c b' ';
  stringify = λ v. "";
  encode_uri_component = λ s. s;
  locale_le = λ a b. true;
  show = λ v. "";
}

abbrev pub demo_options : Options
demo_options = record {
  verification_origin = demo_origin;
  encryption_secret = "openkey-openkey-openkey-openkey-";
}

abbrev pub session_jwk : Json
session_jwk =
    obj (field "kty" (str "OKP") (field "crv" (str "Ed25519") (field "x" (str key_text) end)))

abbrev relay_jwk : Json
relay_jwk = obj (
    field "kty" (str "EC")
      (field "crv" (str "P-256") (field "x" (str key_text) (field "y" (str key_text) end))))

abbrev kv_entry : Json
kv_entry = obj (
    field "service" (str "tinycloud.kv") (
      field "space" (str "default") (
        field "path" (str "app/notes") (
          field "actions" (arr (item (str "tinycloud.kv/get") (item (str "tinycloud.kv/put") nil)))
            end))))

abbrev capabilities_entry : Json
capabilities_entry = obj (
    field "service" (str "tinycloud.capabilities") (
      field "space" (str "default") (
        field "path" (str "")
          (field "actions" (arr (item (str "tinycloud.capabilities/read") nil)) end))))

abbrev read_entry : Json
read_entry = obj (
    field "service" (str "tinycloud.kv") (
      field "space" (str "default") (
        field "path" (str "app/notes")
          (field "actions" (arr (item (str "tinycloud.kv/get") nil)) end))))

abbrev pub requested_json : Json
requested_json = arr (item kv_entry (item capabilities_entry nil))

abbrev pub approved_json : Json
approved_json = arr (item read_entry (item capabilities_entry nil))

abbrev pub session_did : String
session_did =
    "did:key:z6MkeTG3bFFSLYVU7VqhgZxqr6YzpaGrQtFMh1uvqGy1vDnP#z6MkeTG3bFFSLYVU7VqhgZxqr6YzpaGrQtFMh1uvqGy1vDnP"

abbrev pub demo_input : StartInput
demo_input = record {
  device_secret_hash = key_text;
  code_challenge = key_text;
  session_did = session_did;
  public_jwk = session_jwk;
  relay_public_jwk = relay_jwk;
  permissions = requested_json;
  reason = none;
  node_origin = some (str demo_origin);
  share_origin = some (str demo_origin);
  delegation_ttl_seconds = some (num (whole 3600));
  suggested_ttl_seconds = none;
}

abbrev pub demo_draws : List Draw
demo_draws = record { bytes = 0 ∷ 1 ∷ 2 ∷ 3 ∷ 4 ∷ 5 ∷ 6 ∷ 7 ∷ []; met = [] } ∷ []

abbrev pub demo_checked : Checked
demo_checked = record {
  public_jwk = session_jwk;
  relay_public_jwk = relay_jwk;
  permissions =
      record {
        service = "tinycloud.kv";
        space = "default";
        path = "app/notes";
        actions = "tinycloud.kv/get" ∷ "tinycloud.kv/put" ∷ [];
      }
      ∷ record {
        service = "tinycloud.capabilities";
        space = "default";
        path = "";
        actions = "tinycloud.capabilities/read" ∷ [];
      }
      ∷ [];
  reason = none;
  delegation_ttl_seconds = 3600;
  suggested_ttl_seconds = none;
  node_origin = demo_origin;
  share_origin = demo_origin;
}

abbrev pub demo_hash : String
demo_hash = "device-auth-ip\0openkey-openkey-openkey-openkey-\0ip"

-- What the start at 1000 stores under `t1`.
abbrev pub demo_record : DeviceAuthorizationRecord
demo_record = record {
  id = "t1";
  user_code = "23456789";
  device_secret_hash = key_text;
  code_challenge = key_text;
  session_did = session_did;
  public_jwk = session_jwk;
  relay_public_jwk = relay_jwk;
  permissions = demo_checked.permissions;
  approved_permissions = none;
  reason = none;
  node_origin = demo_origin;
  share_origin = demo_origin;
  delegation_expires_at = 4_201_000;
  delegation_ttl_seconds = 3600;
  suggested_ttl_seconds = none;
  transaction_expires_at = 601_000;
  requested_at = 1000;
  request_ip_hash = demo_hash;
  next_poll_at = 1000;
  poll_interval_seconds = 2;
  status = pending;
  approved_by_user_id = none;
  encrypted_result = none;
  consumed_at = none;
}

abbrev pub demo_started : StartResponse
demo_started = record {
  transaction_id = "t1";
  user_code = "2345-6789";
  verification_uri = "https://node.example/device";
  verification_uri_complete = "https://node.example/device?user_code=2345-6789";
  expires_in = 600;
  interval = 2;
}

abbrev pub approval_json : Json
approval_json = obj (
    field "relay"
      (obj (
        field "version" (num (whole 1)) (
          field "algorithm" (str "ECDH-P256-A256GCM") (
            field "ephemeralPublicJwk" relay_jwk
              (field "nonce" (str nonce_text) (field "ciphertext" (str key_text) end))))))
      (field "binding"
        (obj (
          field "transactionId" (str "t1") (
            field "sessionDid" (str session_did) (
              field "nodeOrigin" (str demo_origin) (
                field "shareOrigin" (str demo_origin) (
                  field "permissions" approved_json
                    (field "delegationExpiresAt" (str "1970-01-01T00:50:00.000Z") end)))))))
        end))

-- What that approval grants: reading only, until the stated time.
abbrev pub demo_approval : RelayApproval
demo_approval = record {
  relay = record { ephemeral_public_jwk = relay_jwk; nonce = nonce_text; ciphertext = key_text };
  delegation_expires_at = 3_000_000;
  approved_permissions =
      record {
        service = "tinycloud.kv";
        space = "default";
        path = "app/notes";
        actions = "tinycloud.kv/get" ∷ [];
      }
      ∷ record {
        service = "tinycloud.capabilities";
        space = "default";
        path = "";
        actions = "tinycloud.capabilities/read" ∷ [];
      }
      ∷ [];
}

abbrev pub demo_credentials : Credentials
demo_credentials = record {
  transaction_id = "t1";
  device_secret = key_text;
  code_verifier = key_text;
}

abbrev pub pending_store : Store
pending_store = demo_record ∷ []

-- The request after its approval at 2000, after the poll at 4000, and after its acknowledgement.
abbrev pub approved_record : DeviceAuthorizationRecord
approved_record = Store.set_approved (approve_input 2000 "alice" demo_approval) demo_record

abbrev pub approved_store : Store
approved_store = approved_record ∷ []

abbrev pub polled_store : Store
polled_store = record approved_record { next_poll_at = 6000 } ∷ []

abbrev pub spent_record : DeviceAuthorizationRecord
spent_record = Store.set_consumed 4000 approved_record

abbrev pub spent_store : Store
spent_store = spent_record ∷ []

abbrev pub demo_ready : PollResponse
demo_ready = is_ready demo_approval.relay (binding_of approved_record)
