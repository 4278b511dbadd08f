-- ===== src/Review/Demo.antt =====
-- A review of two grants, tests, and the theorems at concrete inputs.
use Prim.Native.Nat.{Ordering}
use Prim.Native.String.{compare}
use openkey.Common.{String, ◌≡◌, refl, true, false, none, some, List, [], ◌∷◌}
use openkey.Text.{all_chars, includes}
use openkey.Json.{Json, str, canonical}
use openkey.Review.Model.{
  CapabilityAction, CapabilityGrant, CapabilityReviewModel, own_app_data, standard,
  tinycloud_siwe_recap,
}
use openkey.Review.Model.Trust.{unsigned}
use openkey.Review.Model.Requester.{not_available, no_source, managed}
use openkey.Review.Ids.{permission_id, action_id, parse_permission_id, parse_action_id}
use openkey.Review.Ids.Laws.{parse-ids}
use openkey.Review.Multiset.{JsonText, canonical_multiset_equal}
use openkey.Review.Restrict.{restrict_model, restrict_grants, restrict_actions, default_selection}
use openkey.Review.Restrict.Laws.{restrict_model-default_selection}
use openkey.Review.Restrict.Chosen.{IsRestricted, restrict_model-IsRestriction}
use openkey.Review.Subset.{
  assert_baseline_subset, added_action, removed_required, immutable_violations, added_violations,
  required_violations, last_with_key, still_present,
}
use openkey.Review.Subset.Laws.{IsAccepted, assert_baseline_subset_sound}
use openkey.Review.Subset.Restricted.{assert_baseline_subset-restrict_model}

demo_stringify : Json → String
demo_stringify (str s) = s
demo_stringify _ = "?"

abbrev demo_text : JsonText
demo_text = record {
  stringify = demo_stringify;
  code_unit_le = λ a b. elim (compare a b) [ Ordering.gt ↦ false | _ ↦ true ];
}

abbrev action : String → String → CapabilityAction
action id ability = record {
  id = id;
  ability = ability;
  verb = "verb";
  required = false;
  selected = true;
  editable = true;
  caveats = str "once" ∷ [];
}

abbrev needed : String → String → CapabilityAction
needed id ability = let a = action id ability in record a { required = true; editable = false }

abbrev grant : String → List CapabilityAction → CapabilityGrant
grant id actions = record {
  id = id;
  family = own_app_data;
  severity = standard;
  service = "tinycloud.kv";
  space = "default";
  path = "app/";
  owner = none;
  owned_by_self = none;
  display_label = "App data";
  metadata_label = none;
  app_scoped_secret = none;
  app_scope_near_miss = none;
  resource_service = none;
  service_mismatch = none;
  actions = actions;
}

abbrev model_of : List CapabilityGrant → CapabilityReviewModel
model_of grants = record {
  version = 1;
  protocol = tinycloud_siwe_recap;
  raw_message = "message";
  requester = record {
    display_name = "app.example";
    verified_origin = some "https://app.example";
    app_id = none;
    manifest_name = none;
    manifest_name_provenance = not_available;
    manifest_id = none;
    manifest_id_provenance = not_available;
    manifest_digest = none;
    domain_warning = false;
    origin_warning = false;
  };
  reason = record { text = ""; source = no_source };
  signer = record { label = "key"; address = "0x1"; chain_id = 1; provenance = managed };
  expiry = none;
  immutable = some (record {
    address = "0x1";
    chain_id = 1;
    domain = "openkey.so";
    issued_at = "t";
    expiration_time = "u";
    space_id = "default";
    jwk = str "key";
    nonce = "n";
  });
  metadata_trust = record { status = unsigned; reason = "" };
  permissions = grants;
  parse_warnings = [];
}

abbrev demo_grants : List CapabilityGrant
demo_grants =
    grant "p1" (needed "a1" "tinycloud.kv/get" ∷ action "a2" "tinycloud.kv/put" ∷ [])
    ∷ grant "p2" (action "a3" "tinycloud.kv/get" ∷ [])
    ∷ []

abbrev demo_model : CapabilityReviewModel
demo_model = model_of demo_grants

-- The owner keeps nothing but what is required.
abbrev narrowed : CapabilityReviewModel
narrowed = model_of (grant "p1" (needed "a1" "tinycloud.kv/get" ∷ []) ∷ [])

restrict_run : restrict_model [] demo_model ≡ narrowed
unfolding restrict_model restrict_grants restrict_actions includes
restrict_run = refl

-- A candidate that adds an action and drops a required one.
abbrev forged : CapabilityReviewModel
forged = model_of (grant "p1" (action "a4" "tinycloud.kv/del" ∷ []) ∷ [])

forged_run :
    assert_baseline_subset demo_text demo_model forged
    ≡ record { ok = false; violations = added_action ∷ removed_required ∷ [] }
unfolding assert_baseline_subset immutable_violations added_violations required_violations
    last_with_key still_present
forged_run = refl

accepted_run : (assert_baseline_subset demo_text demo_model narrowed).ok ≡ true
unfolding assert_baseline_subset immutable_violations added_violations required_violations
    last_with_key still_present canonical_multiset_equal demo_stringify canonical
accepted_run = refl

assert_baseline_subset_sound_example : IsAccepted true demo_text demo_model narrowed
assert_baseline_subset_sound_example =
    assert_baseline_subset_sound demo_text demo_model narrowed accepted_run

assert_baseline_subset-restrict_model_example :
    assert_baseline_subset demo_text demo_model (restrict_model ("a3" ∷ []) demo_model)
    ≡ record { ok = true; violations = [] }
assert_baseline_subset-restrict_model_example =
    assert_baseline_subset-restrict_model demo_text ("a3" ∷ []) demo_model
      (((refl, tt), (tt, tt)), (((refl, tt), (tt, tt)), ((tt, tt), tt)))

restrict_model-IsRestriction_example :
    IsRestricted ("a3" ∷ []) demo_model (restrict_model ("a3" ∷ []) demo_model)
restrict_model-IsRestriction_example = restrict_model-IsRestriction ("a3" ∷ []) demo_model

restrict_model-default_selection_example :
    restrict_model (default_selection demo_model) demo_model ≡ demo_model
restrict_model-default_selection_example =
    restrict_model-default_selection demo_model
      ((refl, (refl, (refl, tt))), ((refl, (refl, tt)), tt))

parse-ids_example :
    (parse_permission_id (permission_id "tinycloud.kv" "default" "app/")
      ≡ some (record { service = "tinycloud.kv"; space = "default"; path = "app/" }))
    × (parse_action_id (action_id "tinycloud.kv" "default" "app/" "tinycloud.kv/get")
        ≡ some (record {
          service = "tinycloud.kv";
          space = "default";
          path = "app/";
          action = "tinycloud.kv/get";
        }))
unfolding all_chars
parse-ids_example = parse-ids "tinycloud.kv" "default" "app/" "tinycloud.kv/get" refl refl refl refl
