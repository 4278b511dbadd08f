-- ===== src/Device/Scope.antt =====
-- The device-flow scope policy of apps/api/src/services/device-authorization.ts: validation of the
-- requested permissions (`deviceRequestPermissions`). Every refusal is `invalid_scope`.
pub mod Space
pub mod Paths
pub mod Approved
use Prim.Native.Char.{code}
use Prim.Native.String
use openkey.Common.{
  ℕ, suc, String, Bool, true, false, not, ◌&&◌, ◌||◌, Option, none, some, List, [], ◌∷◌, ◌++◌, ◌==◌,
  nat_eq, leb, ltb, if◌then◌else◌, any, all, find, is_some, length,
}
use openkey.Text.{
  ◌<>◌, size, all_chars, split, split_from, segments, ends_with, ascii_lower, includes, is_alnum,
  is_digit, is_upper, is_lower, of_char,
}
use openkey.Common.Results.{Result, ok, err, ◌>>=◌, ◌>>◌, reject_if}
use openkey.Json.{Json, str, arr, obj, Items, Fields, get, keys, items}
use openkey.Device.Types.{DevicePermission, DeviceAuthorizationError, device_error, invalid_scope}
use openkey.Device.Jwk.{is_text, text_of}
use Space.{space_identity, SpaceIdentity}
use Paths.{path_allowed, overlap}

abbrev pub scope_error : DeviceAuthorizationError
scope_error = device_error invalid_scope 400

abbrev pub capabilities_read : String
capabilities_read = "tinycloud.capabilities/read"

abbrev pub share_device_permissions : List DevicePermission
share_device_permissions =
    record {
      service = "tinycloud.capabilities";
      space = "applications";
      path = "";
      actions = capabilities_read ∷ [];
    }
    ∷ []

-- `DEVICE_FLOW_ABILITIES`
unfoldable pub abilities : String → Option (List String)
abilities service =
    if service == "tinycloud.kv"
    then some (
        "tinycloud.kv/get" ∷ "tinycloud.kv/list" ∷ "tinycloud.kv/metadata" ∷ "tinycloud.kv/put"
        ∷ "tinycloud.kv/del" ∷ [])
    else if service == "tinycloud.capabilities"
    then some (capabilities_read ∷ [])
    else if service == "tinycloud.encryption"
    then some ("tinycloud.encryption/decrypt" ∷ [])
    else none

abbrev denied_spaces : List String
denied_spaces = "account" ∷ "applications" ∷ "secrets" ∷ []

pub record Granted : Type 0 where
  pub service : String
  pub segments : List String

-- What the loop over the entries carries.
pub record Progress : Type 0 where
  pub request_space : Option String
  pub encryption_entries : ℕ
  pub granted : List Granted

-- The one action of an encryption entry.
is_decrypt_only : Option Json → Bool
unfolding is_text
is_decrypt_only (some (arr (Items.item a Items.nil))) =
    is_text "tinycloud.encryption/decrypt" (some a)
is_decrypt_only _ = false

encryption_refused : Fields → ℕ → Bool
unfolding is_decrypt_only
encryption_refused entry entries =
    ltb 1 entries
    || not (is_text "default" (get "space" entry))
    || not (is_text "" (get "path" entry))
    || not (is_decrypt_only (get "actions" entry))

-- The loop over the actions; `unique` holds those before.
check_actions :
    List String → List String → List Json → Result DeviceAuthorizationError (List String)
check_actions allowed unique [] = ok unique
check_actions allowed unique (str a ∷ rest) = do
  reject_if (not (includes allowed a)) scope_error
  reject_if (includes unique a) scope_error
  check_actions allowed (unique ++ a ∷ []) rest
check_actions allowed unique (_ ∷ rest) = err scope_error

-- `!Array.isArray(actions) || actions.length === 0`, then the loop.
action_list : List String → Option Json → Result DeviceAuthorizationError (List String)
unfolding check_actions
action_list allowed (some (arr (Items.item a more))) =
    check_actions allowed [] (items (Items.item a more))
action_list allowed _ = err scope_error

-- `requestSpace === undefined` or the same space
same_space : Option String → String → Bool
same_space none key = true
same_space (some s) key = key == s

or_refuse {ℓ} : {A : Type ℓ} → Option A → Result DeviceAuthorizationError A
or_refuse none = err scope_error
or_refuse (some a) = ok a

-- One round of `value.map`, for an object.
check_entry : Progress → Fields → Result DeviceAuthorizationError (Progress × DevicePermission)
unfolding action_list same_space or_refuse encryption_refused
check_entry st entry = do
  reject_if
      (any (λ k. not (includes ("service" ∷ "space" ∷ "path" ∷ "actions" ∷ []) k)) (keys entry))
      scope_error
  service ← or_refuse (text_of (get "service" entry))
  allowed ← or_refuse (abilities service)
  let entries =
      if service == "tinycloud.encryption" then suc st.encryption_entries else st.encryption_entries
  reject_if (service == "tinycloud.encryption" && encryption_refused entry entries) scope_error
  space ← or_refuse (text_of (get "space" entry))
  identity ← or_refuse (space_identity space)
  reject_if (includes denied_spaces (ascii_lower identity.name)) scope_error
  reject_if (not (same_space st.request_space identity.key)) scope_error
  path ← or_refuse (text_of (get "path" entry))
  reject_if (not (path_allowed service path)) scope_error
  reject_if
      (any (λ other. other.service == service && overlap other.segments (segments path)) st.granted)
      scope_error
  actions ← action_list allowed (get "actions" entry)
  ok (
    record {
      request_space = some identity.key;
      encryption_entries = entries;
      granted = st.granted ++ record { service = service; segments = segments path } ∷ [];
    },
    record { service = service; space = space; path = path; actions = actions },
  )

check_entries : Progress → List Json → Result DeviceAuthorizationError (List DevicePermission)
unfolding check_entry
check_entries st [] = ok []
check_entries st (obj entry ∷ rest) = do
  (st', permission) ← check_entry st entry
  permissions ← check_entries st' rest
  ok (permission ∷ permissions)
check_entries st (_ ∷ rest) = err scope_error

abbrev empty_progress : Progress
empty_progress = record { request_space = none; encryption_entries = 0; granted = [] }

-- `isLegacyShareRequest`
is_share_space : Option Json → Bool
is_share_space (some (str s)) = s == "applications" || ends_with s ":applications"
is_share_space _ = false

is_read_only : Option Json → Bool
unfolding items is_text
is_read_only (some (arr (Items.item a Items.nil))) = is_text capabilities_read (some a)
is_read_only _ = false

is_legacy_share_request : Json → Bool
unfolding is_share_space is_read_only
is_legacy_share_request (arr (Items.item (obj permission) Items.nil)) =
    (is_text "tinycloud.capabilities" (get "service" permission)
      || is_text "capabilities" (get "service" permission))
    && is_share_space (get "space" permission)
    && is_text "" (get "path" permission)
    && is_read_only (get "actions" permission)
is_legacy_share_request _ = false

-- The checks behind the loop: every request but a decrypt-only one carries capabilities/read.
require_capabilities :
    List DevicePermission → Result DeviceAuthorizationError (List DevicePermission)
require_capabilities permissions =
    if all (λ q. q.service == "tinycloud.encryption") permissions
      || any (λ q. q.service == "tinycloud.capabilities") permissions
    then ok permissions
    else err scope_error

explicit_permissions : Json → Result DeviceAuthorizationError (List DevicePermission)
unfolding check_entries require_capabilities
explicit_permissions (arr xs) = do
  reject_if (nat_eq (length (items xs)) 0 || ltb 16 (length (items xs))) scope_error
  permissions ← check_entries empty_progress (items xs)
  require_capabilities permissions
explicit_permissions _ = err scope_error

unfoldable pub device_request_permissions :
    Json → Result DeviceAuthorizationError (List DevicePermission)
unfolding is_legacy_share_request explicit_permissions
device_request_permissions value =
    if is_legacy_share_request value
    then ok share_device_permissions
    else explicit_permissions value
