-- ===== src/Device/Scope/Approved.antt =====
-- `approvedPermissionSubset` of apps/api/src/services/device-authorization.ts: the owner's edited
-- permissions against the request. Every refusal is `invalid_result`.
pub mod Laws
pub mod Sound
use openkey.Common.{
  String, Bool, not, ◌&&◌, Option, none, some, List, [], ◌∷◌, ◌++◌, ◌==◌, if◌then◌else◌, any, all,
  keep, map,
}
use openkey.Common.Results.{Result, ok, err, ◌>>◌, reject_if}
use openkey.Text.{◌<>◌, includes}
use openkey.Json.{
  Json, null, bool, str, arr, obj, Items, nil, item, Fields, end, field, get, items, canonical,
}
use openkey.Device.Types.{DevicePermission, DeviceAuthorizationError, device_error, invalid_result}
use openkey.Device.Platform.{Platform}
use openkey.Device.Scope.Space.{space_identity}

abbrev bad_result : DeviceAuthorizationError
bad_result = device_error invalid_result 400

to_items : List Json → Items
to_items [] = nil
to_items (v ∷ vs) = item v (to_items vs)

-- A permission as the JSON object that it is.
pub permission_json : DevicePermission → Json
unfolding to_items
permission_json q = obj (
    field "service" (str q.service) (
      field "space" (str q.space) (
        field "path" (str q.path)
          (field "actions" (arr (to_items (map (λ a. str a) q.actions))) end))))

pub permissions_json : List DevicePermission → Json
unfolding permission_json to_items
permissions_json qs = arr (to_items (map permission_json qs))

-- An approved resource with its actions.
pub record Grant : Type 0 where
  pub resource : String
  pub actions : List String

module _ (p : Platform) where
  -- `${value}`
  template : Option Json → String
  template none = "undefined"
  template (some null) = "null"
  template (some (bool b)) = if b then "true" else "false"
  template (some (str s)) = s
  template (some v) = p.show v

  -- `${deviceSpaceIdentity(space)?.key}`
  space_key : Option Json → String
  space_key (some (str s)) = elim (space_identity s) [ none ↦ "undefined" | some i ↦ i.key ]
  space_key _ = "undefined"

  resource_key : Option Json → Option Json → Option Json → String
  unfolding template space_key
  resource_key service space path =
      template service <> "\0" <> space_key space <> "\0" <> template path

  unfoldable pub permission_key : DevicePermission → String
  unfolding resource_key
  permission_key q = resource_key (some (str q.service)) (some (str q.space)) (some (str q.path))

  -- `requestedByResource.get(resource)`: the last of a key stays in a `Map`.
  unfoldable pub requested_by_resource : List DevicePermission → String → Option DevicePermission
  unfolding permission_key
  requested_by_resource [] k = none
  requested_by_resource (q ∷ qs) k = elim (requested_by_resource qs k) [
    | some r ↦ some r
    | none ↦ if permission_key q == k then some q else none
  ]

  granted_actions : List Grant → String → Option (List String)
  granted_actions [] k = none
  granted_actions (g ∷ gs) k = if g.resource == k then some g.actions else granted_actions gs k

  -- The actions of an entry, if all are texts that the source lists.
  listed_actions : List String → List Json → Option (List String)
  listed_actions source [] = some []
  listed_actions source (str a ∷ rest) = elim (listed_actions source rest) [
    | none ↦ none
    | some more ↦ if includes source a then some (a ∷ more) else none
  ]
  listed_actions source (_ ∷ rest) = none

  entry_actions : List String → Option Json → Option (List String)
  unfolding listed_actions
  entry_actions source (some (arr (item a more))) = listed_actions source (a ∷ items more)
  entry_actions source _ = none

  -- One round of the loop over the entries.
  approve_entry : List DevicePermission → List Grant → Fields → Option Grant
  unfolding resource_key requested_by_resource granted_actions entry_actions
  approve_entry requested granted entry =
      let resource = resource_key (get "service" entry) (get "space" entry) (get "path" entry) in
      elim (requested_by_resource requested resource) [
        | none ↦ none
        | some source ↦ elim (granted_actions granted resource) [
          | some _ ↦ none
          | none ↦ elim (entry_actions source.actions (get "actions" entry)) [
            | none ↦ none
            | some actions ↦ some (record { resource = resource; actions = actions })
          ]
        ]
      ]

  -- An entry that is no object is read as `{}`.
  entry_fields : Json → Fields
  entry_fields (obj entry) = entry
  entry_fields _ = end

  approve_entries : List DevicePermission → List Grant → List Json → Option (List Grant)
  unfolding approve_entry entry_fields
  approve_entries requested granted [] = some granted
  approve_entries requested granted (raw ∷ rest) =
      elim (approve_entry requested granted (entry_fields raw)) [
        | none ↦ none
        | some g ↦ approve_entries requested (granted ++ g ∷ []) rest
      ]

  -- The `flatMap` over the request.
  canonical_subset : List Grant → List DevicePermission → List DevicePermission
  unfolding permission_key granted_actions
  canonical_subset granted [] = []
  canonical_subset granted (q ∷ qs) = elim (granted_actions granted (permission_key q)) [
    | none ↦ canonical_subset granted qs
    | some actions ↦
        record q { actions = keep (includes actions) q.actions } ∷ canonical_subset granted qs
  ]

  -- `jsonEqual`; `locale_le` is the order of `localeCompare`.
  pub json_equal : Json → Json → Bool
  json_equal left right =
      p.stringify (canonical p.locale_le left) == p.stringify (canonical p.locale_le right)

  finish :
      List DevicePermission
      → Json
      → List Grant
      → Result DeviceAuthorizationError (List DevicePermission)
  unfolding canonical_subset json_equal
  finish requested value granted = do
    let subset = canonical_subset granted requested
    reject_if
        (not (all (λ q. q.service == "tinycloud.encryption") requested)
          && not (any (λ q. q.service == "tinycloud.capabilities") subset))
        bad_result
    reject_if (not (json_equal (permissions_json subset) value)) bad_result
    ok subset

  unfoldable pub approved_permission_subset :
      List DevicePermission → Option Json → Result DeviceAuthorizationError (List DevicePermission)
  unfolding approve_entries finish
  approved_permission_subset requested (some (arr (item v vs))) =
      elim (approve_entries requested [] (v ∷ items vs)) [
        | none ↦ err bad_result
        | some granted ↦ finish requested (arr (item v vs)) granted
      ]
  approved_permission_subset requested _ = err bad_result
