-- ===== src/Review/Restrict.antt =====
-- `restrictModel` and `defaultSelection` of packages/capability-review/src/restrict.ts. A `Set` of
-- action ids is the list of its elements.
pub mod Laws
pub mod Actions
pub mod Chosen
use openkey.Common.{
  String, Bool, true, false, ◌||◌, List, [], ◌∷◌, if◌then◌else◌, keep, map, is_empty,
}
use openkey.Text.{includes}
use openkey.Review.Model.{
  CapabilityAction, CapabilityGrant, CapabilityReviewModel, RequestProtocol, tinycloud_siwe_recap,
}

abbrev pub is_recap : RequestProtocol → Bool
is_recap tinycloud_siwe_recap = true
is_recap _ = false

-- The callback of `map`: required actions are always selected.
abbrev pub with_selection : List String → CapabilityAction → CapabilityAction
with_selection selected_action_ids a = record a {
  selected = a.required || includes selected_action_ids a.id;
}

abbrev pub is_selected : CapabilityAction → Bool
is_selected a = a.selected

unfoldable pub restrict_actions : List String → List CapabilityAction → List CapabilityAction
restrict_actions selected_action_ids actions =
    keep is_selected (map (with_selection selected_action_ids) actions)

unfoldable pub restrict_grants : List String → List CapabilityGrant → List CapabilityGrant
restrict_grants selected_action_ids [] = []
restrict_grants selected_action_ids (grant ∷ grants) =
    let actions = restrict_actions selected_action_ids grant.actions in
    let rest = restrict_grants selected_action_ids grants in
    if is_empty actions then rest else record grant { actions = actions } ∷ rest

unfoldable pub restrict_model : List String → CapabilityReviewModel → CapabilityReviewModel
restrict_model selected_action_ids baseline =
    if is_recap baseline.protocol
    then record baseline { permissions = restrict_grants selected_action_ids baseline.permissions }
    else baseline

-- `set.add(id)`
abbrev add : String → List String → List String
add id set = if includes set id then set else id ∷ set

add_selected : List String → List CapabilityAction → List String
add_selected set [] = set
add_selected set (action ∷ actions) =
    add_selected (if action.selected then add action.id set else set) actions

add_grants : List String → List CapabilityGrant → List String
unfolding add_selected
add_grants set [] = set
add_grants set (grant ∷ grants) = add_grants (add_selected set grant.actions) grants

unfoldable pub default_selection : CapabilityReviewModel → List String
unfolding add_grants
default_selection baseline = add_grants [] baseline.permissions
