-- ===== src/Review/Ids.antt =====
-- The ids of packages/capability-review/src/ids.ts. A parse that throws is `none`.
pub mod Laws
use openkey.Common.{String, Option, none, some, List, [], ◌∷◌}
use openkey.Text.{◌<>◌, split}

abbrev pub id_separator : String
id_separator = "\0"

unfoldable pub permission_id : String → String → String → String
permission_id service space path = service <> (id_separator <> (space <> (id_separator <> path)))

unfoldable pub action_id : String → String → String → String → String
action_id service space path action =
    service <> (id_separator <> (space <> (id_separator <> (path <> (id_separator <> action)))))

pub record PermissionParts : Type 0 where
  pub service : String
  pub space : String
  pub path : String

pub record ActionParts : Type 0 where
  pub service : String
  pub space : String
  pub path : String
  pub action : String

permission_parts : List String → Option PermissionParts
permission_parts (service ∷ space ∷ path ∷ []) =
    some (record { service = service; space = space; path = path })
permission_parts _ = none

action_parts : List String → Option ActionParts
action_parts (service ∷ space ∷ path ∷ action ∷ []) =
    some (record { service = service; space = space; path = path; action = action })
action_parts _ = none

unfoldable pub parse_permission_id : String → Option PermissionParts
unfolding permission_parts
parse_permission_id id = permission_parts (split 0 id)

unfoldable pub parse_action_id : String → Option ActionParts
unfolding action_parts
parse_action_id id = action_parts (split 0 id)
