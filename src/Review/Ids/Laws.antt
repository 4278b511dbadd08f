-- ===== src/Review/Ids/Laws.antt =====
-- Ids are parsed back, and so no two tuples share one.
use openkey.Common.{String, ◌≡◌, refl, sym, ap, ◌∙◌, some, [], ◌∷◌, arith}
use openkey.Text.{◌<>◌, split}
use openkey.Text.Split.{IsFree, split-append, split_last}
use openkey.Review.Ids.{
  permission_id, action_id, parse_permission_id, parse_action_id, PermissionParts, id_separator,
}

split-permission_id :
    (service space path : String)
    → IsFree 0 service
    → IsFree 0 space
    → IsFree 0 path
    → split 0 (permission_id service space path) ≡ service ∷ space ∷ path ∷ []
unfolding permission_id
split-permission_id service space path h k l =
    split-append 0 service (space <> (id_separator <> path)) "\0" h refl
    ∙ ap (◌∷◌ service)
        (split-append 0 space path "\0" k refl ∙ ap (◌∷◌ space) (split_last 0 path l))

split-action_id :
    (service space path action : String)
    → IsFree 0 service
    → IsFree 0 space
    → IsFree 0 path
    → IsFree 0 action
    → split 0 (action_id service space path action) ≡ service ∷ space ∷ path ∷ action ∷ []
unfolding action_id
split-action_id service space path action h k l m =
    split-append 0 service (space <> (id_separator <> (path <> (id_separator <> action)))) "\0" h
      refl
    ∙ ap (◌∷◌ service) (
        split-append 0 space (path <> (id_separator <> action)) "\0" k refl
        ∙ ap (◌∷◌ space)
            (split-append 0 path action "\0" l refl ∙ ap (◌∷◌ path) (split_last 0 action m)))

-- A permission id and an action id of texts with no NUL parse back to those texts.
pub parse-ids :
    (service space path action : String)
    → IsFree 0 service
    → IsFree 0 space
    → IsFree 0 path
    → IsFree 0 action
    → (parse_permission_id (permission_id service space path)
        ≡ some (record { service = service; space = space; path = path }))
      × (parse_action_id (action_id service space path action)
          ≡ some (record { service = service; space = space; path = path; action = action }))
unfolding parse_permission_id parse_action_id
parse-ids service space path action h k l m = (
  rw (split-permission_id service space path h k l) refl,
  rw (split-action_id service space path action h k l m) refl,
)

pub permission_id_injective :
    (a b : PermissionParts)
    → IsFree 0 a.service
    → IsFree 0 a.space
    → IsFree 0 a.path
    → IsFree 0 b.service
    → IsFree 0 b.space
    → IsFree 0 b.path
    → permission_id a.service a.space a.path ≡ permission_id b.service b.space b.path
    → a ≡ b
permission_id_injective a b h k l h' k' l' e =
    let one = split-permission_id a.service a.space a.path h k l in
    let two = split-permission_id b.service b.space b.path h' k' l' in
    let same : a.service ∷ a.space ∷ a.path ∷ [] ≡ b.service ∷ b.space ∷ b.path ∷ [] =
      sym one ∙ ap (split 0) e ∙ two in
    ground arith
