-- ===== src/Review/Restrict/Laws.antt =====
-- What a restriction keeps of its baseline.
use openkey.Common.{
  String, true, false, ◌≡◌, refl, List, [], ◌∷◌, arith, All, Bool-cases, inl, inr, is_empty,
  eq_refl, All-weaken,
}
use openkey.Text.{includes}
use openkey.Review.Model.{CapabilityAction, CapabilityGrant, CapabilityReviewModel}
use openkey.Review.Restrict.{
  restrict_actions, restrict_grants, restrict_model, add, add_selected, add_grants,
  default_selection,
}

-- Every action is selected already, and every grant has one.
abbrev pub IsFull : CapabilityGrant → Type 0
IsFull g =
    (is_empty g.actions ≡ false) × All (λ (a : CapabilityAction). a.selected ≡ true) g.actions

add_keeps :
    (id x : String) (set : List String) → includes set id ≡ true → includes (add x set) id ≡ true
unfolding includes
add_keeps id x set h = ground arith

add_has : (x : String) (set : List String) → includes (add x set) x ≡ true
unfolding includes
add_has x set = ground (arith, eq_refl x)

abbrev Contains : List String → CapabilityAction → Type 0
Contains set a = includes set a.id ≡ true

restrict_actions_full :
    (set : List String) (actions : List CapabilityAction)
    → All (λ (a : CapabilityAction). a.selected ≡ true) actions
    → All (Contains set) actions
    → restrict_actions set actions ≡ actions
unfolding restrict_actions
restrict_actions_full set [] h k = refl
restrict_actions_full set (a ∷ actions) h k =
    ground (arith, restrict_actions_full set actions h.1 k.1)

add_selected_keeps :
    (id : String) (set : List String) (actions : List CapabilityAction)
    → includes set id ≡ true
    → includes (add_selected set actions) id ≡ true
unfolding add_selected
add_selected_keeps id set [] h = h
add_selected_keeps id set (a ∷ actions) h = elim (Bool-cases a.selected) [
  | inl on ↦ rw on (add_selected_keeps id (add a.id set) actions (add_keeps id a.id set h))
  | inr off ↦ rw off (add_selected_keeps id set actions h)
]

add_grants_keeps :
    (id : String) (set : List String) (grants : List CapabilityGrant)
    → includes set id ≡ true
    → includes (add_grants set grants) id ≡ true
unfolding add_grants
add_grants_keeps id set [] h = h
add_grants_keeps id set (g ∷ grants) h =
    add_grants_keeps id (add_selected set g.actions) grants (add_selected_keeps id set g.actions h)

add_selected_full :
    (set final : List String) (actions : List CapabilityAction)
    → All (λ (a : CapabilityAction). a.selected ≡ true) actions
    → final ≡ add_selected set actions
    → All (Contains final) actions
unfolding add_selected
add_selected_full set final [] h e = tt
add_selected_full set final (a ∷ actions) h e =
    let e' : final ≡ add_selected (add a.id set) actions = rw h.0 at e in
    (
      rw e' (add_selected_keeps a.id (add a.id set) actions (add_has a.id set)),
      add_selected_full (add a.id set) final actions h.1 e',
    )

restrict_grants_full :
    (set final : List String) (grants : List CapabilityGrant)
    → All IsFull grants
    → final ≡ add_grants set grants
    → restrict_grants final grants ≡ grants
unfolding restrict_grants add_grants
restrict_grants_full set final [] h e = refl
restrict_grants_full set final (g ∷ grants) h e =
    let selected = add_selected set g.actions in
    let rest = restrict_grants_full selected final grants h.1 e in
    let held : All (Contains final) g.actions =
      All-weaken (Contains selected) (Contains final) g.actions
        (λ (a : CapabilityAction) (k : Contains selected a).
          rw e (add_grants_keeps a.id selected grants k))
        (add_selected_full set selected g.actions h.0.1 refl) in
    let same = restrict_actions_full final g.actions h.0.1 held in rw (same, rest, h.0.0) refl

-- The default selection of a model in which every action is selected and no grant is empty restricts
-- nothing.
pub restrict_model-default_selection :
    (m : CapabilityReviewModel)
    → All IsFull m.permissions
    → restrict_model (default_selection m) m ≡ m
unfolding restrict_model default_selection
restrict_model-default_selection m h =
    ground (arith, restrict_grants_full [] (default_selection m) m.permissions h refl)
