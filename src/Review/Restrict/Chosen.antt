-- ===== src/Review/Restrict/Chosen.antt =====
-- Which grants and actions a restriction keeps.
use mathlib.Core.Path.{subst}
use openkey.Common.{
  String, ◌≡◌, refl, sym, Bool, true, false, ◌⊎◌, inl, inr, List, [], ◌∷◌, All, All-weaken, Has,
  here, there, is_empty, Bool-cases,
}
use openkey.Review.Model.{CapabilityAction, CapabilityGrant, CapabilityReviewModel}
use openkey.Review.Restrict.{is_recap, restrict_actions, restrict_grants, restrict_model}
use openkey.Review.Restrict.Actions.{
  chosen, IsChosen, IsThere, Has-is_empty, restrict_actions-IsChosen, restrict_actions-IsThere,
}

-- A kept grant is one of the listed ones with some of its actions, and has one.
pub record IsKept (selection : List String) (grants : List CapabilityGrant) (g : CapabilityGrant)
    : Type 0 where
  pub source : CapabilityGrant
  pub listed : Has source grants
  pub same : g ≡ record source { actions = g.actions }
  pub some_left : is_empty g.actions ≡ false
  pub actions : All (IsChosen selection source.actions) g.actions

-- The action of the grant is there, selected.
pub record IsPresent (grants : List CapabilityGrant) (source : CapabilityGrant)
    (a : CapabilityAction) : Type 0 where
  pub grant : CapabilityGrant
  pub kept : Has grant grants
  pub same : grant ≡ record source { actions = grant.actions }
  pub action : Has (record a { selected = true }) grant.actions

abbrev pub Covers : List String → List CapabilityGrant → CapabilityGrant → Type 0
Covers selection grants source =
    All (λ a. (chosen selection a ≡ false) ⊎ IsPresent grants source a) source.actions

pub record IsRestricted (selection : List String) (baseline candidate : CapabilityReviewModel)
    : Type 0 where
  pub same : candidate ≡ record baseline { permissions = candidate.permissions }
  pub sound : All (IsKept selection baseline.permissions) candidate.permissions
  pub complete : All (Covers selection candidate.permissions) baseline.permissions

-- A request that cannot be edited is left as it is.
abbrev pub IsRestriction :
    Bool → List String → CapabilityReviewModel → CapabilityReviewModel → Type 0
IsRestriction true selection baseline candidate = IsRestricted selection baseline candidate
IsRestriction false selection baseline candidate = candidate ≡ baseline

module _ (selection : List String) where
  IsKept-cons :
      (q : CapabilityGrant) (grants : List CapabilityGrant) (g : CapabilityGrant)
      → IsKept selection grants g
      → IsKept selection (q ∷ grants) g
  IsKept-cons q grants g h = record {
    source = h.source;
    listed = there h.listed;
    same = h.same;
    some_left = h.some_left;
    actions = h.actions;
  }

  restrict_grants-IsKept :
      (grants : List CapabilityGrant)
      → All (IsKept selection grants) (restrict_grants selection grants)
  unfolding restrict_grants
  restrict_grants-IsKept [] = tt
  restrict_grants-IsKept (g ∷ grants) =
      let rest =
        All-weaken (IsKept selection grants) (IsKept selection (g ∷ grants))
          (restrict_grants selection grants) (IsKept-cons g grants)
          (restrict_grants-IsKept grants) in
      elim (Bool-cases (is_empty (restrict_actions selection g.actions))) [
        | inl gone ↦ rw gone rest
        | inr left ↦ rw left (
          record {
            source = g;
            listed = here;
            same = refl;
            some_left = left;
            actions = restrict_actions-IsChosen selection g.actions;
          },
          rest,
        )
      ]

  Covers-cons :
      (g : CapabilityGrant) (kept : List CapabilityGrant) (source : CapabilityGrant)
      → Covers selection kept source
      → Covers selection (g ∷ kept) source
  Covers-cons g kept source h =
      All-weaken (λ a. (chosen selection a ≡ false) ⊎ IsPresent kept source a)
        (λ a. (chosen selection a ≡ false) ⊎ IsPresent (g ∷ kept) source a) source.actions
        (λ a k. elim k [
          | inl out ↦ inl out
          | inr is ↦ inr (record {
            grant = is.grant;
            kept = there is.kept;
            same = is.same;
            action = is.action;
          })
        ])
        h

  restrict_grants_gone :
      (g : CapabilityGrant) (grants : List CapabilityGrant)
      → is_empty (restrict_actions selection g.actions) ≡ true
      → restrict_grants selection (g ∷ grants) ≡ restrict_grants selection grants
  unfolding restrict_grants
  restrict_grants_gone g grants h = rw h refl

  restrict_grants_left :
      (g : CapabilityGrant) (grants : List CapabilityGrant)
      → is_empty (restrict_actions selection g.actions) ≡ false
      → restrict_grants selection (g ∷ grants)
        ≡ record g { actions = restrict_actions selection g.actions }
          ∷ restrict_grants selection grants
  unfolding restrict_grants
  restrict_grants_left g grants h = rw h refl

  restrict_grants-Covers :
      (grants : List CapabilityGrant)
      → All (Covers selection (restrict_grants selection grants)) grants
  restrict_grants-Covers [] = tt
  restrict_grants-Covers (g ∷ grants) =
      let actions = restrict_actions selection g.actions in
      let rest = restrict_grants-Covers grants in
      elim (Bool-cases (is_empty actions)) [
        | inl gone ↦
            subst (λ kept. All (Covers selection kept) (g ∷ grants))
              (sym (restrict_grants_gone g grants gone))
              (
                All-weaken (IsThere selection actions)
                    (λ a.
                      (chosen selection a ≡ false)
                      ⊎ IsPresent (restrict_grants selection grants) g a)
                    g.actions
                    (λ a k. elim k [
                      | inl out ↦ inl out
                      | inr is ↦
                          absurd (cc (gone, Has-is_empty (record a { selected = true }) actions is))
                    ])
                    (restrict_actions-IsThere selection g.actions),
                rest,
              )
        | inr left ↦
            let kept = record g { actions = actions } ∷ restrict_grants selection grants in
            subst (λ all_kept. All (Covers selection all_kept) (g ∷ grants))
              (sym (restrict_grants_left g grants left))
              (
                All-weaken (IsThere selection actions)
                    (λ a. (chosen selection a ≡ false) ⊎ IsPresent kept g a) g.actions
                    (λ a k. elim k [
                      | inl out ↦ inl out
                      | inr is ↦ inr (record {
                        grant = record g { actions = actions };
                        kept = here;
                        same = refl;
                        action = is;
                      })
                    ])
                    (restrict_actions-IsThere selection g.actions),
                All-weaken (Covers selection (restrict_grants selection grants))
                    (Covers selection kept) grants
                    (Covers-cons (record g { actions = actions })
                      (restrict_grants selection grants))
                    rest,
              )
      ]

-- A restriction of a request that can be edited has exactly the actions that are required or in the
-- selection, selected, each in its own grant, and no grant without actions; the rest of the model is
-- the same. Any other request is left as it is.
pub restrict_model-IsRestriction :
    (selection : List String) (m : CapabilityReviewModel)
    → IsRestriction (is_recap m.protocol) selection m (restrict_model selection m)
unfolding restrict_model
restrict_model-IsRestriction selection m = elim (Bool-cases (is_recap m.protocol)) [
  | inr fixed ↦ rw fixed refl
  | inl recap ↦ rw recap (record {
    same = refl;
    sound = restrict_grants-IsKept selection m.permissions;
    complete = restrict_grants-Covers selection m.permissions;
  })
]
