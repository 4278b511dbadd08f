-- ===== src/Review/Restrict/Actions.antt =====
-- Which actions of a grant a restriction keeps.
use mathlib.Core.Path.{subst}
use openkey.Common.{
  String, ◌≡◌, refl, sym, Bool, true, false, ◌||◌, ◌⊎◌, inl, inr, List, [], ◌∷◌, All, All-weaken,
  Has, here, there, is_empty, arith, Bool-cases,
}
use openkey.Text.{includes}
use openkey.Review.Model.{CapabilityAction}
use openkey.Review.Restrict.{restrict_actions}

abbrev pub chosen : List String → CapabilityAction → Bool
chosen selection a = a.required || includes selection a.id

-- A kept action is one of the listed ones, required or in the selection, now selected.
pub record IsChosen (selection : List String) (actions : List CapabilityAction)
    (a : CapabilityAction) : Type 0 where
  pub source : CapabilityAction
  pub listed : Has source actions
  pub is_chosen : chosen selection source ≡ true
  pub same : a ≡ record source { selected = true }

pub Has-is_empty {ℓ} : {A : Type ℓ} (x : A) (xs : List A) → Has x xs → is_empty xs ≡ false
Has-is_empty x [] h = elim h [ ]
Has-is_empty x (_ ∷ xs) here = refl
Has-is_empty x (_ ∷ xs) (there h) = refl

module _ (selection : List String) where
  restrict_actions-chosen :
      (a : CapabilityAction) (actions : List CapabilityAction)
      → chosen selection a ≡ true
      → restrict_actions selection (a ∷ actions)
        ≡ record a { selected = true } ∷ restrict_actions selection actions
  unfolding restrict_actions
  restrict_actions-chosen a actions h = ground arith

  restrict_actions-other :
      (a : CapabilityAction) (actions : List CapabilityAction)
      → chosen selection a ≡ false
      → restrict_actions selection (a ∷ actions) ≡ restrict_actions selection actions
  unfolding restrict_actions
  restrict_actions-other a actions h = ground arith

  IsChosen-cons :
      (b : CapabilityAction) (actions : List CapabilityAction) (a : CapabilityAction)
      → IsChosen selection actions a
      → IsChosen selection (b ∷ actions) a
  IsChosen-cons b actions a h = record {
    source = h.source;
    listed = there h.listed;
    is_chosen = h.is_chosen;
    same = h.same;
  }

  pub restrict_actions-IsChosen :
      (actions : List CapabilityAction)
      → All (IsChosen selection actions) (restrict_actions selection actions)
  unfolding restrict_actions
  restrict_actions-IsChosen [] = tt
  restrict_actions-IsChosen (a ∷ actions) =
      let rest =
        All-weaken (IsChosen selection actions) (IsChosen selection (a ∷ actions))
          (restrict_actions selection actions) (IsChosen-cons a actions)
          (restrict_actions-IsChosen actions) in
      elim (Bool-cases (chosen selection a)) [
        | inl hit ↦
            rw (restrict_actions-chosen a actions hit)
              (record { source = a; listed = here; is_chosen = hit; same = refl }, rest)
        | inr miss ↦ rw (restrict_actions-other a actions miss) rest
      ]

  abbrev pub IsThere : List CapabilityAction → CapabilityAction → Type 0
  IsThere kept a = (chosen selection a ≡ false) ⊎ Has (record a { selected = true }) kept

  IsThere-cons :
      (b : CapabilityAction) (kept : List CapabilityAction) (a : CapabilityAction)
      → IsThere kept a
      → IsThere (b ∷ kept) a
  IsThere-cons b kept a (inl out) = inl out
  IsThere-cons b kept a (inr is) = inr (there is)

  pub restrict_actions-IsThere :
      (actions : List CapabilityAction) → All (IsThere (restrict_actions selection actions)) actions
  restrict_actions-IsThere [] = tt
  restrict_actions-IsThere (a ∷ actions) = elim (Bool-cases (chosen selection a)) [
    | inl hit ↦
        subst (λ kept. All (IsThere kept) (a ∷ actions))
          (sym (restrict_actions-chosen a actions hit))
          (
            inr here,
            All-weaken (IsThere (restrict_actions selection actions))
                (IsThere (record a { selected = true } ∷ restrict_actions selection actions))
                actions
                (IsThere-cons (record a { selected = true }) (restrict_actions selection actions))
                (restrict_actions-IsThere actions),
          )
    | inr miss ↦
        subst (λ kept. All (IsThere kept) (a ∷ actions))
          (sym (restrict_actions-other a actions miss)) (inl miss, restrict_actions-IsThere actions)
  ]
