-- ===== src/Review/Subset/Restricted.antt =====
-- A restriction of the baseline passes the check.
use openkey.Common.{
  String, ◌≡◌, refl, Bool, true, false, ◌&&◌, ◌||◌, inl, inr, Option, none, some, List, [], ◌∷◌,
  ◌==◌, find, any, arith, eq_iff, eq_refl, is_empty, Bool-cases, Has, here, there, All, All-weaken,
  All-Has,
}
use openkey.Text.{includes}
use openkey.Review.Model.{
  CapabilityAction, CapabilityGrant, CapabilityReviewModel, ImmutableSiweFields,
}
use openkey.Review.Multiset.{JsonText}
use openkey.Review.Multiset.Laws.{canonical_multiset_equal_refl}
use openkey.Review.Restrict.{is_recap, restrict_actions, restrict_grants, restrict_model}
use openkey.Review.Subset.{
  immutable_violations, last_with_key, ability_of, grant_id, still_present, required_actions,
  required_violations, action_violations, actions_violations, grant_violations, added_violations,
  assert_baseline_subset,
}

-- No two elements have one key.
abbrev pub IsDistinct {ℓ} : {A : Type ℓ} → (A → String) → List A → Type 0
IsDistinct key [] = Unit
IsDistinct key (x ∷ xs) = All (λ y. (key y == key x) ≡ false) xs × IsDistinct key xs

module _ {ℓ} {A : Type ℓ} (key : A → String) where
  last_with_key-none :
      (k : String) (xs : List A)
      → All (λ y. (key y == k) ≡ false) xs
      → last_with_key key k xs ≡ none
  unfolding last_with_key
  last_with_key-none k [] h = refl
  last_with_key-none k (x ∷ xs) h = rw (last_with_key-none k xs h.1, h.0) refl

  last_with_key_self :
      (x : A) (xs : List A) → IsDistinct key xs → Has x xs → last_with_key key (key x) xs ≡ some x
  unfolding last_with_key
  last_with_key_self x [] d m = elim m [ ]
  last_with_key_self x (_ ∷ xs) d here =
      rw (last_with_key-none (key x) xs d.0, eq_refl (key x)) refl
  last_with_key_self x (y ∷ xs) d (there m) = rw (last_with_key_self x xs d.1 m) refl

All-self {ℓ} : {A : Type ℓ} (xs : List A) → All (λ x. Has x xs) xs
All-self [] = tt
All-self (x ∷ xs) =
    (here, All-weaken (λ y. Has y xs) (λ y. Has y (x ∷ xs)) xs (λ y m. there m) (All-self xs))

-- Ids are distinct, and so are the abilities of each grant.
abbrev pub IsKeyed : List CapabilityGrant → Type 0
IsKeyed grants =
    IsDistinct grant_id grants
    × All (λ (g : CapabilityGrant). IsDistinct ability_of g.actions) grants

module _ (j : JsonText) (selection : List String) where
  actions_violations-restrict :
      (base actions : List CapabilityAction)
      → IsDistinct ability_of base
      → All (λ a. Has a base) actions
      → actions_violations j base (restrict_actions selection actions) ≡ []
  unfolding actions_violations restrict_actions action_violations
  actions_violations-restrict base [] d h = refl
  actions_violations-restrict base (a ∷ actions) d h =
      let found = last_with_key_self ability_of a base d h.0 in
      let same = canonical_multiset_equal_refl j a.caveats in
      let rest = actions_violations-restrict base actions d h.1 in
      elim (Bool-cases (a.required || includes selection a.id)) [
        | inr off ↦ rw off rest
        | inl on ↦ rw on (rw (found, action_violations) (rw (same, rest) refl))
      ]

  added_violations-restrict :
      (baseline grants : List CapabilityGrant)
      → IsDistinct grant_id baseline
      → All (λ (g : CapabilityGrant). Has g baseline) grants
      → All (λ (g : CapabilityGrant). IsDistinct ability_of g.actions) grants
      → added_violations j baseline (restrict_grants selection grants) ≡ []
  unfolding added_violations restrict_grants grant_violations
  added_violations-restrict baseline [] d h k = refl
  added_violations-restrict baseline (g ∷ grants) d h k =
      let rest = added_violations-restrict baseline grants d h.1 k.1 in
      let found = last_with_key_self grant_id g baseline d h.0 in
      let head = actions_violations-restrict g.actions g.actions k.0 (All-self g.actions) in
      elim (Bool-cases (is_empty (restrict_actions selection g.actions))) [
        | inl gone ↦ rw gone rest
        | inr some_left ↦ rw some_left (rw (found, grant_violations) (rw (head, rest) refl))
      ]

-- The first grant with the id of a grant that is kept is that grant, restricted.
find-restrict_grants :
    (selection : List String) (g : CapabilityGrant) (grants : List CapabilityGrant)
    → IsDistinct grant_id grants
    → Has g grants
    → is_empty (restrict_actions selection g.actions) ≡ false
    → find (λ (p : CapabilityGrant). p.id == g.id) (restrict_grants selection grants)
      ≡ some (record g { actions = restrict_actions selection g.actions })
unfolding restrict_grants
find-restrict_grants selection g [] d m e = elim m [ ]
find-restrict_grants selection g (_ ∷ grants) d here e = rw e (rw (eq_refl g.id) refl)
find-restrict_grants selection g (y ∷ grants) d (there m) e =
    let rest = find-restrict_grants selection g grants d.1 m e in
    let other : (y.id == g.id) ≡ false = ground (
      arith,
      eq_iff y.id g.id,
      eq_iff g.id y.id,
      All-Has (λ (z : CapabilityGrant). (z.id == y.id) ≡ false) grants d.0 m,
    ) in
    elim (Bool-cases (is_empty (restrict_actions selection y.actions))) [
      | inl gone ↦ rw gone rest
      | inr some_left ↦ rw some_left (rw other rest)
    ]

-- A required action of a grant is there after the restriction, and selected.
any-restrict_actions :
    (selection : List String) (a : CapabilityAction) (actions : List CapabilityAction)
    → Has a actions
    → a.required ≡ true
    → any
        (λ (x : CapabilityAction). x.ability == a.ability && x.selected)
        (restrict_actions selection actions)
      ≡ true
unfolding restrict_actions
any-restrict_actions selection a [] m e = elim m [ ]
any-restrict_actions selection a (_ ∷ actions) here e = ground (arith, eq_refl a.ability)
any-restrict_actions selection a (y ∷ actions) (there m) e =
    ground (arith, any-restrict_actions selection a actions m e)

any→not_empty {ℓ} :
    {A : Type ℓ} (p : A → Bool) (xs : List A) → any p xs ≡ true → is_empty xs ≡ false
any→not_empty p [] h = cc
any→not_empty p (x ∷ xs) h = refl

module _ (selection : List String) (m : CapabilityReviewModel)
    (d : IsDistinct grant_id m.permissions) where
  still_present-restrict :
      (g : CapabilityGrant) (a : CapabilityAction)
      → Has g m.permissions
      → Has a g.actions
      → a.required ≡ true
      → still_present
          (record m { permissions = restrict_grants selection m.permissions })
          g.id
          a.ability
        ≡ true
  unfolding still_present
  still_present-restrict g a h k e =
      let present = any-restrict_actions selection a g.actions k e in
      let found = find-restrict_grants selection g m.permissions d h (
        any→not_empty (λ (x : CapabilityAction). x.ability == a.ability && x.selected)
          (restrict_actions selection g.actions) present) in
      rw (found, still_present) present

  required_actions-restrict :
      (g : CapabilityGrant) (actions : List CapabilityAction)
      → Has g m.permissions
      → All (λ a. Has a g.actions) actions
      → required_actions
          (record m { permissions = restrict_grants selection m.permissions })
          g
          actions
        ≡ []
  unfolding required_actions
  required_actions-restrict g [] h k = refl
  required_actions-restrict g (a ∷ actions) h k =
      let rest = required_actions-restrict g actions h k.1 in
      elim (Bool-cases a.required) [
        | inr free ↦ rw free rest
        | inl needed ↦ rw needed (rw (still_present-restrict g a h k.0 needed) rest)
      ]

  required_violations-restrict :
      (grants : List CapabilityGrant)
      → All (λ (g : CapabilityGrant). Has g m.permissions) grants
      → required_violations
          (record m { permissions = restrict_grants selection m.permissions })
          grants
        ≡ []
  unfolding required_violations
  required_violations-restrict [] h = refl
  required_violations-restrict (g ∷ grants) h =
      rw
        (
          required_actions-restrict g g.actions h.0 (All-self g.actions),
          required_violations-restrict grants h.1,
        )
        refl

immutable_violations-same : (b : Option ImmutableSiweFields) → immutable_violations b b ≡ []
unfolding immutable_violations
immutable_violations-same none = refl
immutable_violations-same (some b) = simp eq_refl (ground arith)

-- Whatever the owner selects, the restriction of a model whose grants have distinct ids, each with
-- distinct abilities, passes the check against that model, with no violation.
pub assert_baseline_subset-restrict_model :
    (j : JsonText) (selection : List String) (m : CapabilityReviewModel)
    → IsKeyed m.permissions
    → assert_baseline_subset j m (restrict_model selection m)
      ≡ record { ok = true; violations = [] }
unfolding assert_baseline_subset restrict_model
assert_baseline_subset-restrict_model j selection m d = elim (Bool-cases (is_recap m.protocol)) [
  | inr fixed ↦ rw fixed (rw (eq_refl m.raw_message) refl)
  | inl recap ↦
      rw
        (
          recap,
          immutable_violations-same m.immutable,
          added_violations-restrict j selection m.permissions m.permissions d.0
              (All-self m.permissions) d.1,
          required_violations-restrict selection m d.0 m.permissions (All-self m.permissions),
        )
        refl
]
