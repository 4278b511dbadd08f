-- ===== src/Common/Members.antt =====
-- The elements that the searches of a list find.
use mathlib.Core.Path.{◌≡◌, refl, subst}
use mathlib.Core.Bool.{Bool, true, ◌&&◌}
use mathlib.Core.Option.{some}
use mathlib.Core.List.{List, [], ◌∷◌, ◌++◌}
use mathlib.Core.Logic.{inl, inr}
use native.Mathlib.Omega.{arith}
use openkey.Common.Tests.{Bool-cases, is_empty}
use openkey.Common.Lists.{find, any, Has, here, there}

module _ {ℓ} {A : Type ℓ} (p : A → Bool) where
  pub find-Has : (xs : List A) (x : A) → find p xs ≡ some x → (p x ≡ true) × Has x xs
  find-Has [] x e = cc
  find-Has (y ∷ xs) x e = elim (Bool-cases (p y)) [
    | inl hit ↦
        let same : y ≡ x = cc (rw hit at e) in
        (subst (λ z. p z ≡ true) same hit, subst (λ z. Has z (y ∷ xs)) same here)
    | inr miss ↦ let found = find-Has xs x (rw miss at e) in (found.0, there found.1)
  ]

  pub any-Has : (xs : List A) → any p xs ≡ true → (x : A) × (p x ≡ true) × Has x xs
  any-Has [] e = cc
  any-Has (y ∷ xs) e = elim (Bool-cases (p y)) [
    | inl hit ↦ (y, hit, here)
    | inr miss ↦ let found = any-Has xs (rw miss at e) in (found.0, found.1, there found.2)
  ]

  pub Has-any : (xs : List A) (x : A) → Has x xs → p x ≡ true → any p xs ≡ true
  Has-any [] x m e = elim m [ ]
  Has-any (y ∷ xs) x here e = rw e refl
  Has-any (y ∷ xs) x (there m) e = ground (arith, Has-any xs x m e)

pub is_empty-append {ℓ} :
    {A : Type ℓ} (xs ys : List A) → is_empty (xs ++ ys) ≡ (is_empty xs && is_empty ys)
is_empty-append [] ys = refl
is_empty-append (x ∷ xs) ys = refl
