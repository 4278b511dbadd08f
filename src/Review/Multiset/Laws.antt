-- ===== src/Review/Multiset/Laws.antt =====
-- The comparison of caveats is the comparison of multisets.
use openkey.Common.{
  ℕ, String, ◌≡◌, refl, sym, ap, ◌∙◌, true, ◌↔◌, List, [], ◌∷◌, ◌==◌, map, count, arith, eq_iff,
}
use openkey.Json.{Json}
use openkey.Review.Multiset.{
  JsonText, canonical_json_key, insert, sort, same_texts, canonical_multiset_equal,
}

-- How often a text occurs.
abbrev pub occurrences : String → List String → ℕ
occurrences k = count (λ x. x == k)

module _ (j : JsonText) where
  occurrences-insert :
      (k x : String) (ys : List String) → occurrences k (insert j x ys) ≡ occurrences k (x ∷ ys)
  unfolding insert
  occurrences-insert k x [] = refl
  occurrences-insert k x (y ∷ ys) = ground (arith, occurrences-insert k x ys)

  occurrences-sort : (k : String) (xs : List String) → occurrences k (sort j xs) ≡ occurrences k xs
  unfolding sort
  occurrences-sort k [] = refl
  occurrences-sort k (x ∷ xs) =
      ground (arith, occurrences-insert k x (sort j xs), occurrences-sort k xs)

same_texts_iff : (xs ys : List String) → (same_texts xs ys ≡ true) ↔ (xs ≡ ys)
unfolding same_texts
same_texts_iff [] [] = (λ _. refl, λ _. refl)
same_texts_iff [] (y ∷ ys) = (λ h. absurd (ground arith), λ h. absurd (ground arith))
same_texts_iff (x ∷ xs) [] = (λ h. absurd (ground arith), λ h. absurd (ground arith))
same_texts_iff (x ∷ xs) (y ∷ ys) = ground (arith, eq_iff x y, same_texts_iff xs ys)

-- The canonical texts of the caveats.
abbrev pub keys_of : JsonText → List Json → List String
keys_of j = map (canonical_json_key j)

-- Caveats that compare equal hold every canonical text equally often.
pub canonical_multiset_equal_sound :
    (j : JsonText) (a b : List Json) (k : String)
    → canonical_multiset_equal j a b ≡ true
    → occurrences k (keys_of j a) ≡ occurrences k (keys_of j b)
unfolding canonical_multiset_equal
canonical_multiset_equal_sound j a b k h =
    let same : sort j (keys_of j a) ≡ sort j (keys_of j b) =
      (same_texts_iff (sort j (keys_of j a)) (sort j (keys_of j b))).0 (ground arith) in
    sym (occurrences-sort j k (keys_of j a))
    ∙ ap (occurrences k) same
    ∙ occurrences-sort j k (keys_of j b)

pub canonical_multiset_equal_refl :
    (j : JsonText) (a : List Json) → canonical_multiset_equal j a a ≡ true
unfolding canonical_multiset_equal
canonical_multiset_equal_refl j a =
    let same = (same_texts_iff (sort j (keys_of j a)) (sort j (keys_of j a))).1 refl in ground arith
