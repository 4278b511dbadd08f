-- ===== src/Review/Multiset.antt =====
-- `canonicalMultisetEqual` of packages/capability-review/src/subset.ts.
pub mod Laws
use openkey.Common.{
  String, Bool, true, false, ◌&&◌, List, [], ◌∷◌, ◌==◌, if◌then◌else◌, map, nat_eq, length,
}
use openkey.Json.{Json, canonical}

-- What is taken from JavaScript: `JSON.stringify`, and the order of UTF-16 code units by which `sort`
-- compares texts.
pub record JsonText : Type 0 where
  pub stringify : Json → String
  pub code_unit_le : String → String → Bool

module _ (j : JsonText) where
  -- `canonicalJsonKey`
  unfoldable pub canonical_json_key : Json → String
  canonical_json_key value = j.stringify (canonical j.code_unit_le value)

  -- `sort()` of texts
  unfoldable pub insert : String → List String → List String
  insert x [] = x ∷ []
  insert x (y ∷ ys) = if j.code_unit_le x y then x ∷ y ∷ ys else y ∷ insert x ys

  unfoldable pub sort : List String → List String
  unfolding insert
  sort [] = []
  sort (x ∷ xs) = insert x (sort xs)

-- The `for` loop over two arrays of one length.
unfoldable pub same_texts : List String → List String → Bool
same_texts [] [] = true
same_texts (x ∷ xs) (y ∷ ys) = x == y && same_texts xs ys
same_texts _ _ = false

module _ (j : JsonText) where
  unfoldable pub canonical_multiset_equal : List Json → List Json → Bool
  unfolding sort same_texts canonical_json_key
  canonical_multiset_equal a b =
      if nat_eq (length a) (length b)
      then same_texts (sort j (map (canonical_json_key j) a))
          (sort j (map (canonical_json_key j) b))
      else false
