-- ===== src/Device/UserCode.antt =====
-- The user codes: `normalizeUserCode`, `displayUserCode`, `randomUserCode`, and the loop of `start`
-- that draws until a code is unused.
pub mod Laws
use openkey.Common.{
  ℕ, zero, suc, ◌%◌, String, not, ◌||◌, Option, none, some, List, [], ◌∷◌, if◌then◌else◌, is_some,
}
use openkey.Text.{◌<>◌, of_char, is_upper, is_digit, remove_chars}
use openkey.Device.Platform.{Platform}
use openkey.Device.Store.{Store, find_by_user_code}

abbrev alphabet : String
alphabet = "23456789ABCDEFGHJKLMNPQRSTUVWXYZ"

-- `alphabet[index]`
letter : String → ℕ → String
letter String.[] i = ""
letter (String.◌∷◌ c s) zero = of_char c
letter (String.◌∷◌ c s) (suc i) = letter s i

-- The code of the bytes that `randomBytes(8)` returned.
unfoldable pub random_user_code : List ℕ → String
unfolding letter
random_user_code [] = ""
random_user_code (value ∷ values) = letter alphabet (value % 32) <> random_user_code values

module _ (p : Platform) where
  unfoldable pub normalize_user_code : String → String
  unfolding remove_chars
  normalize_user_code value =
      remove_chars (λ c. not (is_upper c || is_digit c)) (p.to_upper_case value)

-- `text.slice(0, n)` and `text.slice(n)`
slice_to : ℕ → String → String
slice_to zero s = ""
slice_to (suc n) String.[] = ""
slice_to (suc n) (String.◌∷◌ c s) = String.◌∷◌ c (slice_to n s)

slice_from : ℕ → String → String
slice_from zero s = s
slice_from (suc n) String.[] = ""
slice_from (suc n) (String.◌∷◌ c s) = slice_from n s

module _ (p : Platform) where
  unfoldable pub display_user_code : String → String
  unfolding normalize_user_code slice_to slice_from
  display_user_code value =
      let normalized = normalize_user_code p value in
      slice_to 4 normalized <> "-" <> slice_from 4 normalized

-- A round of the loop: the random bytes, and the store that the look-up meets.
pub record Draw : Type 0 where
  pub bytes : List ℕ
  pub met : Store

-- The `while` loop over its rounds; `none` while it is still drawing.
unfoldable pub fresh_user_code : List Draw → Option String
fresh_user_code [] = none
fresh_user_code (draw ∷ draws) =
    let again = fresh_user_code draws in
    if is_some (find_by_user_code (random_user_code draw.bytes) draw.met)
    then again
    else some (random_user_code draw.bytes)
