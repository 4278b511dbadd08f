-- ===== src/Text.antt =====
-- What the source uses of JavaScript strings, over characters. The grammars that it checks are
-- ASCII, where a code unit is a character.
pub mod Laws
pub mod Split
use Prim.Native.Char.{Char, code}
use Prim.Native.String
use Prim.Native.String.{String}
use openkey.Common.{
  ℕ, suc, Bool, true, false, ◌&&◌, ◌||◌, List, [], ◌∷◌, ◌==◌, leb, nat_eq, if◌then◌else◌, any, keep,
  not,
}

infixr 66 ◌<>◌
abbrev pub ◌<>◌ : String → String → String
s <> t = String.◌++◌ s t

abbrev pub of_char : Char → String
of_char c = String.◌∷◌ c String.[]

abbrev pub size : String → ℕ
size String.[] = 0
size (String.◌∷◌ c s) = suc (size s)

-- `/^[class]*$/`
unfoldable pub all_chars : (ℕ → Bool) → String → Bool
all_chars p String.[] = true
all_chars p (String.◌∷◌ c s) = p (code c) && all_chars p s

unfoldable pub ends_with : String → String → Bool
ends_with String.[] t = String.[] == t
ends_with (String.◌∷◌ c s) t = String.◌∷◌ c s == t || ends_with s t

-- The loop of `s.split(sep)` for a separator of one character.
unfoldable pub split_from : ℕ → String → String → List String
split_from sep cur String.[] = cur ∷ []
split_from sep cur (String.◌∷◌ c s) =
    let closed = cur ∷ split_from sep "" s in
    let longer = split_from sep (cur <> of_char c) s in
    if nat_eq (code c) sep then closed else longer

abbrev pub split : ℕ → String → List String
split sep s = split_from sep "" s

-- `s.split('/').filter(Boolean)`
unfoldable pub segments : String → List String
unfolding split_from
segments path = keep (λ part. not (part == "")) (split b'/' path)

unfoldable pub remove_chars : (ℕ → Bool) → String → String
remove_chars p String.[] = ""
remove_chars p (String.◌∷◌ c s) =
    if p (code c) then remove_chars p s else String.◌∷◌ c (remove_chars p s)

-- The character that stands in the second text where `c` stands in the first.
unfoldable pub translate : String → String → Char → Char
translate (String.◌∷◌ f from) (String.◌∷◌ t to) c =
    if nat_eq (code f) (code c) then t else translate from to c
translate _ _ c = c

unfoldable pub map_chars : (Char → Char) → String → String
map_chars f String.[] = ""
map_chars f (String.◌∷◌ c s) = String.◌∷◌ (f c) (map_chars f s)

-- `toLowerCase` of an ASCII text
unfoldable pub ascii_lower : String → String
unfolding map_chars translate
ascii_lower = map_chars (translate "ABCDEFGHIJKLMNOPQRSTUVWXYZ" "abcdefghijklmnopqrstuvwxyz")

abbrev pub is_digit : ℕ → Bool
is_digit c = leb b'0' c && leb c b'9'

abbrev pub is_upper : ℕ → Bool
is_upper c = leb b'A' c && leb c b'Z'

abbrev pub is_lower : ℕ → Bool
is_lower c = leb b'a' c && leb c b'z'

abbrev pub is_alnum : ℕ → Bool
is_alnum c = is_digit c || is_upper c || is_lower c

-- `/^[A-Za-z0-9_-]{43}$/`
unfoldable pub is_base64url_43 : String → Bool
unfolding all_chars
is_base64url_43 s =
    all_chars (λ c. is_alnum c || nat_eq c b'_' || nat_eq c b'-') s && nat_eq (size s) 43

-- `list.includes(s)`
unfoldable pub includes : List String → String → Bool
includes xs s = any (λ x. x == s) xs
