-- ===== src/Device/Scope/Paths.antt =====
-- The paths that a device request may name: `assertDevicePath` of
-- apps/api/src/services/device-authorization.ts with apps/api/src/services/tinycloud-path-policy.ts,
-- and the test that one granted path covers another.

use openkey.Common.{
  ℕ, String, Bool, true, false, not, ◌&&◌, ◌||◌, List, [], ◌∷◌, ◌==◌, nat_eq, leb, if◌then◌else◌,
  any, length,
}
use openkey.Text.{size, all_chars, split, split_from, segments, ascii_lower, includes, is_alnum}

-- `TINYCLOUD_DENIED_PATH_ROOTS`
abbrev denied_path_roots : List String
denied_path_roots = "secrets" ∷ "vault" ∷ []

is_path_char : ℕ → Bool
is_path_char c =
    is_alnum c
    || nat_eq c b'.'
    || nat_eq c b'_'
    || nat_eq c b'~'
    || nat_eq c b'@'
    || nat_eq c b'+'
    || nat_eq c b'='
    || nat_eq c b','
    || nat_eq c b':'
    || nat_eq c b'-'

-- `[A-Za-z0-9._~@+=,:-]+`
is_path_segment : String → Bool
unfolding all_chars is_path_char
is_path_segment s = not (s == "") && all_chars is_path_char s

more_segments : List String → Bool
unfolding is_path_segment
more_segments [] = true
more_segments (s ∷ []) = s == "" || is_path_segment s
more_segments (s ∷ t ∷ rest) = is_path_segment s && more_segments (t ∷ rest)

path_parts : List String → Bool
unfolding more_segments is_path_segment
path_parts [] = false
path_parts (s ∷ rest) = is_path_segment s && more_segments rest

-- `TINYCLOUD_DELEGATED_PATH`: segments, with one slash between two and perhaps one at the end
unfoldable pub is_delegated_path : String → Bool
unfolding path_parts split_from
is_delegated_path path = path_parts (split b'/' path)

unfoldable pub has_dot_segment : String → Bool
unfolding segments
has_dot_segment path = any (λ s. s == "." || s == "..") (segments path)

-- `segments[0]!.toLowerCase()` is one of the denied roots
unfoldable pub has_denied_root : List String → Bool
unfolding ascii_lower includes
has_denied_root [] = false
has_denied_root (root ∷ _) = includes denied_path_roots (ascii_lower root)

-- `assertDevicePath`
unfoldable pub path_allowed : String → String → Bool
path_allowed service path =
    if service == "tinycloud.capabilities" || service == "tinycloud.encryption"
    then path == ""
    else not (path == "")
      && leb (size path) 256
      && is_delegated_path path
      && not (has_dot_segment path)
      && not (has_denied_root (segments path))

unfoldable pub is_prefix : List String → List String → Bool
is_prefix [] ys = true
is_prefix (x ∷ xs) [] = false
is_prefix (x ∷ xs) (y ∷ ys) = x == y && is_prefix xs ys

-- One of two segment lists covers the other.
unfoldable pub overlap : List String → List String → Bool
unfolding is_prefix
overlap xs ys = if leb (length xs) (length ys) then is_prefix xs ys else is_prefix ys xs
