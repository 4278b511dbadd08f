-- ===== src/Device/Scope/Space.antt =====
-- The spaces that a device request may name: `deviceSpaceIdentity`.
use Prim.Native.Char.{code}
use openkey.Common.{
  ℕ, String, Bool, false, not, ◌&&◌, ◌||◌, Option, none, some, List, [], ◌∷◌, ◌==◌, nat_eq, leb,
  if◌then◌else◌,
}
use openkey.Text.{◌<>◌, size, all_chars, split, split_from, ascii_lower, is_alnum, is_digit}

is_space_char : ℕ → Bool
is_space_char c = is_alnum c || nat_eq c b'.' || nat_eq c b'_' || nat_eq c b'-'

-- `[A-Za-z0-9][A-Za-z0-9._-]{0,63}`
is_space_name : String → Bool
unfolding is_space_char all_chars
is_space_name String.[] = false
is_space_name (String.◌∷◌ c s) = is_alnum (code c) && all_chars is_space_char s && leb (size s) 63

-- `[1-9][0-9]{0,19}`
is_chain : String → Bool
unfolding all_chars
is_chain String.[] = false
is_chain (String.◌∷◌ c s) =
    (is_digit (code c) && not (nat_eq (code c) b'0')) && all_chars is_digit s && leb (size s) 19

is_hex : ℕ → Bool
is_hex c = is_digit c || (leb b'a' c && leb c b'f') || (leb b'A' c && leb c b'F')

-- `0x[0-9a-fA-F]{40}`
is_address : String → Bool
unfolding is_hex all_chars
is_address (String.◌∷◌ c (String.◌∷◌ d s)) =
    nat_eq (code c) b'0' && nat_eq (code d) b'x' && all_chars is_hex s && nat_eq (size s) 40
is_address _ = false

pub record SpaceIdentity : Type 0 where
  pub key : String
  pub name : String

-- `DEVICE_PKH_SPACE`: no group of it holds a colon.
pkh_space : List String → Option SpaceIdentity
unfolding is_chain is_address is_space_name ascii_lower
pkh_space (a ∷ b ∷ c ∷ chain ∷ address ∷ name ∷ []) =
    if a == "tinycloud"
      && b == "pkh"
      && c == "eip155"
      && is_chain chain
      && is_address address
      && is_space_name name
    then some (record {
      key = "tinycloud:pkh:eip155:" <> chain <> ":" <> ascii_lower address <> ":" <> name;
      name = name;
    })
    else none
pkh_space _ = none

-- `deviceSpaceIdentity` of a text; `null` is `none`
unfoldable pub space_identity : String → Option SpaceIdentity
unfolding is_space_name pkh_space split_from
space_identity space =
    if is_space_name space
    then some (record { key = space; name = space })
    else pkh_space (split b':' space)
