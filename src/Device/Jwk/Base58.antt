-- ===== src/Device/Jwk/Base58.antt =====
-- `base58btc`: a big-endian byte string in base 58.
pub mod Value
use Prim.Native.Char.{Char}
use Prim.Native.String
use openkey.Common.{
  ℕ, zero, suc, ◌+◌, ◌*◌, ◌/◌, ◌%◌, String, List, [], ◌∷◌, ◌++◌, ◌==◌, nat_eq, if◌then◌else◌,
}
use openkey.Text.{◌<>◌, of_char}

abbrev alphabet : String
alphabet = "123456789ABCDEFGHJKLMNPQRSTUVWXYZabcdefghijkmnopqrstuvwxyz"

-- `text[index]`, as a text
char_at : String → ℕ → String
char_at String.[] i = ""
char_at (String.◌∷◌ c s) zero = of_char c
char_at (String.◌∷◌ c s) (suc i) = char_at s i

-- The `for` loop over the digits, least significant first.
add_carry : List ℕ → ℕ → List ℕ × ℕ
add_carry [] carry = ([], carry)
add_carry (d ∷ ds) carry =
    let t = carry + d * 256 in let (rest, left) = add_carry ds (t / 58) in ((t % 58) ∷ rest, left)

-- The `while (carry > 0)` loop; a round at least halves the carry, so a fuel of `carry` is enough.
push_carry : ℕ → ℕ → List ℕ
push_carry zero carry = []
push_carry (suc f) carry =
    let rest = push_carry f (carry / 58) in if nat_eq carry 0 then [] else (carry % 58) ∷ rest

absorb : List ℕ → ℕ → List ℕ
unfolding add_carry push_carry
absorb digits byte = let (ds, carry) = add_carry digits byte in ds ++ push_carry carry carry

to_digits : List ℕ → List ℕ → List ℕ
unfolding absorb
to_digits digits [] = digits
to_digits digits (byte ∷ bytes) = to_digits (absorb digits byte) bytes

-- The leading zero bytes, a `1` for each.
leading_ones : List ℕ → String
leading_ones [] = ""
leading_ones (byte ∷ bytes) =
    let rest = "1" <> leading_ones bytes in if nat_eq byte 0 then rest else ""

-- The digits, most significant first.
print_digits : List ℕ → String
unfolding char_at
print_digits [] = ""
print_digits (d ∷ ds) = print_digits ds <> char_at alphabet d

unfoldable pub base58btc : List ℕ → String
unfolding to_digits leading_ones print_digits
base58btc bytes = leading_ones bytes <> print_digits (to_digits (0 ∷ []) bytes)
