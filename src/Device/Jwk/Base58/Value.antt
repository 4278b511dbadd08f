-- ===== src/Device/Jwk/Base58/Value.antt =====
-- The digits of `base58btc` denote the number that the bytes denote.
use openkey.Common.{
  ℕ, zero, suc, ◌+◌, ◌*◌, ◌/◌, ◌≤◌, ◌<◌, ◌≡◌, refl, String, List, [], ◌∷◌, ◌++◌, All, Bool, true,
  ◌&&◌, ap, ◌∙◌, if◌then◌else◌, arith, nat_eq, Bool-cases, inl, inr, nat_eq→eq,
}
use Prim.Native.Char.{code}
use text.Mathlib.TextLemmas.{nil-append, cons-append}
use openkey.Text.{◌<>◌, size}
use openkey.Device.Jwk.Base58.{
  alphabet, char_at, leading_ones, print_digits, add_carry, push_carry, absorb, to_digits,
  base58btc,
}

-- The number of a list of digits, least significant first.
abbrev pub digits_value : List ℕ → ℕ
digits_value [] = 0
digits_value (d ∷ ds) = d + 58 * digits_value ds

-- The number of a big-endian byte string, behind what stands before it.
abbrev pub bytes_value : ℕ → List ℕ → ℕ
bytes_value n [] = n
bytes_value n (b ∷ bs) = bytes_value (256 * n + b) bs

abbrev pub IsDigits : List ℕ → Type 0
IsDigits = All (λ d. d < 58)

push_carry_value : (f carry : ℕ) → carry ≤ f → digits_value (push_carry f carry) ≡ carry
unfolding push_carry
push_carry_value zero carry h = omega arith
push_carry_value (suc f) carry h = ground (arith, push_carry_value f (carry / 58))

push_carry-IsDigits : (f carry : ℕ) → IsDigits (push_carry f carry)
unfolding push_carry
push_carry-IsDigits zero carry = tt
push_carry-IsDigits (suc f) carry = ground (arith, push_carry-IsDigits f (carry / 58))

-- The carry that is left stands behind the digits.
absorb_value_from :
    (digits rest : List ℕ) (carry : ℕ)
    → digits_value rest ≡ (add_carry digits carry).1
    → digits_value ((add_carry digits carry).0 ++ rest) ≡ carry + 256 * digits_value digits
unfolding add_carry
absorb_value_from [] rest carry h = omega arith
absorb_value_from (d ∷ ds) rest carry h =
    omega (arith, absorb_value_from ds rest ((carry + d * 256) / 58) h)

absorb_value :
    (digits : List ℕ) (byte : ℕ)
    → digits_value (absorb digits byte) ≡ byte + 256 * digits_value digits
unfolding absorb
absorb_value digits byte =
    absorb_value_from digits (push_carry carry carry) byte
      (push_carry_value carry carry (omega arith))
  where
    carry : ℕ
    carry = (add_carry digits byte).1

absorb-IsDigits_from :
    (digits rest : List ℕ) (carry : ℕ)
    → IsDigits rest
    → IsDigits ((add_carry digits carry).0 ++ rest)
unfolding add_carry
absorb-IsDigits_from [] rest carry h = h
absorb-IsDigits_from (d ∷ ds) rest carry h =
    (omega arith, absorb-IsDigits_from ds rest ((carry + d * 256) / 58) h)

absorb-IsDigits : (digits : List ℕ) (byte : ℕ) → IsDigits (absorb digits byte)
unfolding absorb
absorb-IsDigits digits byte =
    absorb-IsDigits_from digits (push_carry carry carry) byte (push_carry-IsDigits carry carry)
  where
    carry : ℕ
    carry = (add_carry digits byte).1

to_digits_value :
    (digits bytes : List ℕ)
    → digits_value (to_digits digits bytes) ≡ bytes_value (digits_value digits) bytes
unfolding to_digits
to_digits_value digits [] = refl
to_digits_value digits (b ∷ bs) =
    to_digits_value (absorb digits b) bs
    ∙ ap (λ n. bytes_value n bs) (absorb_value digits b ∙ omega arith)

to_digits-IsDigits : (digits bytes : List ℕ) → IsDigits digits → IsDigits (to_digits digits bytes)
unfolding to_digits
to_digits-IsDigits digits [] h = h
to_digits-IsDigits digits (b ∷ bs) h =
    to_digits-IsDigits (absorb digits b) bs (absorb-IsDigits digits b)

-- Reading a text back: the place of a character in the alphabet, and the number.
index_in : String → ℕ → ℕ
index_in String.[] c = 0
index_in (String.◌∷◌ f s) c = if nat_eq (code f) c then 0 else suc (index_in s c)

pub text_value : ℕ → String → ℕ
unfolding index_in
text_value n String.[] = n
text_value n (String.◌∷◌ c s) = text_value (58 * n + index_in alphabet (code c)) s

text_value-append : (n : ℕ) (s t : String) → text_value n (s <> t) ≡ text_value (text_value n s) t
unfolding text_value
text_value-append n String.[] t = rw nil-append refl
text_value-append n (String.◌∷◌ c s) t =
    rw cons-append (text_value-append (58 * n + index_in alphabet (code c)) s t)

-- The test of every digit.
-- The letters of the first digits stand for them.
reads_up_to : ℕ → Bool
unfolding text_value char_at
reads_up_to zero = true
reads_up_to (suc d) = reads_up_to d && nat_eq (text_value 0 (char_at alphabet d)) d

reads_up_to_sound :
    (bound d : ℕ)
    → reads_up_to bound ≡ true
    → d < bound
    → nat_eq (text_value 0 (char_at alphabet d)) d ≡ true
unfolding reads_up_to
reads_up_to_sound zero d h below = absurd (omega arith)
reads_up_to_sound (suc bound) d h below = elim (Bool-cases (nat_eq d bound)) [
  | inl last ↦ rw (nat_eq→eq d bound last) (ground arith)
  | inr before ↦ reads_up_to_sound bound d (ground arith) (ground arith)
]

reads_alphabet : reads_up_to 58 ≡ true
unfolding reads_up_to
reads_alphabet = refl

text_value-leading_ones : (bytes : List ℕ) → text_value 0 (leading_ones bytes) ≡ 0
unfolding text_value leading_ones
text_value-leading_ones [] = refl
text_value-leading_ones (b ∷ bs) = elim (Bool-cases (nat_eq b 0)) [
  | inl e ↦ rw e (text_value-append 0 "1" (leading_ones bs) ∙ text_value-leading_ones bs)
  | inr e ↦ rw e refl
]

text_value-char_at :
    (n : ℕ) (s : String) (i : ℕ)
    → i < size s
    → text_value n (char_at s i) ≡ 58 * n + text_value 0 (char_at s i)
unfolding text_value char_at
text_value-char_at n String.[] i h = absurd (omega arith)
text_value-char_at n (String.◌∷◌ c s) zero h = omega arith
text_value-char_at n (String.◌∷◌ c s) (suc i) h = text_value-char_at n s i (omega arith)

text_value_digit : (n d : ℕ) → d < 58 → text_value n (char_at alphabet d) ≡ 58 * n + d
text_value_digit n d h = omega (
  arith,
  text_value-char_at n alphabet d (omega arith),
  nat_eq→eq (text_value 0 (char_at alphabet d)) d (reads_up_to_sound 58 d reads_alphabet h),
)

text_value-print_digits :
    (digits : List ℕ) → IsDigits digits → text_value 0 (print_digits digits) ≡ digits_value digits
unfolding print_digits text_value
text_value-print_digits [] h = refl
text_value-print_digits (d ∷ ds) h =
    text_value-append 0 (print_digits ds) (char_at alphabet d)
    ∙ omega (
      arith,
      text_value_digit (text_value 0 (print_digits ds)) d h.0,
      text_value-print_digits ds h.1,
    )

-- The text that `base58btc` makes of any bytes is that number in base 58 which the bytes are in
-- base 256, most significant first.
pub base58btc_value : (bytes : List ℕ) → text_value 0 (base58btc bytes) ≡ bytes_value 0 bytes
unfolding base58btc
base58btc_value bytes =
    text_value-append 0 (leading_ones bytes) (print_digits digits)
    ∙ ap (λ n. text_value n (print_digits digits)) (text_value-leading_ones bytes)
    ∙ text_value-print_digits digits (to_digits-IsDigits (0 ∷ []) bytes (omega arith))
    ∙ to_digits_value (0 ∷ []) bytes
  where
    digits : List ℕ
    digits = to_digits (0 ∷ []) bytes
