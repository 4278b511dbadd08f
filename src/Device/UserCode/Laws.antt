-- ===== src/Device/UserCode/Laws.antt =====
-- The displayed user code, typed back in, is the code again.

use Prim.Native.String.{String}
use text.Mathlib.TextLemmas.{nil-append, cons-append}
use openkey.Common.{
  ℕ, zero, suc, ◌%◌, ◌≡◌, refl, ap, ◌∙◌, Bool, true, ◌||◌, not, none, some, List, [], ◌∷◌, arith,
  nat_eq, inl, inr, Has, here, there, Option-cases,
}
use openkey.Text.{◌<>◌, all_chars, remove_chars, is_upper, is_digit}
use openkey.Text.Laws.{all_chars-append, remove_chars-append, remove_chars_none, all_chars-weaken}
use openkey.Device.Platform.{Platform}
use openkey.Device.Store.{find_by_user_code}
use openkey.Device.UserCode.{
  alphabet, letter, random_user_code, normalize_user_code, slice_to, slice_from, display_user_code,
  fresh_user_code, Draw,
}

-- `[A-Z0-9]`
abbrev pub is_code_char : ℕ → Bool
is_code_char c = is_upper c || is_digit c

-- `[^A-Z0-9]`
abbrev not_code_char : ℕ → Bool
not_code_char c = not (is_upper c || is_digit c)

-- `[A-Z0-9-]`, the characters of a displayed code
abbrev pub is_display_char : ℕ → Bool
is_display_char c = is_upper c || is_digit c || nat_eq c b'-'

all_chars-letter :
    (p : ℕ → Bool) (s : String) (i : ℕ) → all_chars p s ≡ true → all_chars p (letter s i) ≡ true
unfolding all_chars letter
all_chars-letter p String.[] i h = refl
all_chars-letter p (String.◌∷◌ c s) zero h = ground arith
all_chars-letter p (String.◌∷◌ c s) (suc i) h = all_chars-letter p s i (ground arith)

pub random_user_code_chars :
    (bytes : List ℕ) → all_chars is_code_char (random_user_code bytes) ≡ true
unfolding random_user_code all_chars
random_user_code_chars [] = refl
random_user_code_chars (b ∷ bs) =
    all_chars-append is_code_char (letter alphabet (b % 32)) (random_user_code bs)
      (all_chars-letter is_code_char alphabet (b % 32) refl) (random_user_code_chars bs)

all_chars-slice_to :
    (p : ℕ → Bool) (n : ℕ) (s : String) → all_chars p s ≡ true → all_chars p (slice_to n s) ≡ true
unfolding all_chars slice_to
all_chars-slice_to p zero s h = refl
all_chars-slice_to p (suc n) String.[] h = refl
all_chars-slice_to p (suc n) (String.◌∷◌ c s) h =
    ground (arith, all_chars-slice_to p n s (ground arith))

all_chars-slice_from :
    (p : ℕ → Bool) (n : ℕ) (s : String) → all_chars p s ≡ true → all_chars p (slice_from n s) ≡ true
unfolding all_chars slice_from
all_chars-slice_from p zero s h = h
all_chars-slice_from p (suc n) String.[] h = refl
all_chars-slice_from p (suc n) (String.◌∷◌ c s) h = all_chars-slice_from p n s (ground arith)

slice_to-append-slice_from : (n : ℕ) (s : String) → slice_to n s <> slice_from n s ≡ s
unfolding slice_to slice_from
slice_to-append-slice_from zero s = nil-append s
slice_to-append-slice_from (suc n) String.[] = nil-append ""
slice_to-append-slice_from (suc n) (String.◌∷◌ c s) =
    cons-append c (slice_to n s) (slice_from n s)
    ∙ ap (String.◌∷◌ c) (slice_to-append-slice_from n s)

-- What is relied on of `toUpperCase`: a text of capitals, digits and hyphens stays as it is.
abbrev pub KeepsCapitals : Platform → Type 0
KeepsCapitals p = (s : String) → all_chars is_display_char s ≡ true → p.to_upper_case s ≡ s

module _ (p : Platform) (capitals : KeepsCapitals p) where
  normalize_code : (s : String) → all_chars is_code_char s ≡ true → normalize_user_code p s ≡ s
  unfolding normalize_user_code
  normalize_code s h =
      rw (capitals s (all_chars-weaken is_code_char is_display_char s (λ c k. ground arith) h))
        (remove_chars_none not_code_char is_code_char s (λ c k. ground arith) h)

  displayed_chars :
      (s : String)
      → all_chars is_code_char s ≡ true
      → all_chars is_display_char (slice_to 4 s <> ("-" <> slice_from 4 s)) ≡ true
  displayed_chars s h =
      let shown = all_chars-weaken is_code_char is_display_char s (λ c k. ground arith) h in
      all_chars-append is_display_char (slice_to 4 s) ("-" <> slice_from 4 s)
        (all_chars-slice_to is_display_char 4 s shown)
        (all_chars-append is_display_char "-" (slice_from 4 s) (unfold all_chars in refl)
          (all_chars-slice_from is_display_char 4 s shown))

  hyphen_removed :
      (s : String)
      → all_chars is_code_char s ≡ true
      → remove_chars not_code_char (slice_to 4 s <> ("-" <> slice_from 4 s)) ≡ s
  hyphen_removed s h =
      let stays = λ (t : String) (k : all_chars is_code_char t ≡ true).
        remove_chars_none not_code_char is_code_char t (λ c e. ground arith) k in
      remove_chars-append not_code_char (slice_to 4 s) ("-" <> slice_from 4 s)
      ∙ ap (λ t. remove_chars not_code_char (slice_to 4 s) <> t)
          (remove_chars-append not_code_char "-" (slice_from 4 s)
            ∙ ap (λ t. t <> remove_chars not_code_char (slice_from 4 s)) hyphen
            ∙ nil-append (remove_chars not_code_char (slice_from 4 s))
            ∙ stays (slice_from 4 s) (all_chars-slice_from is_code_char 4 s h))
      ∙ ap (λ t. t <> slice_from 4 s) (stays (slice_to 4 s) (all_chars-slice_to is_code_char 4 s h))
      ∙ slice_to-append-slice_from 4 s
    where
      hyphen : remove_chars not_code_char "-" ≡ ""
      hyphen = unfold remove_chars in refl

  -- A code of capitals and digits survives being displayed and typed back in.
  pub normalize-display_user_code :
      (s : String)
      → all_chars is_code_char s ≡ true
      → normalize_user_code p (display_user_code p s) ≡ s
  unfolding display_user_code
  normalize-display_user_code s h =
      rw (normalize_code s h)
        (ap (remove_chars not_code_char) (capitals _ (displayed_chars s h)) ∙ hyphen_removed s h)

-- The loop ends with a code that no record has in the store of its last round, made of capitals and
-- digits.
pub fresh_user_code_sound :
    (draws : List Draw) (raw : String)
    → fresh_user_code draws ≡ some raw
    → ((d : Draw) × Has d draws × (find_by_user_code raw d.met ≡ none))
      × (all_chars is_code_char raw ≡ true)
unfolding fresh_user_code
fresh_user_code_sound [] raw e = absurd (ground arith)
fresh_user_code_sound (d ∷ draws) raw e =
    elim (Option-cases (find_by_user_code (random_user_code d.bytes) d.met)) [
      | inl unused ↦
          let same : random_user_code d.bytes ≡ raw = ground arith in
          ((d, here, rw (← same) unused), rw (← same) (random_user_code_chars d.bytes))
      | inr (r, used) ↦
          let ((q, m, unused), chars) =
            fresh_user_code_sound draws raw (rw (used, fresh_user_code) at e) in
          ((q, there m, unused), chars)
    ]
