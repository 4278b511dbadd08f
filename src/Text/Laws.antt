-- ===== src/Text/Laws.antt =====
-- Laws of the text operations.
use Prim.Native.Char.{code}
use Prim.Native.String.{String}
use text.Mathlib.TextLemmas.{nil-append, cons-append}
use openkey.Common.{ℕ, ◌≡◌, refl, Bool, true, false, arith, Bool-cases, inl, inr, ap}
use openkey.Text.{◌<>◌, all_chars, remove_chars}

pub all_chars-append :
    (p : ℕ → Bool) (s t : String)
    → all_chars p s ≡ true
    → all_chars p t ≡ true
    → all_chars p (s <> t) ≡ true
unfolding all_chars
all_chars-append p String.[] t h k = rw nil-append k
all_chars-append p (String.◌∷◌ c s) t h k =
    rw cons-append (ground (arith, all_chars-append p s t (ground arith) k))

pub remove_chars-append :
    (p : ℕ → Bool) (s t : String) → remove_chars p (s <> t) ≡ remove_chars p s <> remove_chars p t
unfolding remove_chars
remove_chars-append p String.[] t = rw (nil-append, nil-append) refl
remove_chars-append p (String.◌∷◌ c s) t = rw cons-append (elim (Bool-cases (p (code c))) [
  | inl gone ↦ rw gone (remove_chars-append p s t)
  | inr kept ↦ rw kept (rw (cons-append, remove_chars-append p s t) refl)
])

-- Nothing is removed of a text of characters that stay.
pub remove_chars_none :
    (p q : ℕ → Bool) (s : String)
    → ((c : ℕ) → q c ≡ true → p c ≡ false)
    → all_chars q s ≡ true
    → remove_chars p s ≡ s
unfolding remove_chars all_chars
remove_chars_none p q String.[] k h = refl
remove_chars_none p q (String.◌∷◌ c s) k h =
    let stays : p (code c) ≡ false = k (code c) (ground arith) in
    rw stays (ap (String.◌∷◌ c) (remove_chars_none p q s k (ground arith)))

pub all_chars-weaken :
    (p q : ℕ → Bool) (s : String)
    → ((c : ℕ) → p c ≡ true → q c ≡ true)
    → all_chars p s ≡ true
    → all_chars q s ≡ true
unfolding all_chars
all_chars-weaken p q String.[] k h = refl
all_chars-weaken p q (String.◌∷◌ c s) k h =
    let stays : q (code c) ≡ true = k (code c) (ground arith) in
    rw stays (all_chars-weaken p q s k (ground arith))
