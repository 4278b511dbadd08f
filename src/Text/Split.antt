-- ===== src/Text/Split.antt =====
-- `split` at a separator, and the text put together again.
use Prim.Native.Char.{Char, code}
use Prim.Native.String.{String}
use text.Mathlib.TextLemmas.{nil-append, cons-append, append-nil, append_assoc}
use openkey.Common.{ℕ, ◌≡◌, refl, true, false, not, [], ◌∷◌, arith, ap, nat_eq, sym, ◌∙◌}
use openkey.Text.{◌<>◌, of_char, all_chars, split, split_from}

-- The text has no character of that code.
abbrev pub IsFree : ℕ → String → Type 0
IsFree sep s = all_chars (λ c. not (nat_eq c sep)) s ≡ true

-- Up to the separator a text is one part.
pub split_from-append :
    (sep : ℕ) (cur s rest : String)
    → IsFree sep s
    → split_from sep cur (s <> rest) ≡ split_from sep (cur <> s) rest
unfolding split_from all_chars
split_from-append sep cur String.[] rest h = rw (nil-append, append-nil) refl
split_from-append sep cur (String.◌∷◌ c s) rest h =
    let other : nat_eq (code c) sep ≡ false = ground arith in
    rw cons-append (
      rw other (
        split_from-append sep (cur <> of_char c) s rest (ground arith)
        ∙ ap (λ (t : String). split_from sep t rest)
            (append_assoc cur (of_char c) s
              ∙ ap (λ (t : String). cur <> t)
                  (cons-append c "" s ∙ ap (String.◌∷◌ c) (nil-append s)))))

pub split-append :
    (sep : ℕ) (s rest : String) (c : Char)
    → IsFree sep s
    → nat_eq (code c) sep ≡ true
    → split sep (s <> (of_char c <> rest)) ≡ s ∷ split sep rest
unfolding split_from
split-append sep s rest c h k =
    rw (split_from-append sep "" s (of_char c <> rest) h, nil-append, cons-append, nil-append, k)
      refl

pub split_last : (sep : ℕ) (s : String) → IsFree sep s → split sep s ≡ s ∷ []
unfolding split_from
split_last sep s h =
    ap (λ (t : String). split sep t) (sym (append-nil s))
    ∙ split_from-append sep "" s "" h
    ∙ ap (λ (t : String). t ∷ []) (nil-append s)
