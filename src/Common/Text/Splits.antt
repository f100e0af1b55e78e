-- ===== src/Common/Text/Splits.antt =====
-- Texts that are split at a character.
use ansible_playbooks.Common.{
  ℕ, ◌≡◌, refl, ap, ◌∙◌, String, ◌<>◌, Bool, true, false, List, [], ◌∷◌, ◌++◌, arith,
}
use Prim.Native.Char.{Char, code}
use text.Mathlib.TextLemmas.{cons-append, nil-append}
use ansible_playbooks.Common.Text.{split_by, push_head}
use ansible_playbooks.Common.Text.Decimal.{Lacks, split_by-piece}

pub split_by-Lacks : (at : ℕ → Bool) (s : String) → Lacks at s → split_by at s ≡ s ∷ []
unfolding split_by
split_by-Lacks at String.[] lacks = refl
split_by-Lacks at (String.◌∷◌ c s) lacks = ground (arith, lacks.0, split_by-Lacks at s lacks.1)

pub Lacks-append : (at : ℕ → Bool) (s t : String) → Lacks at s → Lacks at t → Lacks at (s <> t)
Lacks-append at String.[] t l m = rw nil-append m
Lacks-append at (String.◌∷◌ c s) t l m = rw cons-append (l.0, Lacks-append at s t l.1 m)

-- A text of one character in front of another text.
pub one-append : (c : Char) (t : String) → String.◌∷◌ c "" <> t ≡ String.◌∷◌ c t
one-append c t = cons-append c "" t ∙ ap (λ u. String.◌∷◌ c u) (nil-append t)

pub split_by-mark :
    (at : ℕ → Bool) (s t : String) (c : Char)
    → Lacks at s
    → at (code c) ≡ true
    → split_by at (s <> (String.◌∷◌ c "" <> t)) ≡ s ∷ split_by at t
split_by-mark at s t c lacks stop =
    ap (λ u. split_by at (s <> u)) (one-append c t) ∙ split_by-piece at s t c lacks stop

abbrev is_empty : List String → Bool
is_empty [] = true
is_empty (x ∷ xs) = false

push_head-append :
    (c : Char) (xs ys : List String)
    → is_empty xs ≡ false
    → push_head c (xs ++ ys) ≡ push_head c xs ++ ys
push_head-append c [] ys full = cc
push_head-append c (x ∷ xs) ys full = refl

push_head-full : (c : Char) (xs : List String) → is_empty (push_head c xs) ≡ false
push_head-full c [] = refl
push_head-full c (x ∷ xs) = refl

split_by-full : (at : ℕ → Bool) (s : String) → is_empty (split_by at s) ≡ false
unfolding split_by
split_by-full at String.[] = refl
split_by-full at (String.◌∷◌ c s) = ground (arith, push_head-full c (split_by at s))

-- A text that ends at the character is split by itself.
pub split_by-append :
    (at : ℕ → Bool) (s t : String) (c : Char)
    → at (code c) ≡ true
    → split_by at (s <> (String.◌∷◌ c "" <> t)) ≡ split_by at s ++ split_by at t
unfolding split_by
split_by-append at String.[] t c stop = split_by-mark at "" t c tt stop
split_by-append at (String.◌∷◌ d s) t c stop = rw cons-append (
    ground (
      arith,
      split_by-append at s t c stop,
      push_head-append d (split_by at s) (split_by at t) (split_by-full at s),
    ))
