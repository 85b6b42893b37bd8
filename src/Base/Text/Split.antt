-- ===== src/Base/Text/Split.antt =====
-- Splitting at a character.
use Prim.Native.Nat.{ℕ}
use mathlib.Core.Bool.{false, ◌||◌}
use mathlib.Core.List.{[], ◌∷◌, ◌++◌}
use mathlib.Core.Logic.{inl, inr}
use mathlib.Core.Option.{none, some}
use mathlib.Core.Path.{◌≡◌, refl}
use native.Mathlib.Omega.{arith}
use moesegfault_indentity.Base.Tests.{Option-cases, ◌==◌}
use moesegfault_indentity.Base.Lists.{any-append}
use moesegfault_indentity.Base.Text.{Text, has_char, rsplit_once, split, split_once}

rsplit_once_of_absent : (c : ℕ) (s : Text) → has_char c s ≡ false → rsplit_once c s ≡ none
unfolding rsplit_once
rsplit_once_of_absent c [] h = refl
rsplit_once_of_absent c (x ∷ s) h = ground (arith, rsplit_once_of_absent c s)

has_char_of_none : (c : ℕ) (s : Text) → rsplit_once c s ≡ none → has_char c s ≡ false
unfolding rsplit_once
has_char_of_none c [] h = refl
has_char_of_none c (x ∷ s) h = ground (arith, has_char_of_none c s)

-- The last occurrence: the text is put together again, and the right part has no other.
pub rsplit_once_sound :
    (c : ℕ) (s : Text) (l r : Text)
    → rsplit_once c s ≡ some (l, r)
    → (s ≡ l ++ c ∷ r) × (has_char c r ≡ false)
unfolding rsplit_once
rsplit_once_sound c [] l r h = cc
rsplit_once_sound c (x ∷ s) l r h = elim (Option-cases (rsplit_once c s)) [
  | inl e ↦ ground (arith, has_char_of_none c s e)
  | inr ((a, b), e) ↦ ground (arith, rsplit_once_sound c s a b e)
]

pub rsplit_once-append :
    (c : ℕ) (l r : Text) → has_char c r ≡ false → rsplit_once c (l ++ c ∷ r) ≡ some (l, r)
unfolding rsplit_once
rsplit_once-append c [] r h = ground (arith, rsplit_once_of_absent c r h)
rsplit_once-append c (x ∷ l) r h = ground (arith, rsplit_once-append c l r h)

pub has_char-append : (c : ℕ) (s t : Text) → has_char c (s ++ t) ≡ (has_char c s || has_char c t)
has_char-append c s t = any-append (λ x. x == c) s t

-- A text without the separator is one piece, and a piece ends at the first separator.
pub split_of_absent : (c : ℕ) (s : Text) → has_char c s ≡ false → split c s ≡ s ∷ []
unfolding split
split_of_absent c [] h = refl
split_of_absent c (x ∷ s) h = ground (arith, split_of_absent c s)

pub split-append :
    (c : ℕ) (s t : Text) → has_char c s ≡ false → split c (s ++ c ∷ t) ≡ s ∷ split c t
unfolding split
split-append c [] t h = ground arith
split-append c (x ∷ s) t h = ground (arith, split-append c s t)

pub split_once-append :
    (c : ℕ) (s t : Text) → has_char c s ≡ false → split_once c (s ++ c ∷ t) ≡ some (s, t)
unfolding split_once
split_once-append c [] t h = ground arith
split_once-append c (x ∷ s) t h = ground (arith, split_once-append c s t)
