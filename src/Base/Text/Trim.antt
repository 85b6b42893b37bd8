-- ===== src/Base/Text/Trim.antt =====
-- Trimming.
use Prim.Native.Nat.{ℕ}
use mathlib.Core.Bool.{Bool, true, false, not}
use mathlib.Core.List.{[], ◌∷◌, ◌++◌}
use mathlib.Core.Path.{◌≡◌, refl, ap, ◌∙◌}
use native.Mathlib.Omega.{arith}
use moesegfault_indentity.Base.Lists.{all}
use moesegfault_indentity.Base.Text.{
  Text, is_empty, trim_start_if, trim_end_if, trim, is_whitespace,
}

-- The first character, if there is one, fails the test.
abbrev pub starts_clean : (ℕ → Bool) → Text → Bool
starts_clean p [] = true
starts_clean p (c ∷ s) = not (p c)

module _ (p : ℕ → Bool) where
  pub starts_clean-trim_start : (s : Text) → starts_clean p (trim_start_if p s) ≡ true
  unfolding trim_start_if
  starts_clean-trim_start [] = refl
  starts_clean-trim_start (c ∷ s) = ground (arith, starts_clean-trim_start s)

  pub trim_start_of_clean : (s : Text) → starts_clean p s ≡ true → trim_start_if p s ≡ s
  unfolding trim_start_if
  trim_start_of_clean [] h = refl
  trim_start_of_clean (c ∷ s) h = ground arith

  pub trim_end_idem : (s : Text) → trim_end_if p (trim_end_if p s) ≡ trim_end_if p s
  unfolding trim_end_if
  trim_end_idem [] = refl
  trim_end_idem (c ∷ s) = ground (arith, trim_end_idem s)

  pub starts_clean-trim_end :
      (s : Text) → starts_clean p s ≡ true → starts_clean p (trim_end_if p s) ≡ true
  unfolding trim_end_if
  starts_clean-trim_end [] h = refl
  starts_clean-trim_end (c ∷ s) h = ground arith

  pub trim_end_of_all : (s : Text) → all (λ c. not (p c)) s ≡ true → trim_end_if p s ≡ s
  unfolding trim_end_if
  trim_end_of_all [] h = refl
  trim_end_of_all (c ∷ s) h = ground (arith, trim_end_of_all s)

  pub starts_clean_of_all : (s : Text) → all (λ c. not (p c)) s ≡ true → starts_clean p s ≡ true
  starts_clean_of_all [] h = refl
  starts_clean_of_all (c ∷ s) h = ground arith

  is_empty-append : (s : Text) (c : ℕ) (t : Text) → is_empty (s ++ c ∷ t) ≡ false
  is_empty-append [] c t = refl
  is_empty-append (x ∷ s) c t = refl

  pub trim_end-append :
      (s : Text) (c : ℕ) (t : Text)
      → all (λ c. not (p c)) (c ∷ t) ≡ true
      → trim_end_if p (s ++ c ∷ t) ≡ s ++ c ∷ t
  unfolding trim_end_if
  trim_end-append [] c t h = trim_end_of_all (c ∷ t) h
  trim_end-append (x ∷ s) c t h = ground (arith, trim_end-append s c t h, is_empty-append s c t)

pub trim_idem : (s : Text) → trim (trim s) ≡ trim s
trim_idem s =
    let t = trim_start_if is_whitespace s in
    ap (trim_end_if is_whitespace) (
      trim_start_of_clean is_whitespace (trim_end_if is_whitespace t)
        (starts_clean-trim_end is_whitespace t (starts_clean-trim_start is_whitespace s)))
    ∙ trim_end_idem is_whitespace t

pub trim_of_all : (s : Text) → all (λ c. not (is_whitespace c)) s ≡ true → trim s ≡ s
trim_of_all s h =
    rw (trim_start_of_clean is_whitespace s (starts_clean_of_all is_whitespace s h))
      (trim_end_of_all is_whitespace s h)
