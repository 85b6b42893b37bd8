-- ===== src/Base/Text/Ascii.antt =====
-- ASCII text: its bytes are its code points, and tests on bytes are tests on code points.
use Prim.Native.Nat.{ℕ, ◌+◌, ◌/◌, ◌<◌}
use mathlib.Core.Bool.{Bool, true, false, not}
use mathlib.Core.List.{[], ◌∷◌, ◌++◌, append_assoc}
use mathlib.Core.Logic.{◌↔◌}
use mathlib.Core.Path.{◌≡◌, refl, sym, ap, ◌∙◌}
use native.Mathlib.Omega.{arith}
use moesegfault_indentity.Base.Tests.{ltb}
use moesegfault_indentity.Base.Lists.{length-append, all, any, all-append, all_imp, any-not}
use moesegfault_indentity.Base.Text.{
  Text, has_char, eq_text, encode, bytes, to_lower, byte_len, to_ascii_lowercase,
}

pub eq_text_refl : (s : Text) → eq_text s s ≡ true
eq_text_refl [] = refl
eq_text_refl (a ∷ s) = ground (arith, eq_text_refl s)

pub eq_of_eq_text : (s t : Text) → eq_text s t ≡ true → s ≡ t
eq_of_eq_text [] [] h = refl
eq_of_eq_text [] (b ∷ t) h = cc
eq_of_eq_text (a ∷ s) [] h = cc
eq_of_eq_text (a ∷ s) (b ∷ t) h = ground (arith, eq_of_eq_text s t)

pub eq_text_sym : (s t : Text) → eq_text s t ≡ eq_text t s
eq_text_sym [] [] = refl
eq_text_sym [] (b ∷ t) = refl
eq_text_sym (a ∷ s) [] = refl
eq_text_sym (a ∷ s) (b ∷ t) = ground (arith, eq_text_sym s t)

pub eq_text_iff : (s t : Text) → (eq_text s t ≡ true) ↔ (s ≡ t)
eq_text_iff s t = (eq_of_eq_text s t, λ e. rw e (eq_text_refl t))

abbrev pub is_ascii : ℕ → Bool
is_ascii c = ltb c 0x80

-- A test that no byte above 0x7F passes.
abbrev pub IsAsciiTest : (ℕ → Bool) → Type 0
IsAsciiTest p = (b : ℕ) → p b ≡ true → b < 0x80

-- Over the bytes such a test says what it says over the code points.
all-encode : (p : ℕ → Bool) (c : ℕ) → IsAsciiTest p → all p (encode c) ≡ p c
all-encode p c a =
    ground (arith, a c, a (0xC0 + c / 64), a (0xE0 + c / 4096), a (0xF0 + c / 262144))

pub all-bytes : (p : ℕ → Bool) (s : Text) → IsAsciiTest p → all p (bytes s) ≡ all p s
unfolding bytes
all-bytes p [] a = refl
all-bytes p (c ∷ s) a = rw (all-append, all-encode p c a, all-bytes p s a)

pub bytes_of_ascii : (s : Text) → all is_ascii s ≡ true → bytes s ≡ s
unfolding bytes
bytes_of_ascii [] h = refl
bytes_of_ascii (c ∷ s) h = ground (arith, bytes_of_ascii s)

-- Bytes that all pass such a test are the code points themselves.
pub ascii_of_all : (p : ℕ → Bool) (s : Text) → IsAsciiTest p → all p s ≡ true → bytes s ≡ s
ascii_of_all p s a h = bytes_of_ascii s (all_imp p is_ascii s (λ c e. ground (arith, a c)) h)

pub all-bytes-true :
    (p : ℕ → Bool) (s : Text)
    → IsAsciiTest p
    → all p (bytes s) ≡ true
    → (bytes s ≡ s) × (all p s ≡ true)
all-bytes-true p s a h = let h' = sym (all-bytes p s a) ∙ h in (ascii_of_all p s a h', h')

pub any-bytes-false :
    (p : ℕ → Bool) (s : Text)
    → IsAsciiTest p
    → any (λ b. not (p b)) (bytes s) ≡ false
    → (bytes s ≡ s) × (all p s ≡ true)
any-bytes-false p s a h = all-bytes-true p s a (ground (arith, any-not p (bytes s)))

pub bytes-append : (s t : Text) → bytes (s ++ t) ≡ bytes s ++ bytes t
unfolding bytes
bytes-append [] t = refl
bytes-append (c ∷ s) t = rw (bytes-append s t, append_assoc)

-- Lower case.
pub to_lower_idem : (c : ℕ) → to_lower (to_lower c) ≡ to_lower c
to_lower_idem c = ground arith

-- Lower-casing keeps lengths, and every test that does not tell the two cases apart.
pub all-to_ascii_lowercase :
    (p : ℕ → Bool) (s : Text)
    → ((c : ℕ) → p (to_lower c) ≡ p c)
    → all p (to_ascii_lowercase s) ≡ all p s
all-to_ascii_lowercase p [] e = refl
all-to_ascii_lowercase p (c ∷ s) e = rw (e c, all-to_ascii_lowercase p s e)

pub any-to_ascii_lowercase :
    (p : ℕ → Bool) (s : Text)
    → ((c : ℕ) → p (to_lower c) ≡ p c)
    → any p (to_ascii_lowercase s) ≡ any p s
any-to_ascii_lowercase p [] e = refl
any-to_ascii_lowercase p (c ∷ s) e = rw (e c, any-to_ascii_lowercase p s e)

pub byte_len-to_ascii_lowercase : (s : Text) → byte_len (to_ascii_lowercase s) ≡ byte_len s
unfolding bytes
byte_len-to_ascii_lowercase [] = refl
byte_len-to_ascii_lowercase (c ∷ s) = ground (
  arith,
  length-append (encode (to_lower c)) (bytes (to_ascii_lowercase s)),
  length-append (encode c) (bytes s),
  byte_len-to_ascii_lowercase s,
)

pub to_ascii_lowercase_idem :
    (s : Text) → to_ascii_lowercase (to_ascii_lowercase s) ≡ to_ascii_lowercase s
to_ascii_lowercase_idem [] = refl
to_ascii_lowercase_idem (c ∷ s) = cc (to_lower_idem c, to_ascii_lowercase_idem s)

-- A character that fails a test does not stand in a text that passes it.
pub has_char_of_all :
    (p : ℕ → Bool) (k : ℕ) (s : Text) → p k ≡ false → all p s ≡ true → has_char k s ≡ false
has_char_of_all p k [] f h = refl
has_char_of_all p k (c ∷ s) f h = ground (arith, has_char_of_all p k s f, ap p {x = c} {y = k})
