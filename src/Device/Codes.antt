-- ===== src/Device/Codes.antt =====
-- The user codes of crates/identity-worker/src/device.rs. Random choices are arguments.
use moesegfault_indentity.Base.{
  ℕ, ◌≡◌, refl, ap, ap₂, ◌∙◌, ◌≡⟨◌⟩◌, ◌∎, Bool, true, false, not, ◌&&◌, ◌||◌, Option, none, some,
  [], ◌∷◌, ◌++◌, map, ◌==◌, if◌then◌else◌, length, take, drop, all, keep, keep-append,
  take-append-drop, all-take, all-drop, arith, &&-eq-true,
}
use mathlib.Core.List.{map-append}
use moesegfault_indentity.Base.Text.{
  Text, text, bytes, byte_len, has_char, is_ascii_whitespace, to_lower, to_upper,
  to_ascii_lowercase,
}
use moesegfault_indentity.Base.Text.Ascii.{IsAsciiTest, all-bytes-true, ascii_of_all}

abbrev pub user_alphabet : Text
user_alphabet = text "ABCDEFGHJKLMNPQRSTUVWXYZ23456789"

-- seconds
abbrev pub lifetime : ℕ
lifetime = 600

abbrev pub in_alphabet : ℕ → Bool
in_alphabet b = has_char b user_alphabet

abbrev pub is_filler : ℕ → Bool
is_filler c = is_ascii_whitespace c || c == b'-'

unfoldable pub normalize_user_code : Text → Option Text
normalize_user_code input =
    let value = map to_upper (keep (λ c. not (is_filler c)) input) in
    if byte_len value == 8 && all in_alphabet (bytes value) then some value else none

unfoldable pub formatted_user_code : Text → Text
formatted_user_code code = take 4 code ++ b'-' ∷ drop 4 code

-- Eight characters of the alphabet: no `I`, `O`, `0` or `1`, which are taken for one another.
pub record IsUserCode (code : Text) : Type 0 where
  pub eight : length code ≡ 8
  pub chars : all in_alphabet code ≡ true

in_alphabet-IsAsciiTest : IsAsciiTest in_alphabet
in_alphabet-IsAsciiTest b h = ground arith

-- Whatever is normalised is a user code.
pub normalize_user_code-IsUserCode : (s v : Text) → normalize_user_code s ≡ some v → IsUserCode v
unfolding normalize_user_code
normalize_user_code-IsUserCode s v h =
    let w = map to_upper (keep (λ c. not (is_filler c)) s) in
    let (plain, chars) = all-bytes-true in_alphabet w in_alphabet-IsAsciiTest (ground arith) in
    let same : w ≡ v = ground arith in
    rw (← same) (record { eight = ground (arith, plain); chars = chars })

-- What `normalize_user_code` keeps of a text.
abbrev canonical : Text → Text
canonical s = map to_upper (keep (λ c. not (is_filler c)) s)

canonical-append : (s t : Text) → canonical (s ++ t) ≡ canonical s ++ canonical t
canonical-append s t =
    ap (map to_upper) (keep-append (λ c. not (is_filler c)) s t)
    ∙ map-append to_upper (keep (λ c. not (is_filler c)) s) (keep (λ c. not (is_filler c)) t)

char_survives :
    (c : ℕ) → in_alphabet c ≡ true → (is_filler (to_lower c) ≡ false) × (to_upper (to_lower c) ≡ c)
char_survives c h = ground arith

canonical-cons :
    (c : ℕ) (s : Text) → is_filler c ≡ false → canonical (c ∷ s) ≡ to_upper c ∷ canonical s
canonical-cons c s h = keep_step (is_filler c) h
  where
    keep_step :
        (b : Bool)
        → b ≡ false
        → map to_upper (elim (not b) [
          | true ↦ c ∷ keep (λ c. not (is_filler c)) s
          | false ↦ keep (λ c. not (is_filler c)) s
        ])
          ≡ to_upper c ∷ canonical s
    keep_step false h = refl
    keep_step true h = cc

canonical-lower : (s : Text) → all in_alphabet s ≡ true → canonical (to_ascii_lowercase s) ≡ s
canonical-lower [] h = refl
canonical-lower (c ∷ s) h =
    let (here, rest) = &&-eq-true (in_alphabet c) (all in_alphabet s) h in
    let (kept, same) = char_survives c here in
    canonical-cons (to_lower c) (to_ascii_lowercase s) kept
    ∙ ap₂ (λ (x : ℕ) (t : Text). x ∷ t) same (canonical-lower s rest)

canonical-formatted :
    (code : Text)
    → all in_alphabet code ≡ true
    → canonical (to_ascii_lowercase (formatted_user_code code)) ≡ code
unfolding formatted_user_code
canonical-formatted code h =
    canonical (to_ascii_lowercase (take 4 code ++ b'-' ∷ drop 4 code))
    ≡⟨ ap canonical (map-append to_lower (take 4 code) (b'-' ∷ drop 4 code)) ⟩
      canonical (to_ascii_lowercase (take 4 code) ++ b'-' ∷ to_ascii_lowercase (drop 4 code))
    ≡⟨ canonical-append (to_ascii_lowercase (take 4 code))
        (b'-' ∷ to_ascii_lowercase (drop 4 code)) ⟩
      canonical (to_ascii_lowercase (take 4 code)) ++ canonical (to_ascii_lowercase (drop 4 code))
    ≡⟨ ap₂ (◌++◌ {A = ℕ}) (canonical-lower (take 4 code) (all-take in_alphabet 4 code h))
        (canonical-lower (drop 4 code) (all-drop in_alphabet 4 code h)) ⟩
      take 4 code ++ drop 4 code
    ≡⟨ take-append-drop 4 code ⟩ code ∎

-- A user code, displayed with its dash and typed back in lower case, is recognised as itself.
pub normalize-formatted :
    (code : Text)
    → IsUserCode code
    → normalize_user_code (to_ascii_lowercase (formatted_user_code code)) ≡ some code
unfolding normalize_user_code
normalize-formatted code h = ground (
  arith,
  canonical-formatted code h.chars,
  h.eight,
  h.chars,
  ascii_of_all in_alphabet code in_alphabet-IsAsciiTest h.chars,
)
