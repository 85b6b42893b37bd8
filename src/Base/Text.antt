-- ===== src/Base/Text.antt =====
-- Text as a list of code points, and the operations of Rust's `str`, `char` and `u8` that the
-- program calls.
pub mod Ascii
pub mod Trim
pub mod Split
pub mod Decimal
use Prim.Native.Char.{code}
use Prim.Native.Nat.{ℕ, ◌+◌, ◌-◌, ◌*◌, ◌/◌, ◌%◌, compare, Ordering}
use Prim.Native.String.{String}
use mathlib.Core.Bool.{Bool, true, false, not, ◌&&◌, ◌||◌}
use mathlib.Core.List.{List, [], ◌∷◌, ◌++◌, map}
use mathlib.Core.Option.{Option, none, some}
use moesegfault_indentity.Base.Tests.{ltb, leb, ◌==◌, if◌then◌else◌, in_range}
use moesegfault_indentity.Base.Lists.{length, all, any}

-- The code points of a `str`.
abbrev pub Text : Type 0
Text = List ℕ

-- A literal of the source.
abbrev pub text : String → Text
text String.[] = []
text (String.◌∷◌ c s) = code c ∷ text s

-- `==` of two texts.
abbrev pub eq_text : Text → Text → Bool
eq_text [] [] = true
eq_text [] (_ ∷ _) = false
eq_text (_ ∷ _) [] = false
eq_text (a ∷ s) (b ∷ t) = a == b && eq_text s t

-- `slice::contains` at texts
abbrev pub mem_text : Text → List Text → Bool
mem_text t ts = any (eq_text t) ts

abbrev pub is_empty : Text → Bool
is_empty [] = true
is_empty (_ ∷ _) = false

-- The bytes of one code point in UTF-8.
abbrev pub encode : ℕ → List ℕ
encode c =
    if ltb c 0x80
    then c ∷ []
    else if ltb c 0x800
    then (0xC0 + c / 64) ∷ (0x80 + c % 64) ∷ []
    else if ltb c 0x10000
    then (0xE0 + c / 4096) ∷ (0x80 + c / 64 % 64) ∷ (0x80 + c % 64) ∷ []
    else (0xF0 + c / 262144) ∷ (0x80 + c / 4096 % 64) ∷ (0x80 + c / 64 % 64) ∷ (0x80 + c % 64) ∷ []

-- `str::as_bytes`, `str::bytes`
unfoldable pub bytes : Text → List ℕ
bytes [] = []
bytes (c ∷ s) = encode c ++ bytes s

-- `str::len`, in bytes
abbrev pub byte_len : Text → ℕ
byte_len s = length (bytes s)

-- `u8::is_ascii_*` and `char::is_ascii_*`
abbrev pub is_ascii_lowercase : ℕ → Bool
is_ascii_lowercase c = in_range b'a' b'z' c

abbrev pub is_ascii_uppercase : ℕ → Bool
is_ascii_uppercase c = in_range b'A' b'Z' c

abbrev pub is_ascii_digit : ℕ → Bool
is_ascii_digit c = in_range b'0' b'9' c

abbrev pub is_ascii_alphanumeric : ℕ → Bool
is_ascii_alphanumeric c = is_ascii_lowercase c || is_ascii_uppercase c || is_ascii_digit c

abbrev pub is_ascii_graphic : ℕ → Bool
is_ascii_graphic c = in_range 0x21 0x7E c

-- space, tab, line feed, form feed, carriage return
abbrev pub is_ascii_whitespace : ℕ → Bool
is_ascii_whitespace c = c == 0x20 || c == 0x09 || c == 0x0A || c == 0x0C || c == 0x0D

abbrev pub to_lower : ℕ → ℕ
to_lower c = if is_ascii_uppercase c then c + 32 else c

abbrev pub to_upper : ℕ → ℕ
to_upper c = if is_ascii_lowercase c then c - 32 else c

-- `str::to_ascii_lowercase`
abbrev pub to_ascii_lowercase : Text → Text
to_ascii_lowercase s = map to_lower s

-- `str::eq_ignore_ascii_case`
abbrev pub eq_ignore_ascii_case : Text → Text → Bool
eq_ignore_ascii_case s t = eq_text (to_ascii_lowercase s) (to_ascii_lowercase t)

-- `char::is_control`: the general category Cc
abbrev pub is_control : ℕ → Bool
is_control c = ltb c 0x20 || in_range 0x7F 0x9F c

-- `char::is_whitespace`: the property White_Space
unfoldable pub is_whitespace : ℕ → Bool
is_whitespace c =
    in_range 0x09 0x0D c
    || c == 0x20
    || c == 0x85
    || c == 0xA0
    || c == 0x1680
    || in_range 0x2000 0x200A c
    || c == 0x2028
    || c == 0x2029
    || c == 0x202F
    || c == 0x205F
    || c == 0x3000

-- `str::trim_start_matches`, `str::trim_start`
unfoldable pub trim_start_if : (ℕ → Bool) → Text → Text
trim_start_if p [] = []
trim_start_if p (c ∷ s) = let rest = trim_start_if p s in if p c then rest else c ∷ s

-- `str::trim_end_matches`, `str::trim_end`
unfoldable pub trim_end_if : (ℕ → Bool) → Text → Text
trim_end_if p [] = []
trim_end_if p (c ∷ s) = let rest = trim_end_if p s in if p c && is_empty rest then [] else c ∷ rest

-- `str::trim`
abbrev pub trim : Text → Text
trim s = trim_end_if is_whitespace (trim_start_if is_whitespace s)

-- `str::starts_with` and `str::ends_with` a character
abbrev pub starts_with : ℕ → Text → Bool
starts_with c [] = false
starts_with c (x ∷ _) = x == c

abbrev pub ends_with : ℕ → Text → Bool
ends_with c [] = false
ends_with c (x ∷ s) = let rest = ends_with c s in if is_empty s then x == c else rest

-- `str::contains` a character
abbrev pub has_char : ℕ → Text → Bool
has_char c s = any (λ x. x == c) s

-- `str::strip_prefix`
abbrev pub strip_prefix : Text → Text → Option Text
strip_prefix [] s = some s
strip_prefix (_ ∷ _) [] = none
strip_prefix (c ∷ p) (x ∷ s) = let rest = strip_prefix p s in if x == c then rest else none

-- `str::split_once`
unfoldable pub split_once : ℕ → Text → Option (Text × Text)
split_once c [] = none
split_once c (x ∷ s) =
    let rest = split_once c s in
    if x == c then some ([], s) else elim rest [ none ↦ none | some (a, b) ↦ some (x ∷ a, b) ]

-- `str::rsplit_once`
unfoldable pub rsplit_once : ℕ → Text → Option (Text × Text)
rsplit_once c [] = none
rsplit_once c (x ∷ s) = elim (rsplit_once c s) [
  | none ↦ if x == c then some ([], s) else none
  | some (a, b) ↦ some (x ∷ a, b)
]

-- `str::split` by one character: the pieces between its occurrences, at least one
abbrev pub prepend : ℕ → List Text → List Text
prepend x [] = (x ∷ []) ∷ []
prepend x (p ∷ ps) = (x ∷ p) ∷ ps

unfoldable pub split : ℕ → Text → List Text
split c [] = [] ∷ []
split c (x ∷ s) = let rest = split c s in if x == c then [] ∷ rest else prepend x rest

-- `str::split_ascii_whitespace`: the pieces that are not empty.
abbrev close_word : Text → List Text → List Text
close_word [] ws = ws
close_word (c ∷ w) ws = (c ∷ w) ∷ ws

-- the piece that the text begins with, and the pieces behind it
abbrev split_words : Text → Text × List Text
split_words [] = ([], [])
split_words (c ∷ s) =
    let (w, ws) = split_words s in
    if is_ascii_whitespace c then ([], close_word w ws) else (c ∷ w, ws)

unfoldable pub split_ascii_whitespace : Text → List Text
split_ascii_whitespace s = close_word (split_words s).0 (split_words s).1
