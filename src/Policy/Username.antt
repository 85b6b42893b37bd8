-- ===== src/Policy/Username.antt =====
-- What `normalize_username` accepts, and its canonical form.
use moesegfault_indentity.Base.{
  ℕ, ◌≤◌, ◌≡◌, refl, sym, ap, ◌∙◌, ◌↔◌, Bool, true, not, ◌&&◌, ◌||◌, [], ◌∷◌, ◌==◌, in_range,
  if◌then◌else◌, length, all, any, any-not, all_imp, ok, err, arith, Bool-cases, inl, inr,
}
use moesegfault_indentity.Base.Text.{
  Text, bytes, is_ascii_lowercase, is_ascii_digit, is_ascii_alphanumeric, to_ascii_lowercase, trim,
  is_whitespace,
}
use moesegfault_indentity.Base.Text.Ascii.{IsAsciiTest, any-bytes-false, ascii_of_all}
use moesegfault_indentity.Base.Text.Trim.{trim_of_all}
use moesegfault_indentity.Policy.{invalid_username, first_is, normalize_username}

-- A lower-case letter, a digit or `_`.
abbrev pub is_name_char : ℕ → Bool
is_name_char c = is_ascii_lowercase c || is_ascii_digit c || c == b'_'

-- A user name in its stored form.
pub record IsUsername (v : Text) : Type 0 where
  pub long : 3 ≤ length v
  pub short : length v ≤ 32
  pub letter : first_is is_ascii_lowercase v ≡ true
  pub chars : all is_name_char v ≡ true

abbrev is_word_byte : ℕ → Bool
is_word_byte c = is_ascii_alphanumeric c || c == b'_'

all-name_char :
    (t : Text)
    → all is_word_byte (to_ascii_lowercase t) ≡ true
    → all is_name_char (to_ascii_lowercase t) ≡ true
all-name_char [] h = refl
all-name_char (c ∷ t) h = ground (arith, all-name_char t)

to_ascii_lowercase_of_name : (v : Text) → all is_name_char v ≡ true → to_ascii_lowercase v ≡ v
to_ascii_lowercase_of_name [] h = refl
to_ascii_lowercase_of_name (c ∷ v) h = ground (arith, to_ascii_lowercase_of_name v)

pub trim_of_name : (v : Text) → all is_name_char v ≡ true → trim v ≡ v
unfolding is_whitespace
trim_of_name v h =
    trim_of_all v (all_imp is_name_char (λ c. not (is_whitespace c)) v (λ c e. ground arith) h)

module _ (w : Text) where
  -- The tests of `normalize_username` on its lower-cased input, and what they establish.
  abbrev passes : Bool
  passes =
      in_range 3 32 (length (bytes w))
      && first_is is_ascii_lowercase (bytes w)
      && not (any (λ c. not (is_word_byte c)) (bytes w))

is_word_byte-IsAsciiTest : IsAsciiTest is_word_byte
is_word_byte-IsAsciiTest b h = ground arith

passes-IsUsername :
    (t : Text) → passes (to_ascii_lowercase t) ≡ true → IsUsername (to_ascii_lowercase t)
passes-IsUsername t h =
    let w : Text = to_ascii_lowercase t in
    let (plain, words) = any-bytes-false is_word_byte w is_word_byte-IsAsciiTest (ground arith) in
    let h' : (in_range 3 32 (length w)
          && first_is is_ascii_lowercase w
          && not (any (λ c. not (is_word_byte c)) w))
        ≡ true =
      rw plain at h in
    record {
      long = ground arith;
      short = ground arith;
      letter = ground arith;
      chars = all-name_char t words;
    }

IsUsername-passes : (v : Text) → IsUsername v → passes v ≡ true
IsUsername-passes v u =
    let words : all is_word_byte v ≡ true =
      all_imp is_name_char is_word_byte v (λ c e. ground arith) u.chars in
    let plain : bytes v ≡ v = ascii_of_all is_word_byte v is_word_byte-IsAsciiTest words in
    rw plain (ground (arith, u.long, u.short, u.letter, words, any-not is_word_byte v))

normalize_username_lem :
    (s : Text)
    → normalize_username s ≡ (
        if passes (to_ascii_lowercase (trim s))
        then ok (to_ascii_lowercase (trim s))
        else err invalid_username)
unfolding normalize_username
normalize_username_lem s = ground arith

-- Accepted are exactly the texts whose trimmed lower-case form is a user name, and that form is
-- the result.
pub normalize_username-eq-ok_iff :
    (s v : Text)
    → (normalize_username s ≡ ok v) ↔ ((v ≡ to_ascii_lowercase (trim s)) × IsUsername v)
normalize_username-eq-ok_iff s v = (
  λ h. elim (Bool-cases (passes (to_ascii_lowercase (trim s)))) [
    | inl e ↦
        let same : to_ascii_lowercase (trim s) ≡ v = ground (arith, normalize_username_lem s) in
        (sym same, rw (← same) (passes-IsUsername (trim s) e))
    | inr e ↦ absurd (ground (arith, normalize_username_lem s))
  ],
  λ (e, u). normalize_username_lem s ∙ (rw (← e, IsUsername-passes v u)),
)

-- A user name that `normalize_username` returned is accepted again as it is.
pub normalize_username_idem :
    (s v : Text) → normalize_username s ≡ ok v → normalize_username v ≡ ok v
normalize_username_idem s v h =
    let (_, u) = (normalize_username-eq-ok_iff s v).0 h in
    (normalize_username-eq-ok_iff v v).1 (
      sym (ap to_ascii_lowercase (trim_of_name v u.chars) ∙ to_ascii_lowercase_of_name v u.chars),
      u,
    )
