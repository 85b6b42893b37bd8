-- ===== src/Policy/Mobile.antt =====
-- The E.164 form that `normalize_mobile` returns.
use moesegfault_indentity.Base.{
  ℕ, ◌+◌, ◌≤◌, ◌≡◌, refl, ap, Bool, true, false, not, ◌||◌, [], ◌∷◌, ◌++◌, ltb, ◌==◌, length, all,
  all-append, length-append, ok, arith, Bool-cases, inl, inr,
}
use moesegfault_indentity.Base.Text.{
  Text, bytes, byte_len, is_ascii_digit, is_empty, trim, starts_with, trim_start_if,
}
use moesegfault_indentity.Base.Text.Ascii.{IsAsciiTest, all-bytes-true}
use moesegfault_indentity.Policy.{compact_mobile_number, normalize_mobile}

-- `+`, then two to fifteen digits that do not start with 0.
pub record IsE164 (v : Text) : Type 0 where
  pub digits : Text
  pub plus : v ≡ b'+' ∷ digits
  pub all_digits : all is_ascii_digit digits ≡ true
  pub country : starts_with b'0' digits ≡ false
  pub long : 2 ≤ length digits
  pub short : length digits ≤ 15

pub is_ascii_digit-IsAsciiTest : IsAsciiTest is_ascii_digit
is_ascii_digit-IsAsciiTest b h = ground arith

abbrev refused : Text → Text → Bool
refused c n =
    is_empty c
    || ltb 3 (byte_len c)
    || starts_with b'0' c
    || not (all is_ascii_digit (bytes c))
    || is_empty n
    || starts_with b'0' n
    || not (all is_ascii_digit (bytes n))
    || ltb 15 (byte_len c + byte_len n)

starts_with-append :
    (k : ℕ) (c n : Text) → is_empty c ≡ false → starts_with k (c ++ n) ≡ starts_with k c
starts_with-append k [] n h = cc
starts_with-append k (x ∷ c) n h = refl

length_of_some : (c : Text) → is_empty c ≡ false → 1 ≤ length c
length_of_some [] h = cc
length_of_some (x ∷ c) h = omega arith

IsE164-of_parts : (c n : Text) → refused c n ≡ false → IsE164 (b'+' ∷ (c ++ n))
IsE164-of_parts c n h =
    let (plain_c, digits_c) =
      all-bytes-true is_ascii_digit c is_ascii_digit-IsAsciiTest (ground arith) in
    let (plain_n, digits_n) =
      all-bytes-true is_ascii_digit n is_ascii_digit-IsAsciiTest (ground arith) in
    let some_c : is_empty c ≡ false = ground arith in
    let some_n : is_empty n ≡ false = ground arith in
    let total : byte_len c + byte_len n ≤ 15 = ground arith in
    record {
      digits = c ++ n;
      plus = refl;
      all_digits = ground (arith, all-append is_ascii_digit c n);
      country = ground (arith, starts_with-append b'0' c n);
      long = omega (arith, length-append c n, length_of_some c some_c, length_of_some n some_n);
      short = omega (arith, length-append c n, ap length plain_c, ap length plain_n);
    }

-- What `normalize_mobile` returns is in E.164 form: the calling code and the number, cleared of
-- separators.
pub normalize_mobile-IsE164 :
    (code number v : Text) → normalize_mobile code number ≡ ok v → IsE164 v
unfolding normalize_mobile
normalize_mobile-IsE164 code number v h =
    let c = trim_start_if (λ c. c == b'+') (trim code) in
    let n = compact_mobile_number number in
    elim (Bool-cases (refused c n)) [
      | inl bad ↦ absurd (ground arith)
      | inr good ↦
          let same : b'+' ∷ (c ++ n) ≡ v = ground arith in rw (← same) (IsE164-of_parts c n good)
    ]
