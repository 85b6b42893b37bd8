-- ===== src/Policy/Login.antt =====
-- `LoginIdentifier::parse`: precedence, canonical values, and its agreement with registration.
use moesegfault_indentity.Base.{
  ◌≡◌, refl, ◌∙◌, true, false, not, [], ◌∷◌, none, some, ◌⊎◌, leb, in_range, if◌then◌else◌, length,
  all, all_imp, keep_of_all, Result, ok, err, arith, Option-cases, inl, inr,
}
use moesegfault_indentity.Base.Text.{
  Text, is_ascii_digit, trim, starts_with, has_char, strip_prefix, is_whitespace,
}
use moesegfault_indentity.Base.Text.Ascii.{all-bytes-true, ascii_of_all, has_char_of_all}
use moesegfault_indentity.Base.Text.Trim.{trim_of_all}
use moesegfault_indentity.Policy.{
  PolicyError, compact_mobile_number, normalize_mobile, normalize_email, normalize_username,
  LoginIdentifier, login_as, LoginIdentifierKind, username, email, mobile, map_login, parse_mobile,
  parse_login, is_separator,
}
use moesegfault_indentity.Policy.Username.{
  IsUsername, is_name_char, trim_of_name, normalize_username-eq-ok_iff, normalize_username_idem,
}
use moesegfault_indentity.Policy.Email.{address, Normalized-of_ok, normalize_email_idem}
use moesegfault_indentity.Policy.Mobile.{is_ascii_digit-IsAsciiTest, normalize_mobile-IsE164}

module _ (ds : Text) (digits : all is_ascii_digit ds ≡ true) where
  no_at : has_char b'@' (b'+' ∷ ds) ≡ false
  no_at = has_char_of_all is_ascii_digit b'@' ds refl digits

  trim_plus : trim (b'+' ∷ ds) ≡ b'+' ∷ ds
  unfolding is_whitespace
  trim_plus =
      trim_of_all (b'+' ∷ ds)
        (all_imp is_ascii_digit (λ c. not (is_whitespace c)) ds (λ c e. ground arith) digits)

  compact_plus : compact_mobile_number (b'+' ∷ ds) ≡ b'+' ∷ ds
  unfolding compact_mobile_number
  compact_plus =
      keep_of_all (λ c. not (is_separator c)) (b'+' ∷ ds)
        (all_imp is_ascii_digit (λ c. not (is_separator c)) ds (λ c e. ground arith) digits)

  parse_mobile-digits :
      parse_mobile (b'+' ∷ ds)
      ≡ (if in_range 5 15 (length ds) then some (login_as mobile (b'+' ∷ ds)) else none)
  unfolding parse_mobile
  parse_mobile-digits =
      ground (arith, compact_plus, ascii_of_all is_ascii_digit ds is_ascii_digit-IsAsciiTest digits)

  -- A `+` and digits are a mobile login if there are five to fifteen digits, and nothing otherwise.
  parse_login-digits :
      parse_login (b'+' ∷ ds)
      ≡ (if in_range 5 15 (length ds) then some (login_as mobile (b'+' ∷ ds)) else none)
  unfolding parse_login
  parse_login-digits = ground (arith, no_at, trim_plus, parse_mobile-digits)

-- A number that registration accepts is, as stored, a mobile login with that very value, unless
-- it has fewer than five digits: then the stored value is no login.
pub parse_login-normalize_mobile :
    (code number v : Text)
    → normalize_mobile code number ≡ ok v
    → parse_login v ≡ (if leb 6 (length v) then some (login_as mobile v) else none)
parse_login-normalize_mobile code number v h =
    let e = normalize_mobile-IsE164 code number v h in
    rw e.plus (parse_login-digits e.digits e.all_digits ∙ ground (arith, e.short))

map_login-eq-some :
    (k : LoginIdentifierKind) (r : Result PolicyError Text) (l : LoginIdentifier)
    → map_login k r ≡ some l
    → (v : Text) × (r ≡ ok v) × (l ≡ login_as k v)
map_login-eq-some k (ok v) l h = (v, refl, ground arith)
map_login-eq-some k (err e) l h = cc

strip_plus-eq-some : (s ds : Text) → strip_prefix (b'+' ∷ []) s ≡ some ds → s ≡ b'+' ∷ ds
strip_plus-eq-some [] ds h = cc
strip_plus-eq-some (c ∷ s) ds h = ground arith

record IsMobileLogin (l : LoginIdentifier) : Type 0 where
  digits : Text
  same : l ≡ login_as mobile (b'+' ∷ digits)
  all_digits : all is_ascii_digit digits ≡ true
  count : in_range 5 15 (length digits) ≡ true

parse_mobile-eq-some : (t : Text) (l : LoginIdentifier) → parse_mobile t ≡ some l → IsMobileLogin l
unfolding parse_mobile
parse_mobile-eq-some t l h =
    elim (Option-cases (strip_prefix (b'+' ∷ []) (compact_mobile_number t))) [
      | inl e ↦ absurd (ground arith)
      | inr (ds, e) ↦
          let (plain, digits) =
            all-bytes-true is_ascii_digit ds is_ascii_digit-IsAsciiTest (ground arith) in
          record {
            digits = ds;
            same = ground (arith, strip_plus-eq-some (compact_mobile_number t) ds e);
            all_digits = digits;
            count = ground arith;
          }
    ]

name_has_no_at : (v : Text) → IsUsername v → has_char b'@' v ≡ false
name_has_no_at v u = has_char_of_all is_name_char b'@' v refl u.chars

name_has_no_plus : (v : Text) → IsUsername v → starts_with b'+' v ≡ false
name_has_no_plus [] u = refl
name_has_no_plus (c ∷ v) u = ground (arith, u.chars)

has_at-address : (l d : Text) → has_char b'@' (address l d) ≡ true
has_at-address [] d = refl
has_at-address (x ∷ l) d = ground (arith, has_at-address l d)

-- Each kind of value is parsed as that kind again.
parse_login_email :
    (s v : Text) → normalize_email s ≡ ok v → parse_login v ≡ some (login_as email v)
unfolding parse_login
parse_login_email s v h =
    let n = Normalized-of_ok s v h in
    let at : has_char b'@' v ≡ true = rw n.stored (has_at-address n.local _) in
    ground (arith, normalize_email_idem s v h)

parse_login_username :
    (s v : Text) → normalize_username s ≡ ok v → parse_login v ≡ some (login_as username v)
unfolding parse_login
parse_login_username s v h =
    let (_, u) = (normalize_username-eq-ok_iff s v).0 h in
    ground (
      arith,
      name_has_no_at v u,
      trim_of_name v u.chars,
      name_has_no_plus v u,
      normalize_username_idem s v h,
    )

parse_login_mobile : (l : LoginIdentifier) → IsMobileLogin l → parse_login l.value ≡ some l
parse_login_mobile l m = ground (arith, m.same, m.count, parse_login-digits m.digits m.all_digits)

parse_login_cases :
    (s : Text) (l : LoginIdentifier)
    → parse_login s ≡ some l
    → (map_login email (normalize_email s) ≡ some l)
      ⊎ (parse_mobile (trim s) ≡ some l)
      ⊎ (map_login username (normalize_username s) ≡ some l)
unfolding parse_login
parse_login_cases s l h = ground arith

-- The value that a login resolves to is a fixed point: parsed again it gives the same kind and the
-- same value.
pub parse_login_idem :
    (s : Text) (l : LoginIdentifier) → parse_login s ≡ some l → parse_login l.value ≡ some l
parse_login_idem s l h = elim (parse_login_cases s l h) [
  | inl e ↦
      let (v, good, same) = map_login-eq-some email _ l e in rw same (parse_login_email s v good)
  | inr (inl m) ↦ parse_login_mobile l (parse_mobile-eq-some (trim s) l m)
  | inr (inr u) ↦
      let (v, good, same) = map_login-eq-some username _ l u in
      rw same (parse_login_username s v good)
]
