-- ===== src/Policy/Email.antt =====
-- The canonical form that `normalize_email` returns.
use moesegfault_indentity.Base.{
  ℕ, ◌+◌, ◌≤◌, ◌≡◌, refl, ap, ◌∙◌, ◌↔◌, Bool, true, false, not, ◌||◌, [], ◌∷◌, ◌++◌, inl, inr, ltb,
  ◌==◌, length, all, any, any-not, all_imp, any-append, length-append, ok, arith, Bool-cases,
  Option-cases,
}
use moesegfault_indentity.Base.Text.{
  Text, bytes, byte_len, is_ascii_alphanumeric, to_lower, is_empty, is_control, to_ascii_lowercase,
  trim, is_whitespace, starts_with, ends_with, has_char, rsplit_once, trim_start_if, trim_end_if,
}
use moesegfault_indentity.Base.Text.Ascii.{
  has_char_of_all, IsAsciiTest, any-bytes-false, ascii_of_all, bytes-append,
  to_ascii_lowercase_idem, all-to_ascii_lowercase, any-to_ascii_lowercase,
  byte_len-to_ascii_lowercase,
}
use moesegfault_indentity.Base.Text.Trim.{
  starts_clean, trim_end-append, trim_start_of_clean, starts_clean-trim_start,
  starts_clean-trim_end,
}
use moesegfault_indentity.Base.Text.Split.{rsplit_once_sound, rsplit_once-append}
use moesegfault_indentity.Policy.{bad_email_parts, normalize_email}

abbrev pub address : Text → Text → Text
address local domain = local ++ b'@' ∷ domain

-- A letter, a digit, `-` or `.`.
abbrev pub is_domain_char : ℕ → Bool
is_domain_char b = is_ascii_alphanumeric b || b == b'-' || b == b'.'

-- An address in its stored form: the local part as typed, the domain in lower case.
pub record IsEmail (local domain : Text) : Type 0 where
  pub fits : byte_len (address local domain) ≤ 254
  pub printable : any is_control (address local domain) ≡ false
  pub local_some : is_empty local ≡ false
  pub local_fits : byte_len local ≤ 64
  pub domain_some : is_empty domain ≡ false
  pub domain_chars : all is_domain_char domain ≡ true
  pub domain_dots : has_char b'.' domain ≡ true
  pub domain_start : starts_with b'.' domain ≡ false
  pub domain_end : ends_with b'.' domain ≡ false
  pub lowered : to_ascii_lowercase domain ≡ domain
  pub trimmed : trim (address local domain) ≡ address local domain

is_domain_char-IsAsciiTest : IsAsciiTest is_domain_char
is_domain_char-IsAsciiTest b h = ground arith

module _ (c : ℕ) (lowers : (x : ℕ) → (to_lower x == c) ≡ (x == c)) where
  starts_with-lower : (d : Text) → starts_with c (to_ascii_lowercase d) ≡ starts_with c d
  starts_with-lower [] = refl
  starts_with-lower (x ∷ d) = lowers x

  has_char-lower : (d : Text) → has_char c (to_ascii_lowercase d) ≡ has_char c d
  has_char-lower [] = refl
  has_char-lower (x ∷ d) = rw (lowers x, has_char-lower d)

  ends_with-lower : (d : Text) → ends_with c (to_ascii_lowercase d) ≡ ends_with c d
  ends_with-lower [] = refl
  ends_with-lower (x ∷ []) = lowers x
  ends_with-lower (x ∷ y ∷ d) = ends_with-lower (y ∷ d)

is_empty-lower : (d : Text) → is_empty (to_ascii_lowercase d) ≡ is_empty d
is_empty-lower [] = refl
is_empty-lower (x ∷ d) = refl

dot-lower : (x : ℕ) → (to_lower x == b'.') ≡ (x == b'.')
dot-lower x = ground arith

domain_char-lower : (x : ℕ) → is_domain_char (to_lower x) ≡ is_domain_char x
domain_char-lower x = ground arith

-- What `bad_email_parts` lets through.
record Parts (l d : Text) : Type 0 where
  local_some : is_empty l ≡ false
  local_fits : byte_len l ≤ 64
  domain_some : is_empty d ≡ false
  domain_chars : all is_domain_char d ≡ true
  domain_dots : has_char b'.' d ≡ true
  domain_start : starts_with b'.' d ≡ false
  domain_end : ends_with b'.' d ≡ false

Parts-of_good : (l d : Text) → bad_email_parts l d ≡ false → Parts l d
Parts-of_good l d h =
    let domain : any (λ b. not (is_domain_char b)) (bytes d) ≡ false = ground arith in
    record {
      local_some = ground arith;
      local_fits = ground arith;
      domain_some = ground arith;
      domain_chars = (any-bytes-false is_domain_char d is_domain_char-IsAsciiTest domain).1;
      domain_dots = ground arith;
      domain_start = ground arith;
      domain_end = ground arith;
    }

good_of_Parts : (l d : Text) → Parts l d → bad_email_parts l d ≡ false
good_of_Parts l d p =
    rw (ascii_of_all is_domain_char d is_domain_char-IsAsciiTest p.domain_chars)
      (ground (arith, any-not is_domain_char d))

Parts-lower : (l d : Text) → Parts l d → Parts l (to_ascii_lowercase d)
Parts-lower l d p = record {
  local_some = p.local_some;
  local_fits = p.local_fits;
  domain_some = is_empty-lower d ∙ p.domain_some;
  domain_chars = all-to_ascii_lowercase is_domain_char d domain_char-lower ∙ p.domain_chars;
  domain_dots = has_char-lower b'.' dot-lower d ∙ p.domain_dots;
  domain_start = starts_with-lower b'.' dot-lower d ∙ p.domain_start;
  domain_end = ends_with-lower b'.' dot-lower d ∙ p.domain_end;
}

-- The length and the printability of the whole address.
byte_len-address : (l d : Text) → byte_len (address l d) ≡ byte_len l + 1 + byte_len d
unfolding bytes
byte_len-address l d =
    ground
      (arith, ap length (bytes-append l (b'@' ∷ d)), length-append (bytes l) (bytes (b'@' ∷ d)))

control-lower : (x : ℕ) → is_control (to_lower x) ≡ is_control x
control-lower x = ground arith

any-address : (l d : Text) → any is_control (address l d) ≡ (any is_control l || any is_control d)
any-address l d = any-append is_control l (b'@' ∷ d)

no_space :
    (d : Text) → all is_domain_char d ≡ true → all (λ c. not (is_whitespace c)) (b'@' ∷ d) ≡ true
unfolding is_whitespace
no_space d h = all_imp is_domain_char (λ c. not (is_whitespace c)) d (λ c e. ground arith) h

starts_clean-append :
    (p : ℕ → Bool) (l s t : Text)
    → is_empty l ≡ false
    → starts_clean p (l ++ s) ≡ starts_clean p (l ++ t)
starts_clean-append p [] s t h = cc
starts_clean-append p (x ∷ l) s t h = refl

-- An address whose domain has no space is trimmed at its end; at its start the local part decides.
trim-address :
    (l d : Text)
    → all is_domain_char d ≡ true
    → starts_clean is_whitespace (address l d) ≡ true
    → trim (address l d) ≡ address l d
trim-address l d h clean =
    ap (trim_end_if is_whitespace) (trim_start_of_clean is_whitespace (address l d) clean)
    ∙ trim_end-append is_whitespace l b'@' d (no_space d h)

starts_clean-trim : (s : Text) → starts_clean is_whitespace (trim s) ≡ true
starts_clean-trim s =
    starts_clean-trim_end is_whitespace (trim_start_if is_whitespace s)
      (starts_clean-trim_start is_whitespace s)

-- The local part is kept, the domain is lower-cased, and the result is in the stored form.
pub record Normalized (s v : Text) : Type 0 where
  pub local : Text
  pub domain : Text
  pub typed : trim s ≡ address local domain
  pub stored : v ≡ address local (to_ascii_lowercase domain)
  pub valid : IsEmail local (to_ascii_lowercase domain)

module _ (s l d : Text) (typed : trim s ≡ address l d) (fits : ltb 254 (byte_len (trim s)) ≡ false)
    (printable : any is_control (trim s) ≡ false) (parts : Parts l d) where
  IsEmail-parts : IsEmail l (to_ascii_lowercase d)
  IsEmail-parts =
      let low = Parts-lower l d parts in
      record {
        fits = ground (
          arith,
          byte_len-address l d,
          byte_len-address l (to_ascii_lowercase d),
          byte_len-to_ascii_lowercase d,
        );
        printable = ground (
          arith,
          any-address l d,
          any-address l (to_ascii_lowercase d),
          any-to_ascii_lowercase is_control d control-lower,
        );
        local_some = low.local_some;
        local_fits = low.local_fits;
        domain_some = low.domain_some;
        domain_chars = low.domain_chars;
        domain_dots = low.domain_dots;
        domain_start = low.domain_start;
        domain_end = low.domain_end;
        lowered = to_ascii_lowercase_idem d;
        trimmed = trim-address l (to_ascii_lowercase d) low.domain_chars (
            starts_clean-append is_whitespace l (b'@' ∷ to_ascii_lowercase d) (b'@' ∷ d)
              parts.local_some
            ∙ (rw (← typed) (starts_clean-trim s)));
      }

abbrev unprintable : Text → Bool
unprintable value = ltb 254 (byte_len value) || any is_control value

-- What `normalize_email` returns is the trimmed input with its domain, the part behind the last `@`,
-- in lower case, and that is a valid address.
pub Normalized-of_ok : (s v : Text) → normalize_email s ≡ ok v → Normalized s v
unfolding normalize_email
Normalized-of_ok s v h = elim (Bool-cases (unprintable (trim s))) [
  | inl bad ↦ absurd (ground arith)
  | inr fine ↦ elim (Option-cases (rsplit_once b'@' (trim s))) [
    | inl missing ↦ absurd (ground arith)
    | inr ((l, d), found) ↦ elim (Bool-cases (bad_email_parts l d)) [
      | inl bad ↦ absurd (ground arith)
      | inr good ↦
          let typed = (rsplit_once_sound b'@' (trim s) l d found).0 in
          record {
            local = l;
            domain = d;
            typed = typed;
            stored = ground arith;
            valid =
                IsEmail-parts s l d typed (ground arith) (ground arith) (Parts-of_good l d good);
          }
    ]
  ]
]

IsEmail-Parts : {l d : Text} → IsEmail l d → Parts l d
IsEmail-Parts e = record {
  local_some = e.local_some;
  local_fits = e.local_fits;
  domain_some = e.domain_some;
  domain_chars = e.domain_chars;
  domain_dots = e.domain_dots;
  domain_start = e.domain_start;
  domain_end = e.domain_end;
}

-- An address in the stored form is accepted and returned as it is.
normalize_email_of_IsEmail :
    (l d : Text) → IsEmail l d → normalize_email (address l d) ≡ ok (address l d)
unfolding normalize_email
normalize_email_of_IsEmail l d e =
    let good = good_of_Parts l d (IsEmail-Parts e) in
    let found =
      rsplit_once-append b'@' l d (has_char_of_all is_domain_char b'@' d refl e.domain_chars) in
    rw e.trimmed (ground (arith, e.fits, e.printable, found, good, e.lowered))

-- The texts that `normalize_email` returns unchanged are the addresses in the stored form.
pub normalize_email-fixed_iff :
    (v : Text)
    → (normalize_email v ≡ ok v) ↔ ((l : Text) × (d : Text) × (v ≡ address l d) × IsEmail l d)
normalize_email-fixed_iff v = (
  λ h. let n = Normalized-of_ok v v h in (n.local, to_ascii_lowercase n.domain, n.stored, n.valid),
  λ (l, d, e, valid). rw e (normalize_email_of_IsEmail l d valid),
)

-- What `normalize_email` returns for any text it accepts, it returns unchanged when given again.
pub normalize_email_idem : (s v : Text) → normalize_email s ≡ ok v → normalize_email v ≡ ok v
normalize_email_idem s v h =
    let n = Normalized-of_ok s v h in
    rw n.stored (normalize_email_of_IsEmail n.local (to_ascii_lowercase n.domain) n.valid)
