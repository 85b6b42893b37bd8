-- ===== src/Policy.antt =====
-- crates/identity-domain/src/policy.rs: input policy. A `&str` is its list of code points, and what
-- the source asks of its bytes is asked of `bytes`, its UTF-8 encoding.
pub mod Username
pub mod Email
pub mod Mobile
pub mod Login
pub mod Secrets
pub mod Tests
use moesegfault_indentity.Base.{
  ℕ, ◌+◌, ◌*◌, String, Bool, true, false, not, ◌&&◌, ◌||◌, Option, none, some, List, [], ◌∷◌, ◌++◌,
  ltb, leb, ◌==◌, in_range, if◌then◌else◌, length, all, any, keep, Result, ok, err, to_option,
  ◌>>=◌, ◌>>◌, refuse_if, ok_or,
}
use moesegfault_indentity.Base.Text.{
  Text, text, eq_text, mem_text, is_empty, bytes, byte_len, is_ascii_lowercase, is_ascii_digit,
  is_ascii_alphanumeric, to_ascii_lowercase, is_control, trim, trim_start_if, starts_with,
  ends_with, has_char, strip_prefix, rsplit_once,
}

-- Server-side lifetimes, in seconds.
pub record LifetimePolicy : Type 0 where
  pub transaction_seconds : ℕ
  pub recent_authentication_seconds : ℕ
  pub session_idle_seconds : ℕ
  pub session_absolute_seconds : ℕ
  pub authorization_code_seconds : ℕ
  pub access_token_seconds : ℕ
  pub refresh_token_seconds : ℕ

abbrev pub default_lifetimes : LifetimePolicy
default_lifetimes = record {
  transaction_seconds = 5 * 60;
  recent_authentication_seconds = 5 * 60;
  session_idle_seconds = 12 * 60 * 60;
  session_absolute_seconds = 30 * 24 * 60 * 60;
  authorization_code_seconds = 60;
  access_token_seconds = 5 * 60;
  refresh_token_seconds = 30 * 24 * 60 * 60;
}

pub data PolicyError : Type 0 where
  invalid_username invalid_password invalid_email invalid_mobile invalid_pkce : PolicyError

-- `bytes.first().is_some_and(p)`
abbrev pub first_is : (ℕ → Bool) → List ℕ → Bool
first_is p [] = false
first_is p (c ∷ _) = p c

unfoldable pub normalize_username : Text → Result PolicyError Text
normalize_username input =
    let value = to_ascii_lowercase (trim input) in
    let raw = bytes value in
    do
      refuse_if (not (in_range 3 32 (length raw))) invalid_username
      refuse_if
          (not (first_is is_ascii_lowercase raw)
            || any (λ c. not (is_ascii_alphanumeric c || c == b'_')) raw)
          invalid_username
      ok value

unfoldable pub validate_password : Text → Result PolicyError (Unit {0})
validate_password input = do
  refuse_if (not (in_range 15 128 (length input)) || any is_control input) invalid_password
  ok tt

abbrev pub bad_email_parts : Text → Text → Bool
bad_email_parts local domain =
    is_empty local
    || ltb 64 (byte_len local)
    || is_empty domain
    || starts_with b'.' domain
    || ends_with b'.' domain
    || not (has_char b'.' domain)
    || any (λ b. not (is_ascii_alphanumeric b || b == b'-' || b == b'.')) (bytes domain)

unfoldable pub normalize_email : Text → Result PolicyError Text
normalize_email input =
    let value = trim input in
    do
      refuse_if (ltb 254 (byte_len value) || any is_control value) invalid_email
      (local, domain) ← ok_or (rsplit_once b'@' value) invalid_email
      refuse_if (bad_email_parts local domain) invalid_email
      ok (local ++ b'@' ∷ to_ascii_lowercase domain)

-- the separators of a displayed number: space, `-`, `(` and `)`
abbrev pub is_separator : ℕ → Bool
is_separator c = c == 0x20 || c == b'-' || c == 0x28 || c == 0x29

unfoldable pub compact_mobile_number : Text → Text
compact_mobile_number input = keep (λ c. not (is_separator c)) input

unfoldable pub normalize_mobile : Text → Text → Result PolicyError Text
normalize_mobile calling_code national_number =
    let calling_code = trim_start_if (λ c. c == b'+') (trim calling_code) in
    let national_number = compact_mobile_number national_number in
    do
      refuse_if
          (is_empty calling_code
            || ltb 3 (byte_len calling_code)
            || starts_with b'0' calling_code
            || not (all is_ascii_digit (bytes calling_code))
            || is_empty national_number
            || starts_with b'0' national_number
            || not (all is_ascii_digit (bytes national_number))
            || ltb 15 (byte_len calling_code + byte_len national_number))
          invalid_mobile
      ok (b'+' ∷ (calling_code ++ national_number))

pub data LoginIdentifierKind : Type 0 where
  username email mobile : LoginIdentifierKind

pub record LoginIdentifier : Type 0 where
  pub kind : LoginIdentifierKind
  pub value : Text

abbrev pub login_as : LoginIdentifierKind → Text → LoginIdentifier
login_as k v = record { kind = k; value = v }

abbrev pub map_login : LoginIdentifierKind → Result PolicyError Text → Option LoginIdentifier
map_login k (ok value) = some (login_as k value)
map_login k (err _) = none

-- the branch of `parse` for a leading `+`
unfoldable pub parse_mobile : Text → Option LoginIdentifier
parse_mobile trimmed =
    let value = compact_mobile_number trimmed in
    elim (strip_prefix (b'+' ∷ []) value) [
      | none ↦ none
      | some digits ↦
          if in_range 5 15 (byte_len digits) && all is_ascii_digit (bytes digits)
          then some (login_as mobile value)
          else none
    ]

unfoldable pub parse_login : Text → Option LoginIdentifier
parse_login input =
    if has_char b'@' input
    then map_login email (normalize_email input)
    else if starts_with b'+' (trim input)
    then parse_mobile (trim input)
    else map_login username (normalize_username input)

-- `LoginIdentifier::kind`, as stored in the database
unfoldable pub kind_name : LoginIdentifierKind → Text
kind_name username = text "username"
kind_name email = text "email"
kind_name mobile = text "mobile"

unfoldable pub validate_pkce_s256 : Text → Result PolicyError (Unit {0})
validate_pkce_s256 challenge = do
  refuse_if
      (not (byte_len challenge == 43)
        || any (λ b. not (is_ascii_alphanumeric b || b == b'-' || b == b'_')) (bytes challenge))
      invalid_pkce
  ok tt

unfoldable pub redirect_uri_matches : Text → List Text → Bool
redirect_uri_matches requested registered = any (λ item. eq_text item requested) registered
