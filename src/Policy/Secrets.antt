-- ===== src/Policy/Secrets.antt =====
-- What the password and PKCE policies accept.
use moesegfault_indentity.Base.{
  ℕ, ◌≤◌, ◌≡◌, ◌↔◌, Bool, true, false, ◌||◌, ◌==◌, length, all, any, any-not, ok, arith,
}
use moesegfault_indentity.Base.Text.{Text, is_ascii_alphanumeric, is_control}
use moesegfault_indentity.Base.Text.Ascii.{IsAsciiTest, any-bytes-false, ascii_of_all}
use moesegfault_indentity.Policy.{validate_password, validate_pkce_s256}

-- A password is accepted exactly when it has 15 to 128 characters and no control character.
pub validate_password-eq-ok_iff :
    (s : Text)
    → (validate_password s ≡ ok tt)
      ↔ ((15 ≤ length s) × (length s ≤ 128) × (any is_control s ≡ false))
unfolding validate_password
validate_password-eq-ok_iff s = ground arith

abbrev pub is_base64url : ℕ → Bool
is_base64url b = is_ascii_alphanumeric b || b == b'-' || b == b'_'

is_base64url-IsAsciiTest : IsAsciiTest is_base64url
is_base64url-IsAsciiTest b h = ground arith

-- A challenge is accepted exactly when it is 43 characters of the base64url alphabet.
pub validate_pkce_s256-eq-ok_iff :
    (s : Text) → (validate_pkce_s256 s ≡ ok tt) ↔ ((length s ≡ 43) × (all is_base64url s ≡ true))
unfolding validate_pkce_s256
validate_pkce_s256-eq-ok_iff s = (
  λ h.
      let (plain, good) = any-bytes-false is_base64url s is_base64url-IsAsciiTest (ground arith) in
      (ground (arith, plain), good),
  λ (long, good).
      let plain = ascii_of_all is_base64url s is_base64url-IsAsciiTest good in
      ground (arith, plain, any-not is_base64url s),
)
