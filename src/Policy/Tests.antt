-- ===== src/Policy/Tests.antt =====
-- Runs of the account policies on sample input.
use moesegfault_indentity.Base.{◌≡◌, refl, some, ok}
use moesegfault_indentity.Base.Text.{
  Text, text, bytes, trim_start_if, trim_end_if, is_whitespace, rsplit_once,
}
use moesegfault_indentity.Policy.{
  normalize_username, normalize_email, compact_mobile_number, normalize_mobile, login_as, email,
  mobile, parse_login,
}
use moesegfault_indentity.Policy.Email.{Normalized, Normalized-of_ok}
use moesegfault_indentity.Policy.Login.{parse_login-normalize_mobile}

abbrev ada : Text
ada = text " Ada@Example.COM "

sample_email : normalize_email ada ≡ ok (text "Ada@example.com")
unfolding normalize_email bytes trim_start_if trim_end_if is_whitespace rsplit_once
sample_email = refl

sample_username : normalize_username (text " Ada_1 ") ≡ ok (text "ada_1")
unfolding normalize_username bytes trim_start_if trim_end_if is_whitespace
sample_username = refl

sample_mobile : normalize_mobile (text "+86") (text "138-0013") ≡ ok (text "+861380013")
unfolding normalize_mobile compact_mobile_number bytes trim_start_if trim_end_if is_whitespace
sample_mobile = refl

sample_login : parse_login ada ≡ some (login_as email (text "Ada@example.com"))
unfolding parse_login normalize_email bytes trim_start_if trim_end_if is_whitespace rsplit_once
sample_login = refl

Normalized-of_ok_example : Normalized ada (text "Ada@example.com")
Normalized-of_ok_example = Normalized-of_ok ada (text "Ada@example.com") sample_email

parse_login-normalize_mobile_example :
    parse_login (text "+861380013") ≡ some (login_as mobile (text "+861380013"))
parse_login-normalize_mobile_example =
    parse_login-normalize_mobile (text "+86") (text "138-0013") (text "+861380013") sample_mobile
