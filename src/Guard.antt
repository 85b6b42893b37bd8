-- ===== src/Guard.antt =====
-- crates/identity-worker/src/guard.rs: browser-boundary checks. A request's headers and cookies, and
-- the deployment's variables, are looked up by name.
pub mod Cookies
pub mod Origins
pub mod Tests
use moesegfault_indentity.Base.{
  ℕ, Bool, true, false, not, ◌&&◌, ◌||◌, Option, none, some, List, [], ◌∷◌, ◌++◌, ltb, leb, ◌==◌,
  min, in_range, length, all, find, if◌then◌else◌, Result, ok, err, ◌>>=◌, ◌>>◌, refuse_if, ok_or,
  is_some,
}
use moesegfault_indentity.Base.Int.{ℤ, pos, negsuc}
use moesegfault_indentity.Base.Text.{
  Text, text, eq_text, bytes, byte_len, is_ascii_graphic, trim, split, split_once,
  eq_ignore_ascii_case,
}
use moesegfault_indentity.Base.Text.Decimal.{decimal}
use moesegfault_indentity.Secret.{Crypto, Digest, hmac, to_base64url, ct_eq, sized_32}

-- `Headers::get` by a lower-case name.
abbrev pub Headers : Type 0
Headers = Text → Option Text

-- The deployment's variables and secrets.
pub record Env : Type 0 where
  pub var : Text → Option Text
  pub secret : Text → Option Text

abbrev pub session_cookie_name : Text
session_cookie_name = text "__Host-identity_session"

abbrev pub browser_cookie_name : Text
browser_cookie_name = text "__Host-identity_browser"

unfoldable pub valid_idempotency_key : Text → Bool
valid_idempotency_key value = in_range 16 128 (byte_len value) && all is_ascii_graphic (bytes value)

pub data GuardError : Type 0 where
  origin content_type fetch_metadata csrf browser_binding : GuardError

pub data OriginScope : Type 0 where
  login_only paired_frontends : OriginScope

abbrev pub or_else : Option Text → Text → Text
or_else none d = d
or_else (some v) d = v

unfoldable pub login_origin : Env → Text
login_origin env = or_else (env.var (text "LOGIN_ORIGIN")) (text "https://login.moesegfault.dev")

unfoldable pub account_origin : Env → Text
account_origin env =
    or_else (env.var (text "ACCOUNT_ORIGIN")) (text "https://account.moesegfault.dev")

-- the origins that a scope permits
abbrev permitted : Text → Text → OriginScope → List Text
permitted login account login_only = login ∷ []
permitted login account paired_frontends = login ∷ account ∷ []

unfoldable pub configured_origin : Option Text → Text → Text → OriginScope → Option Text
configured_origin none login account scope = none
configured_origin (some presented) login account scope =
    find (λ allowed. eq_text allowed presented) (permitted login account scope)

unfoldable pub allowed_origin_for : Env → Option Text → OriginScope → Option Text
allowed_origin_for env presented scope =
    configured_origin presented (login_origin env) (account_origin env) scope

unfoldable pub allowed_origin : Env → Option Text → Option Text
allowed_origin env presented = allowed_origin_for env presented paired_frontends

-- `value.split(';').next().is_some_and(|v| v.trim().eq_ignore_ascii_case(expected))`
unfoldable pub media_type_is : Text → Text → Bool
media_type_is expected value = elim (split b';' value) [
  | [] ↦ false
  | v ∷ _ ↦ eq_ignore_ascii_case (trim v) expected
]

unfoldable pub fetch_site_allowed : Option Text → Bool
fetch_site_allowed none = true
fetch_site_allowed (some site) = not (eq_text site (text "cross-site"))

unfoldable pub validate_browser_mutation : Headers → Env → Result GuardError (Unit {0})
validate_browser_mutation header env = do
  refuse_if (not (is_some (allowed_origin env (header (text "origin"))))) origin
  refuse_if
      (not (media_type_is (text "application/json") (or_else (header (text "content-type")) [])))
      content_type
  refuse_if (not (fetch_site_allowed (header (text "sec-fetch-site")))) fetch_metadata
  refuse_if (not (is_some (header (text "x-moesegfault-csrf")))) csrf
  ok tt

-- the closure of `find_map`
unfoldable pub named_value : Text → Text → Option Text
named_value name pair = elim (split_once b'=' (trim pair)) [
  | none ↦ none
  | some (key, value) ↦ if eq_text key name then some value else none
]

-- `Iterator::find_map`
abbrev find_map : (Text → Option Text) → List Text → Option Text
find_map f [] = none
find_map f (x ∷ xs) = let rest = find_map f xs in elim (f x) [ none ↦ rest | some v ↦ some v ]

-- The item of that name in a Cookie header.
unfoldable pub cookie_in : Text → Text → Option Text
unfolding named_value
cookie_in header name = find_map (named_value name) (split b';' header)

unfoldable pub cookie : Headers → Text → Option Text
cookie header name = elim (header (text "cookie")) [
  | none ↦ none
  | some value ↦ cookie_in value name
]

-- `remaining.clamp(0, 600)`
abbrev clamp_600 : ℤ → ℕ
clamp_600 (pos n) = min n 600
clamp_600 (negsuc n) = 0

unfoldable pub browser_cookie_for : Text → ℤ → Text
browser_cookie_for value remaining_seconds =
    browser_cookie_name
    ++ b'='
      ∷ (value
          ++ (text "; Secure; HttpOnly; SameSite=Strict; Path=/; Max-Age="
              ++ decimal (clamp_600 remaining_seconds)))

pub browser_cookie : Text → Text
browser_cookie value = browser_cookie_for value (pos 600)

unfoldable pub session_cookie : Text → Text
session_cookie value =
    session_cookie_name
    ++ b'=' ∷ (value ++ text "; Secure; HttpOnly; SameSite=Lax; Path=/; Max-Age=2592000")

abbrev pub clear_session_cookie : Text
clear_session_cookie =
    text "__Host-identity_session=; Secure; HttpOnly; SameSite=Lax; Path=/; Max-Age=0"

module _ (c : Crypto) where
  unfoldable pub session_csrf_token : Text → List ℕ → Text
  session_csrf_token session_wire csrf_pepper =
      to_base64url c (hmac c csrf_pepper (bytes session_wire))

  unfoldable pub csrf_token_matches : Option Text → Text → List ℕ → Bool
  csrf_token_matches none session_wire csrf_pepper = false
  csrf_token_matches (some presented) session_wire csrf_pepper =
      eq_text (bytes presented) (bytes (session_csrf_token session_wire csrf_pepper))

  unfoldable pub validate_session_csrf : Headers → Text → List ℕ → Bool
  validate_session_csrf header session_wire csrf_pepper =
      csrf_token_matches (header (text "x-moesegfault-csrf")) session_wire csrf_pepper

  unfoldable pub validate_browser_csrf : Headers → List ℕ → Bool
  validate_browser_csrf header csrf_pepper = elim (cookie header browser_cookie_name) [
    | none ↦ false
    | some browser_wire ↦ validate_session_csrf header browser_wire csrf_pepper
  ]

  unfoldable pub validate_transaction_secrets :
      Headers → Digest → Digest → List ℕ → Result GuardError (Unit {0})
  validate_transaction_secrets header csrf_digest browser_digest pepper = do
    csrf_wire ← ok_or (header (text "x-moesegfault-csrf")) csrf
    browser ← ok_or (cookie header browser_cookie_name) browser_binding
    stored_csrf ← ok_or (sized_32 csrf_digest) csrf
    stored_browser ← ok_or (sized_32 browser_digest) browser_binding
    refuse_if (not (ct_eq (hmac c pepper (bytes csrf_wire)) stored_csrf)) csrf
    refuse_if (not (ct_eq (hmac c pepper (bytes browser)) stored_browser)) browser_binding
    ok tt
