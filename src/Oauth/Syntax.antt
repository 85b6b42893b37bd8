-- ===== src/Oauth/Syntax.antt =====
-- crates/identity-worker/src/oauth.rs: forms, scopes, verifiers and redirects. The `url` crate's parser is an
-- argument.
pub mod Scopes
use moesegfault_indentity.Base.{
  ℕ, Bool, true, false, not, ◌&&◌, ◌||◌, Option, none, some, List, [], ◌∷◌, ◌++◌, any, all, ltb,
  leb, ◌==◌, in_range, length, if◌then◌else◌, is_some,
}
use moesegfault_indentity.Base.Text.{
  Text, text, eq_text, mem_text, bytes, byte_len, is_empty, is_ascii_alphanumeric,
  is_ascii_whitespace, has_char, split, split_once, strip_prefix, eq_ignore_ascii_case,
}
use moesegfault_indentity.Guard.{Headers}
use moesegfault_indentity.Oauth.Issue.{OauthClient}

-- The loop of `unique_fields` over the decoded pairs: `none` for a pair too many, an empty name or a name
-- that is there already.
unfoldable pub unique_fields :
    ℕ → List (Text × Text) → List (Text × Text) → Option (List (Text × Text))
unique_fields max out [] = some out
unique_fields max out (f ∷ fs) =
    let rest = unique_fields max (out ++ f ∷ []) fs in
    if leb max (length out) || is_empty f.0 || any (λ g. eq_text g.0 f.0) out then none else rest

unfoldable pub only_fields : List (Text × Text) → List Text → Bool
only_fields fields allowed = all (λ f. any (eq_text f.0) allowed) fields

unfoldable pub valid_verifier : Text → Bool
valid_verifier value =
    in_range 43 128 (byte_len value)
    && all (λ b. is_ascii_alphanumeric b || has_char b (text "-._~")) (bytes value)

abbrev pub is_scope_byte : ℕ → Bool
is_scope_byte b = is_ascii_alphanumeric b || has_char b (text "._:-")

abbrev pub is_scope : Text → Bool
is_scope value = not (is_empty value) && all is_scope_byte (bytes value)

-- The loop of `canonical_scopes`, with the scopes so far.
unfoldable pub collect_scopes : List Text → List Text → Option (List Text)
collect_scopes values [] = some values
collect_scopes values (v ∷ vs) =
    let rest = collect_scopes (values ++ v ∷ []) vs in
    if not (is_scope v) || any (λ w. eq_text w v) values then none else rest

-- `[_]::join(" ")`
unfoldable pub join : List Text → Text
join [] = []
join (v ∷ []) = v
join (v ∷ w ∷ vs) = v ++ b' ' ∷ join (w ∷ vs)

unfoldable pub canonical_scopes : Text → Option Text
canonical_scopes input =
    if ltb 1024 (byte_len input) then none else elim (collect_scopes [] (split b' ' input)) [
      | none ↦ none
      | some values ↦ some (join values)
    ]

-- the text from the first `/` on
unfoldable pub from_slash : Text → Option Text
from_slash [] = none
from_slash (c ∷ s) = let rest = from_slash s in if c == b'/' then some (c ∷ s) else rest

unfoldable pub loopback_uri_tail : Text → Option Text
loopback_uri_tail uri = elim (strip_prefix (text "http://") uri) [
  | none ↦ none
  | some authority ↦ from_slash authority
]

-- What the code reads of a parsed `url::Url`.
pub record Url : Type 0 where
  pub scheme : Text
  pub host : Option Text
  pub username : Text
  pub password : Option Text
  pub fragment : Option Text

abbrev pub eq_option : Option Text → Option Text → Bool
eq_option none none = true
eq_option (some a) (some b) = eq_text a b
eq_option _ _ = false

abbrev pub is_loopback : Option Text → Bool
is_loopback none = false
is_loopback (some h) = any (eq_text h) (text "127.0.0.1" ∷ text "::1" ∷ text "[::1]" ∷ [])

abbrev pub urls_match : Text → Text → Option Url → Option Url → Bool
urls_match registered requested (some r) (some q) =
    eq_text r.scheme (text "http")
    && eq_text q.scheme (text "http")
    && is_loopback r.host
    && eq_option q.host r.host
    && eq_text q.username r.username
    && eq_option q.password r.password
    && eq_option (loopback_uri_tail registered) (loopback_uri_tail requested)
    && not (is_some q.fragment)
    && not (is_some r.fragment)
urls_match registered requested _ _ = false

unfoldable pub loopback_redirect_matches : (Text → Option Url) → Text → Text → Bool
loopback_redirect_matches parse registered requested =
    urls_match registered requested (parse registered) (parse requested)

-- `RedirectRegistration`
pub record RedirectRegistration : Type 0 where
  pub redirect_uri : Text
  pub match_mode : Text

unfoldable pub authorization_redirect_allowed :
    (Text → Option Url) → OauthClient → Text → List RedirectRegistration → Bool
authorization_redirect_allowed parse client requested registrations =
    any
      (λ r.
        if eq_text r.match_mode (text "exact")
        then eq_text r.redirect_uri requested
        else eq_text client.client_type (text "native")
          && eq_text r.match_mode (text "native_loopback_any_port")
          && loopback_redirect_matches parse r.redirect_uri requested)
      registrations

unfoldable pub bearer : Headers → Option Text
bearer header = elim (header (text "authorization")) [
  | none ↦ none
  | some value ↦ elim (split_once b' ' value) [
    | none ↦ none
    | some parts ↦
        if not (eq_ignore_ascii_case parts.0 (text "Bearer"))
        then none
        else if not (is_empty parts.1) && not (any is_ascii_whitespace (bytes parts.1))
        then some parts.1
        else none
  ]
]
