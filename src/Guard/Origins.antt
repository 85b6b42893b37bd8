-- ===== src/Guard/Origins.antt =====
-- Origins, and the requests that pass the boundary checks.
use moesegfault_indentity.Base.{
  ℕ, ◌≡◌, ◌⊎◌, ◌↔◌, inl, inr, true, Option, none, some, List, [], length, is_some, ok, arith,
  Option-cases,
}
use moesegfault_indentity.Base.Text.{Text, text, bytes}
use moesegfault_indentity.Base.Text.Ascii.{eq_text_iff}
use moesegfault_indentity.Secret.{Crypto, Digest, hmac}
use moesegfault_indentity.Guard.{
  OriginScope, login_only, paired_frontends, configured_origin, Headers, Env, or_else, login_origin,
  account_origin, allowed_origin_for, allowed_origin, media_type_is, fetch_site_allowed,
  validate_browser_mutation, validate_transaction_secrets, cookie, browser_cookie_name,
}

-- An origin is granted exactly when it is the one presented and the scope permits it: the login
-- frontend always, the account frontend only in the scope of both.
pub configured_origin-eq-some_iff :
    (presented : Option Text) (login account o : Text) (scope : OriginScope)
    → (configured_origin presented login account scope ≡ some o)
      ↔ ((presented ≡ some o) × ((o ≡ login) ⊎ ((scope ≡ paired_frontends) × (o ≡ account))))
unfolding configured_origin
configured_origin-eq-some_iff none login account o scope = ground arith
configured_origin-eq-some_iff (some p) login account o login_only =
    ground (arith, eq_text_iff login p)
configured_origin-eq-some_iff (some p) login account o paired_frontends =
    ground (arith, eq_text_iff login p, eq_text_iff account p)

is_some-allowed_origin :
    (env : Env) (p : Option Text)
    → (is_some (allowed_origin env p) ≡ true)
      ↔ ((p ≡ some (login_origin env)) ⊎ (p ≡ some (account_origin env)))
unfolding allowed_origin allowed_origin_for configured_origin
is_some-allowed_origin env none = ground arith
is_some-allowed_origin env (some p) =
    ground (arith, eq_text_iff (login_origin env) p, eq_text_iff (account_origin env) p)

-- A browser mutation passes exactly when its Origin is one of the two frontends, its media type is
-- JSON, it is not marked as cross-site, and it carries a CSRF header.
pub validate_browser_mutation-eq-ok_iff :
    (header : Headers) (env : Env)
    → (validate_browser_mutation header env ≡ ok tt) ↔ (
        ((header (text "origin") ≡ some (login_origin env))
          ⊎ (header (text "origin") ≡ some (account_origin env)))
        × (media_type_is (text "application/json") (or_else (header (text "content-type")) [])
            ≡ true)
        × (fetch_site_allowed (header (text "sec-fetch-site")) ≡ true)
        × (is_some (header (text "x-moesegfault-csrf")) ≡ true))
unfolding validate_browser_mutation
validate_browser_mutation-eq-ok_iff header env =
    ground (arith, is_some-allowed_origin env (header (text "origin")))

module _ (c : Crypto) where
  -- Transaction secrets pass exactly when the request carries a CSRF header and a browser cookie
  -- whose keyed digests are the two stored ones, of 32 bytes each.
  pub validate_transaction_secrets-eq-ok_iff :
      (header : Headers) (csrf_digest browser_digest : Digest) (pepper : List ℕ)
      → (validate_transaction_secrets c header csrf_digest browser_digest pepper ≡ ok tt) ↔ (
          (w : Text) × (b : Text) × (header (text "x-moesegfault-csrf") ≡ some w)
          × (cookie header browser_cookie_name ≡ some b)
          × (length csrf_digest ≡ 32)
          × (length browser_digest ≡ 32)
          × (hmac c pepper (bytes w) ≡ csrf_digest)
          × (hmac c pepper (bytes b) ≡ browser_digest))
  unfolding validate_transaction_secrets
  validate_transaction_secrets-eq-ok_iff header csrf_digest browser_digest pepper = (
    λ h. elim (Option-cases (header (text "x-moesegfault-csrf"))) [
      | inl missing ↦ absurd (ground arith)
      | inr (w, e) ↦ elim (Option-cases (cookie header browser_cookie_name)) [
        | inl missing ↦ absurd (ground arith)
        | inr (b, e') ↦
            let same_w = eq_text_iff (hmac c pepper (bytes w)) csrf_digest in
            let same_b = eq_text_iff (hmac c pepper (bytes b)) browser_digest in
            (
              w,
              b,
              e,
              e',
              ground arith,
              ground arith,
              ground (arith, same_w),
              ground (arith, same_b),
            )
      ]
    ],
    λ (w, b, e, e', long, long', d, d'). ground (
      arith,
      eq_text_iff (hmac c pepper (bytes w)) csrf_digest,
      eq_text_iff (hmac c pepper (bytes b)) browser_digest,
    ),
  )
