-- ===== src/Oauth/Clients.antt =====
-- crates/identity-worker/src/oauth.rs: client authentication; oauth_repository.rs: the rows it reads, and the
-- assertions it records. Every error of `authenticate_client_at` is `none`: its callers answer all alike.
use moesegfault_indentity.Base.{
  ℕ, ◌+◌, Bool, true, false, not, ◌&&◌, ◌||◌, Option, none, some, List, ◌++◌, any, find, keep, map,
  is_some, if◌then◌else◌,
}
use moesegfault_indentity.Base.Int.{ℤ, pos, negsuc}
use moesegfault_indentity.Base.Json.{Json, str_field}
use moesegfault_indentity.Base.Text.{Text, text, eq_text, bytes, is_empty}
use moesegfault_indentity.Secret.{Crypto, Digest, ct_eq}
use moesegfault_indentity.Store.{Db}
use moesegfault_indentity.Store.Registry.{ClientKey, Assertion}
use moesegfault_indentity.Store.Sql.{insert_if}
use moesegfault_indentity.Oauth.Issue.{OauthClient}
use moesegfault_indentity.Oauth.Syntax.{eq_option, RedirectRegistration}
use moesegfault_indentity.Oauth.Exchange.{get}
use moesegfault_indentity.Oauth.Jwt.{
  Jose, ParsedJwt, parse_jwt, verify_jwt_signature, is_verified, time_claim, at_most, beyond,
  earlier_than, aud_contains,
}

unfoldable pub client : Db → Text → Option OauthClient
client db client_id = elim (find (λ c. eq_text c.client_id client_id && c.enabled) db.clients) [
  | none ↦ none
  | some c ↦ some (record {
    client_id = c.client_id;
    client_type = c.client_type;
    token_endpoint_auth_method = c.token_endpoint_auth_method;
    device_authorization_enabled = c.device_authorization_enabled;
  })
]

unfoldable pub redirect_registrations : Db → Text → List RedirectRegistration
redirect_registrations db client_id =
    map (λ r. record { redirect_uri = r.redirect_uri; match_mode = r.match_mode })
      (keep (λ r. eq_text r.client_id client_id) db.redirects)

unfoldable pub exact_post_logout_redirect : Db → Text → Text → Bool
exact_post_logout_redirect db client_id uri =
    any (λ r. eq_text r.client_id client_id && eq_text r.redirect_uri uri) db.logout_redirects

unfoldable pub client_key : Db → Text → Text → Option ClientKey
client_key db client_id kid =
    find (λ k. eq_text k.client_id client_id && eq_text k.kid kid && not (is_some k.retired_at))
      db.client_keys

unfoldable pub is_assertion : Text → Digest → Assertion → Bool
is_assertion client_id digest a = eq_text a.client_id client_id && ct_eq a.jti_digest digest

-- The primary key refuses an assertion that is there.
unfoldable pub record_client_assertion : Db → Text → Digest → ℕ → Option Db
record_client_assertion db client_id digest expires =
    if any (is_assertion client_id digest) db.assertions
    then none
    else some (record db {
      assertions =
          insert_if true
            (record { client_id = client_id; jti_digest = digest; expires_at = expires })
            db.assertions;
    })

-- `CLIENT_ASSERTION_TYPE`
abbrev pub client_assertion_type : Text
client_assertion_type = text "urn:ietf:params:oauth:client-assertion-type:jwt-bearer"

-- `is_native` and `contains_key` in the words of the code
unfoldable pub is_public_client : OauthClient → Bool
is_public_client c =
    eq_text c.client_type (text "native") && eq_text c.token_endpoint_auth_method (text "none")

-- The claims that an assertion of a client has to make, at a time, for an audience.
unfoldable pub are_claims_wrong : Text → Text → ℕ → Json → Bool
are_claims_wrong client_id audience now c =
    not (eq_option (str_field (text "iss") c) (some client_id))
    || not (eq_option (str_field (text "sub") c) (some client_id))
    || not (aud_contains c audience)
    || at_most (time_claim (text "exp") c) now
    || beyond (time_claim (text "exp") c) (now + 300)
    || beyond (time_claim (text "iat") c) (now + 60)
    || earlier_than (time_claim (text "iat") c) now 300

abbrev pub non_empty : Option Text → Option Text
non_empty none = none
non_empty (some v) = if is_empty v then none else some v

abbrev pub to_seconds : ℤ → ℕ
to_seconds (pos n) = n
to_seconds (negsuc n) = 0

module _ (crypto : Crypto) (jose : Jose) where
  -- The jti, once the signature verifies.
  unfoldable pub record_jti :
      Db
      → OauthClient
      → (client_id audience : Text) → ℕ
      → Json
      → Option Text
      → Option (Db × OauthClient)
  record_jti db c client_id audience now claims none = none
  record_jti db c client_id audience now claims (some jti) =
      if are_claims_wrong client_id audience now claims
      then none
      else elim (record_client_assertion db client_id (crypto.sha256 (bytes jti))
          (to_seconds (time_claim (text "exp") claims))) [ none ↦ none | some db' ↦ some (db', c) ]

  unfoldable pub check_signature : Db → Text → ParsedJwt → Option Text → Option Text → Bool
  check_signature db client_id parsed (some kid) (some alg) = elim (client_key db client_id kid) [
    | none ↦ false
    | some key ↦
        eq_text key.algorithm alg
        && is_verified (verify_jwt_signature crypto jose parsed alg key.public_jwk_json)
  ]
  check_signature db client_id parsed _ _ = false

  unfoldable pub check_assertion :
      Db → OauthClient → (client_id audience : Text) → ℕ → Option Text → Option (Db × OauthClient)
  check_assertion db c client_id audience now none = none
  check_assertion db c client_id audience now (some wire) = elim (parse_jwt crypto jose wire) [
    | none ↦ none
    | some parsed ↦
        if check_signature db client_id parsed (str_field (text "kid") parsed.header)
          (str_field (text "alg") parsed.header)
        then record_jti db c client_id audience now parsed.claims
            (non_empty (str_field (text "jti") parsed.claims))
        else none
  ]

  unfoldable pub authenticate_found :
      Db → OauthClient → Text → List (Text × Text) → Text → ℕ → Option (Db × OauthClient)
  authenticate_found db c client_id fields audience now =
      if is_public_client c
      then if is_some (get (text "client_assertion") fields)
          || is_some (get (text "client_assertion_type") fields)
        then none
        else some (db, c)
      else if eq_option (get (text "client_assertion_type") fields) (some client_assertion_type)
      then check_assertion db c client_id audience now (get (text "client_assertion") fields)
      else none

  unfoldable pub authenticate_client_at :
      Db → Text → List (Text × Text) → Text → ℕ → Option (Db × OauthClient)
  authenticate_client_at db client_id fields audience now = elim (client db client_id) [
    | none ↦ none
    | some c ↦ authenticate_found db c client_id fields audience now
  ]

  unfoldable pub authenticate_client :
      Db → Text → List (Text × Text) → Text → ℕ → Option (Db × OauthClient)
  authenticate_client db client_id fields issuer now =
      authenticate_client_at db client_id fields (issuer ++ text "/v1/oauth/tokens") now
