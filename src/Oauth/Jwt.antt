-- ===== src/Oauth/Jwt.antt =====
-- crates/identity-worker/src/webcrypto.rs: the compact JWT format; oauth.rs: the claims that the endpoints
-- read of a token, and the deployment's signing configuration. JSON syntax and signature checks are the
-- fields of `Jose`.
use moesegfault_indentity.Base.{
  ℕ, ◌+◌, Bool, true, false, not, ◌&&◌, ◌||◌, Option, none, some, List, [], ◌∷◌, ◌++◌, any, all,
  find, leb, ltb, is_some, if◌then◌else◌,
}
use moesegfault_indentity.Base.Int.{ℤ, pos, negsuc}
use moesegfault_indentity.Base.Json.{
  Json, string, array, done, element, get_field, as_str, str_field, elements, as_i64,
}
use moesegfault_indentity.Base.Text.{Text, text, eq_text, split}
use moesegfault_indentity.Secret.{Crypto}
use moesegfault_indentity.Guard.{Env, or_else}
use moesegfault_indentity.Oauth.Issue.{Issuance}
use moesegfault_indentity.Oauth.Syntax.{eq_option}

-- `serde_json::from_slice`, `from_str` and `to_string`, and WebCrypto's verification, which may fail.
pub record Jose : Type 0 where
  pub from_slice : List ℕ → Option Json
  pub from_str : Text → Option Json
  pub to_string : Json → Text
  pub verify : (signing_input : Text) → List ℕ → (algorithm jwk : Text) → Option Bool

pub record ParsedJwt : Type 0 where
  pub header : Json
  pub claims : Json
  pub signing_input : Text
  pub signature : List ℕ

abbrev pub joined : Text → Text → Option Json → Option Json → Option (List ℕ) → Option ParsedJwt
joined h c (some header) (some claims) (some signature) = some (record {
  header = header;
  claims = claims;
  signing_input = h ++ b'.' ∷ c;
  signature = signature;
})
joined h c _ _ _ = none

module _ (crypto : Crypto) (jose : Jose) where
  abbrev decode_json : Text → Option Json
  decode_json part = elim (crypto.decode part) [ none ↦ none | some b ↦ jose.from_slice b ]

  abbrev pub three_parts : List Text → Option ParsedJwt
  three_parts (h ∷ c ∷ s ∷ []) = joined h c (decode_json h) (decode_json c) (crypto.decode s)
  three_parts _ = none

  unfoldable pub parse_jwt : Text → Option ParsedJwt
  parse_jwt wire = three_parts (split b'.' wire)

  -- The part of `verify_jwt_signature` that is not the platform's: the algorithms it knows.
  unfoldable pub verify_jwt_signature : ParsedJwt → Text → Text → Option Bool
  verify_jwt_signature parsed algorithm jwk =
      if eq_text algorithm (text "RS256") || eq_text algorithm (text "ES256")
      then jose.verify parsed.signing_input parsed.signature algorithm jwk
      else elim (jose.from_str jwk) [ none ↦ none | some v ↦ some false ]

abbrev pub is_verified : Option Bool → Bool
is_verified none = false
is_verified (some b) = b

-- `get(name).and_then(Value::as_i64).unwrap_or(0)`
abbrev pub or_zero : Option ℤ → ℤ
or_zero none = pos 0
or_zero (some n) = n

abbrev pub i64_of : Option Json → Option ℤ
i64_of none = none
i64_of (some v) = as_i64 v

abbrev pub time_claim : Text → Json → ℤ
time_claim name claims = or_zero (i64_of (get_field name claims))

-- Comparisons of a claim with a time.
abbrev pub at_most : ℤ → ℕ → Bool
at_most (pos n) t = leb n t
at_most (negsuc n) t = true

abbrev pub beyond : ℤ → ℕ → Bool
beyond z t = not (at_most z t)

-- `claim < t - slack`
abbrev pub earlier_than : ℤ → ℕ → ℕ → Bool
earlier_than (pos n) t slack = ltb (n + slack) t
earlier_than (negsuc n) t slack = ltb slack (t + n + 1)

abbrev aud_value : Text → Option Json → Bool
aud_value expected (some (string v)) = eq_text v expected
aud_value expected (some (array vs)) = any (λ x. eq_option (as_str x) (some expected)) (elements vs)
aud_value expected _ = false

unfoldable pub aud_contains : Json → Text → Bool
aud_contains claims expected = aud_value expected (get_field (text "aud") claims)

abbrev pub single : Option Json → Option Text
single (some (string v)) = some v
single (some (array (element v done))) = as_str v
single _ = none

unfoldable pub audience_one : Json → Option Text
audience_one claims = single (get_field (text "aud") claims)

abbrev jwk_fields : List Text
jwk_fields = text "d" ∷ text "p" ∷ text "q" ∷ text "dp" ∷ text "dq" ∷ text "qi" ∷ []

unfoldable pub publishable_jwk : Json → Text → Bool
publishable_jwk key kid =
    eq_option (str_field (text "kid") key) (some kid)
    && eq_option (str_field (text "alg") key) (some (text "RS256"))
    && eq_option (str_field (text "kty") key) (some (text "RSA"))
    && is_some (str_field (text "n") key)
    && is_some (str_field (text "e") key)
    && all (λ name. not (is_some (get_field name key))) jwk_fields

abbrev as_array : Option Json → Option (List Json)
as_array (some (array vs)) = some (elements vs)
as_array _ = none

abbrev keys_of : Option Json → Option (List Json)
keys_of none = none
keys_of (some set) = as_array (get_field (text "keys") set)

unfoldable pub issuer : Env → Text
issuer env = or_else (env.var (text "ISSUER")) (text "https://identity.moesegfault.dev")

module _ (crypto : Crypto) (jose : Jose) (env : Env) where
  -- The keys of the variable `PUBLIC_JWKS`.
  unfoldable pub public_keys : Option (List Json)
  public_keys = elim (env.var (text "PUBLIC_JWKS")) [
    | none ↦ none
    | some set ↦ keys_of (jose.from_str set)
  ]

  abbrev configured : Option Text → Option Text → Option Text → Option (List Json) → Option Issuance
  configured (some issuer) (some kid) (some key) (some keys) =
      if any (λ k. publishable_jwk k kid) keys
      then some (record { issuer = issuer; kid = kid; key = key })
      else none
  configured _ _ _ _ = none

  unfoldable pub issuance_config : Option Issuance
  issuance_config =
      if eq_option (env.var (text "OAUTH_ENABLED")) (some (text "true"))
      then configured (env.var (text "ISSUER")) (env.var (text "OIDC_ACTIVE_KID"))
          (env.secret (text "OIDC_PRIVATE_KEY_PKCS8")) public_keys
      else none

  unfoldable pub is_enabled : Bool
  is_enabled = is_some issuance_config

  abbrev use_name : Bool → Text
  use_name true = text "access"
  use_name false = text "id"

  -- The claims of a token of this issuer whose signature verifies.
  unfoldable pub checked_claims : Bool → ℕ → Json → Option Json
  checked_claims require_access now c =
      if not (eq_option (str_field (text "iss") c) (some (issuer env)))
        || not (eq_option (str_field (text "token_use") c) (some (use_name require_access)))
        || not (is_some (audience_one c))
        || (require_access && at_most (time_claim (text "exp") c) now)
      then none
      else some c

  unfoldable pub verify_with : Bool → ℕ → ParsedJwt → Option Text → Option (List Json) → Option Json
  verify_with require_access now parsed (some kid) (some keys) =
      elim (find (λ k. eq_option (str_field (text "kid") k) (some kid)) keys) [
        | none ↦ none
        | some jwk ↦
            if is_verified
              (verify_jwt_signature crypto jose parsed (text "RS256") (jose.to_string jwk))
            then checked_claims require_access now parsed.claims
            else none
      ]
  verify_with require_access now parsed _ _ = none

  unfoldable pub verify_our_jwt : Bool → Text → ℕ → Option Json
  verify_our_jwt require_access wire now = elim (parse_jwt crypto jose wire) [
    | none ↦ none
    | some parsed ↦
        if eq_option (str_field (text "alg") parsed.header) (some (text "RS256"))
        then verify_with require_access now parsed (str_field (text "kid") parsed.header)
            public_keys
        else none
  ]
