-- ===== src/Oauth/Issue.antt =====
-- crates/identity-worker/src/oauth.rs, oauth_repository.rs: the subject, the session claim and the signed
-- tokens of a token response. The signer, the randomness and the clock are arguments.
use moesegfault_indentity.Base.{
  ℕ, ◌+◌, ◌-◌, ◌*◌, Bool, true, false, not, ◌&&◌, ◌||◌, Option, none, some, List, [], ◌∷◌, ◌++◌,
  any, all, find, ltb, leb, ◌==◌, if◌then◌else◌,
}
use moesegfault_indentity.Base.Text.{Text, text, eq_text, bytes, split, is_empty, is_ascii_digit}
use moesegfault_indentity.Base.Text.Decimal.{decimal}
use moesegfault_indentity.Secret.{Crypto, Digest, hmac, to_base64url}
use moesegfault_indentity.Store.{Db, PairwiseSubject, ClientSession}
use moesegfault_indentity.Store.Sql.{insert_if}
use moesegfault_indentity.Guard.{Env}

-- `OAuthClient`
pub record OauthClient : Type 0 where
  pub client_id : Text
  pub client_type : Text
  pub token_endpoint_auth_method : Text
  pub device_authorization_enabled : Bool

-- The issuer, the key identifier and the private key of `issuance_config`.
pub record Issuance : Type 0 where
  pub issuer : Text
  pub kid : Text
  pub key : Text

pub record AccessClaims : Type 0 where
  pub iss : Text
  pub sub : Text
  pub aud : Text
  pub client_id : Text
  pub scope : Text
  pub iat : ℕ
  pub exp : ℕ
  pub jti : Text

-- `amr` is the text of a JSON value.
pub record IdClaims : Type 0 where
  pub iss : Text
  pub sub : Text
  pub aud : Text
  pub sid : Text
  pub iat : ℕ
  pub exp : ℕ
  pub auth_time : ℕ
  pub amr : Text
  pub acr : Text
  pub name : Option Text
  pub preferred_username : Option Text
  pub nonce : Option Text

-- `webcrypto::sign_rs256`, which the platform may fail, and the JSON syntax check of `serde_json`.
pub record Signer : Type 0 where
  pub sign_access : (key kid : Text) → AccessClaims → Option Text
  pub sign_id : (key kid : Text) → IdClaims → Option Text
  pub is_json : Text → Bool

pub record SignedTokens : Type 0 where
  pub access : Text
  pub id : Text
  pub scope : Text
  pub expires : ℕ

-- What one exchange draws from the random source and the second clock reading it makes.
pub record Draw : Type 0 where
  pub public_sid : Text
  pub jti : Text
  pub wire : Text
  pub family_id : Text
  pub token_id : Text
  pub marker : Text
  pub authorization_id : Text
  pub later : ℕ

-- The digits of `str::parse::<i64>`; a negative number never passes the range test below.
unfoldable pub parse_digits : ℕ → Text → ℕ
parse_digits acc [] = acc
parse_digits acc (c ∷ s) = parse_digits (acc * 10 + (c - b'0')) s

abbrev without_plus : Text → Text
without_plus [] = []
without_plus (c ∷ s) = if c == b'+' then s else c ∷ s

unfoldable pub parse_number : Text → Option ℕ
unfolding parse_digits
parse_number s =
    let digits = without_plus s in
    if is_empty digits || not (all is_ascii_digit digits)
    then none
    else some (parse_digits 0 digits)

abbrev in_bounds : ℕ → ℕ → Option ℕ → ℕ
in_bounds default max none = default
in_bounds default max (some v) = if ltb 0 v && leb v max then v else default

unfoldable pub config_seconds : Env → Text → ℕ → ℕ → ℕ
config_seconds env name default max =
    in_bounds default max (elim (env.var name) [ none ↦ none | some v ↦ parse_number v ])

-- `scope.split(' ').any(|v| v == name)`
abbrev pub has_scope : Text → Text → Bool
has_scope name scope = any (λ v. eq_text v name) (split b' ' scope)

-- `INSERT OR IGNORE`, then the row that is there.
unfoldable pub ensure_pairwise_subject : Db → Text → Text → Text → ℕ → ℕ → Db × Option Text
ensure_pairwise_subject db sector principal_id subject revision now =
    let row : PairwiseSubject = record {
      sector_identifier = sector;
      principal_id = principal_id;
      subject = subject;
      salt_revision = revision;
      created_at = now;
    } in
    let is_it = λ (r : PairwiseSubject).
      eq_text r.sector_identifier sector && eq_text r.principal_id principal_id in
    let subjects =
      insert_if (not (any (λ r. is_it r || eq_text r.subject subject) db.subjects)) row
        db.subjects in
    (
      record db { subjects = subjects },
      elim (find is_it subjects) [ none ↦ none | some r ↦ some r.subject ],
    )

unfoldable pub ensure_client_session_id : Db → Text → Text → Text → ℕ → Db × Option Text
ensure_client_session_id db client_id session_id candidate now =
    let row : ClientSession = record {
      client_id = client_id;
      session_id = session_id;
      public_sid = candidate;
      created_at = now;
    } in
    let is_it =
      λ (r : ClientSession). eq_text r.client_id client_id && eq_text r.session_id session_id in
    let rows =
      insert_if (not (any (λ r. is_it r || eq_text r.public_sid candidate) db.client_sessions)) row
        db.client_sessions in
    (
      record db { client_sessions = rows },
      elim (find is_it rows) [ none ↦ none | some r ↦ some r.public_sid ],
    )

module _ (crypto : Crypto) (env : Env) where
  -- `SecretDigest::hmac` under a configured pepper; `none` when the binding is missing.
  unfoldable pub peppered : Text → List ℕ → Option Digest
  peppered name value = elim (env.secret name) [
    | none ↦ none
    | some pepper ↦ some (hmac crypto (bytes pepper) value)
  ]

  -- `v{revision}\0{sector}\0{principal}`
  unfoldable pub pairwise_input : ℕ → Text → Text → Text
  pairwise_input revision sector principal_id =
      text "v" ++ decimal revision ++ 0 ∷ sector ++ 0 ∷ principal_id

  unfoldable pub pairwise : Db → Text → Text → ℕ → ℕ → Db × Option Text
  pairwise db sector principal_id revision now =
      elim (peppered (text "PAIRWISE_SUBJECT_KEY")
        (bytes (pairwise_input revision sector principal_id))) [
          | none ↦ (db, none)
          | some digest ↦
              ensure_pairwise_subject db sector principal_id (to_base64url crypto digest) revision
                now
        ]

  unfoldable pub refresh_digest : Text → Option Digest
  refresh_digest wire = peppered (text "REFRESH_TOKEN_PEPPER") (bytes wire)

abbrev when : {A : Type 0} → Bool → A → Option A
when true a = some a
when false a = none

-- The claims that a scope of `profile` adds, and a nonce.
abbrev pub id_claims :
    Issuance
    → Signer
    → (sub client sid scope : Text) → Option Text
    → ℕ
    → (amr_json acr name username : Text) → ℕ
    → ℕ
    → IdClaims
id_claims i signer sub client sid scope nonce auth_time amr_json acr name username now ttl =
    record {
      iss = i.issuer;
      sub = sub;
      aud = client;
      sid = sid;
      iat = now;
      exp = now + ttl;
      auth_time = auth_time;
      amr = if signer.is_json amr_json then amr_json else text "[]";
      acr = acr;
      name = when (has_scope (text "profile") scope) name;
      preferred_username = when (has_scope (text "profile") scope) username;
      nonce = nonce;
    }

unfoldable pub access_claims : Text → Text → Text → Text → ℕ → ℕ → Text → AccessClaims
access_claims issuer sub client scope now exp jti = record {
  iss = issuer;
  sub = sub;
  aud = client;
  client_id = client;
  scope = scope;
  iat = now;
  exp = exp;
  jti = jti;
}

unfoldable pub sign_tokens :
    Issuance
    → Signer
    → (jti sub client sid scope : Text) → Option Text
    → ℕ
    → (amr_json acr name username : Text) → ℕ
    → ℕ
    → Option SignedTokens
sign_tokens i signer jti sub client sid scope nonce auth_time amr_json acr name username now ttl =
    elim (signer.sign_access i.key i.kid
      (access_claims i.issuer sub client scope now (now + ttl) jti)) [
        | none ↦ none
        | some access ↦
            elim (signer.sign_id i.key i.kid (
              id_claims i signer sub client sid scope nonce auth_time amr_json acr name username now
                ttl)) [
                  | none ↦ none
                  | some id ↦
                      some (record { access = access; id = id; scope = scope; expires = ttl })
                ]
      ]
