-- ===== src/Oauth/Codes/Exchange.antt =====
-- crates/identity-worker/src/oauth.rs: the authorization-code grant of the token endpoint. `clock` is the
-- database's own clock, which a trigger reads.
use moesegfault_indentity.Base.{
  ℕ, ◌+◌, Bool, not, ◌||◌, Option, none, some, List, ◌∷◌, ◌++◌, leb, is_some, if◌then◌else◌,
}
use moesegfault_indentity.Base.Text.{Text, text, eq_text, bytes}
use moesegfault_indentity.Secret.{Crypto, Digest, ct_eq}
use moesegfault_indentity.Store.{Db}
use moesegfault_indentity.Guard.{Env}
use moesegfault_indentity.Device.Repository.{NewFamily}
use moesegfault_indentity.Oauth.Issue.{
  OauthClient, Issuance, Signer, SignedTokens, Draw, config_seconds, ensure_client_session_id,
  peppered, pairwise, sign_tokens,
}
use moesegfault_indentity.Oauth.Syntax.{valid_verifier}
use moesegfault_indentity.Oauth.Codes.{CodeGrant, authorization_code}
use moesegfault_indentity.Oauth.Codes.Consume.{consume_code}
use moesegfault_indentity.Oauth.Exchange.{
  Reply, refused, issued, failed, code_parameter_required, pkce_failed, invalid_code,
  code_already_consumed, code_authority, get, new_wire, offline_family,
}

-- The fields `code`, `redirect_uri` and `code_verifier` of the form.
pub record Presented : Type 0 where
  pub code : Text
  pub redirect : Text
  pub verifier : Text

abbrev all_present : Option Text → Option Text → Option Text → Option Presented
all_present (some code) (some redirect) (some verifier) =
    some (record { code = code; redirect = redirect; verifier = verifier })
all_present _ _ _ = none

unfoldable pub presented_code : List (Text × Text) → Option Presented
presented_code fields =
    all_present (get (text "code") fields) (get (text "redirect_uri") fields)
      (get (text "code_verifier") fields)

module _ (crypto : Crypto) (env : Env) where
  unfoldable pub code_digest : Text → Option Digest
  code_digest code = peppered crypto env (text "AUTHORIZATION_CODE_PEPPER") (bytes code)

  -- `URL_SAFE_NO_PAD.encode(Sha256::digest(verifier))`
  unfoldable pub pkce_challenge : Text → Text
  pkce_challenge verifier = crypto.encode (crypto.sha256 (bytes verifier))

  -- `{client_id}\0{code}\0{verifier}`
  unfoldable pub request_digest : Text → Presented → Digest
  request_digest client_id p = crypto.sha256 (bytes (client_id ++ 0 ∷ p.code ++ 0 ∷ p.verifier))

  -- The condition under which `exchange_code` refuses a code that it found.
  unfoldable pub is_code_refused : Text → Presented → ℕ → CodeGrant → Bool
  is_code_refused client_id p now g =
      not (eq_text g.client_id client_id)
      || not (eq_text g.redirect_uri p.redirect)
      || leb g.expires_at now
      || is_some g.session_revoked_at
      || leb g.session_idle_expires_at now
      || leb g.session_absolute_expires_at now
      || not (ct_eq (pkce_challenge p.verifier) g.code_challenge)

module _ (crypto : Crypto) (env : Env) (i : Issuance) (signer : Signer) (client : OauthClient)
    (draw : Draw) (clock : ℕ) where
  abbrev pub code_tokens : CodeGrant → ℕ → Text → Text → Option SignedTokens
  code_tokens g now subject sid =
      sign_tokens i signer draw.jti subject g.client_id sid g.scope (some g.nonce)
        g.authenticated_at g.amr_json g.acr g.display_name g.username now
        (config_seconds env (text "TOKEN_TTL_SECONDS") 300 300)

  -- After a batch that failed.
  unfoldable pub lost_code : Db → Digest → Db × Reply
  lost_code db digest = elim (authorization_code db digest) [
    | none ↦ (db, refused code_already_consumed)
    | some g ↦ (db, refused code_authority)
  ]

  unfoldable pub redeem :
      Db → Digest → Presented → CodeGrant → ℕ → Text → Text → Option NewFamily → Db × Reply
  redeem db digest p g now subject sid family =
      elim (consume_code db g (request_digest crypto env client.client_id p) family
        draw.authorization_id now clock
        (now + config_seconds env (text "REFRESH_TOKEN_TTL_SECONDS") 2592000 31536000)) [
          | none ↦ lost_code db digest
          | some db' ↦ elim (code_tokens g now subject sid) [
            | none ↦ (db', failed)
            | some tokens ↦ (db', issued tokens (new_wire family draw.wire))
          ]
        ]

  unfoldable pub claim_code : Db → Digest → Presented → CodeGrant → ℕ → Text → Db × Reply
  claim_code db digest p g now subject =
      let (db', sid) = ensure_client_session_id db g.client_id g.session_id draw.public_sid now in
      elim sid [
        | none ↦ (db', failed)
        | some sid ↦ elim (offline_family crypto env i signer client draw g.scope) [
          | none ↦ (db', failed)
          | some family ↦ redeem db' digest p g now subject sid family
        ]
      ]

  unfoldable pub issue_code : Db → Digest → Presented → CodeGrant → ℕ → Db × Reply
  issue_code db digest p g now =
      let (db', subject) =
        pairwise crypto env db g.sector_identifier g.principal_id g.subject_salt_revision now in
      elim subject [ none ↦ (db', failed) | some subject ↦ claim_code db' digest p g now subject ]

  unfoldable pub use_code : Db → Digest → Presented → Option CodeGrant → ℕ → Db × Reply
  use_code db digest p none now = (db, refused invalid_code)
  use_code db digest p (some g) now =
      if is_code_refused crypto env client.client_id p now g
      then (db, refused invalid_code)
      else issue_code db digest p g now

  unfoldable pub exchange_code : Db → List (Text × Text) → ℕ → Db × Reply
  exchange_code db fields now = elim (presented_code fields) [
    | none ↦ (db, refused code_parameter_required)
    | some p ↦
        if not (valid_verifier p.verifier)
        then (db, refused pkce_failed)
        else elim (code_digest crypto env p.code) [
          | none ↦ (db, failed)
          | some digest ↦ use_code db digest p (authorization_code db digest) now
        ]
  ]
