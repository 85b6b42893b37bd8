-- ===== src/Oauth/Tests/Flow.antt =====
-- Runs of the authorization, token, and logout endpoints on sample rows.
use moesegfault_indentity.Device.Repository.{authorize_fails}
use moesegfault_indentity.Oauth.Codes.Trace.{Request, log_out, serve, handle}
use moesegfault_indentity.Oauth.Codes.Consume.{
  start_family, is_use, settle_use, passes_trigger, use_fails, is_redeemable, may_redeem,
  insert_use, consume_code,
}
use moesegfault_indentity.Oauth.Codes.Exchange.{
  request_digest, redeem, claim_code, issue_code, pkce_challenge, is_code_refused, use_code,
  code_digest, presented_code, exchange_code,
}
use moesegfault_indentity.Oauth.Syntax.{valid_verifier, only_fields}
use moesegfault_indentity.Oauth.Token.{
  dispatch, for_client, grant_type, allowed_fields, token_fields, token,
}
use moesegfault_indentity.Oauth.Jwt.{
  publishable_jwk, public_keys, issuance_config, aud_contains, verify_jwt_signature, parse_jwt,
  Jose,
}
use moesegfault_indentity.Secret.{hmac}
use moesegfault_indentity.Store.{is_enabled_client, has_authority, Db, active}
use moesegfault_indentity.Store.Sql.{update}
use moesegfault_indentity.Base.{
  Bool, ℕ, ◌≡◌, refl, true, false, some, none, Option, [], ◌∷◌, List, if◌then◌else◌,
}
use moesegfault_indentity.Base.Json.{
  Json, number, string, array, object, element, done, member, closed,
}
use moesegfault_indentity.Base.Text.{Text, text, eq_text, split, bytes}
use moesegfault_indentity.Store.Codes.{Code, completed}
use moesegfault_indentity.Store.Samples.{sample_db, sample_client}
use moesegfault_indentity.Guard.{Env}
use moesegfault_indentity.Oauth.Codes.{
  authorization_code, issue_authorization_code, is_presented, code_grant, authorization_transaction,
  code_clashes, insert_code, complete, may_complete, is_completed_at,
}
use moesegfault_indentity.Oauth.Codes.Binding.{issue_binds}
use moesegfault_indentity.Oauth.Codes.Single.{issue_twice}
use moesegfault_indentity.Oauth.Codes.Tests.{
  stand_in, deployment, issuance, signer, tv, draw, verifier, sample_transaction, sample_code,
  code_db, form, shown, code_grant_row,
}
use moesegfault_indentity.Oauth.Issue.{
  OauthClient, refresh_digest, parse_number, config_seconds, sign_tokens, ensure_client_session_id,
  ensure_pairwise_subject, pairwise, peppered,
}
use moesegfault_indentity.Oauth.Refresh.{RefreshGrant, refresh_grant, clashes, refresh_of}
use moesegfault_indentity.Oauth.Exchange.{offline_family, exchange_refresh}
use moesegfault_indentity.Oauth.Exchange.Runs.{is_issued}
use moesegfault_indentity.Oauth.Clients.{
  authenticate_client_at, client_assertion_type, authenticate_client, record_client_assertion,
  are_claims_wrong, record_jti, client_key, check_signature, check_assertion, authenticate_found,
  client, is_public_client,
}
use moesegfault_indentity.Oauth.Logout.{logout_session}
use moesegfault_indentity.Oauth.Logout.Ended.{logout_stops_code, logout_stops_refresh}
use moesegfault_indentity.Oauth.Token.Gate.{
  is_token, assertion_once, Authenticated, token-Authenticated, attempts, Attempt,
}

abbrev issued_db : Db
issued_db = record code_db {
  transactions = record sample_transaction { state = completed; consumed_at = some 1100 } ∷ [];
  codes =
      sample_code
      ∷ record sample_code {
        id = text "c2";
        digest = text "E";
        transaction_id = text "x1";
        scope = text "openid";
        issued_at = 1100;
        expires_at = 1160;
      }
      ∷ [];
}

sample_issue :
    issue_authorization_code code_db
      (text "x1")
      (text "c2")
      (text "E")
      (text "s1")
      (text "p1")
      1100
      1160
    ≡ some (issued_db, true)
unfolding issue_authorization_code update is_completed_at may_complete has_authority
    is_enabled_client complete insert_code code_clashes
sample_issue = refl

issue_binds_example : (c : Code) × (c.nonce ≡ text "abcdefgh")
unfolding authorization_transaction issue_authorization_code update is_completed_at may_complete
issue_binds_example =
    let r =
      issue_binds code_db issued_db (text "x1") (text "c2") (text "E") (text "s1") (text "p1") 1100
        1160 sample_transaction (refl, tt) refl refl sample_issue in
    (r.0, r.5)

abbrev between_issues : List Request
between_issues = log_out (text "s9") 1100 ∷ []

-- Whether an issue committed and returned `true`.
abbrev is_granted : Option (Db × Bool) → Bool
is_granted none = false
is_granted (some r) = r.1

abbrev second_run : Option (Db × Bool)
second_run =
    issue_authorization_code (serve stand_in deployment issuance signer between_issues issued_db)
      (text "x1") (text "c3") (text "F") (text "s1") (text "p1") 1101 1161

second_issue : second_run ≡ some (issued_db, is_granted second_run)
unfolding issue_authorization_code update serve handle logout_session is_completed_at may_complete
    token issuance_config public_keys publishable_jwk token_fields allowed_fields grant_type
    only_fields for_client authenticate_client authenticate_client_at client authenticate_found
    is_public_client dispatch exchange_code presented_code valid_verifier bytes code_digest peppered
    use_code authorization_code is_presented hmac code_grant is_code_refused pkce_challenge
    issue_code pairwise ensure_pairwise_subject claim_code ensure_client_session_id offline_family
    split refresh_digest redeem consume_code insert_use may_redeem is_redeemable has_authority
    is_enabled_client use_fails passes_trigger settle_use is_use request_digest start_family clashes
    sign_tokens authorize_fails config_seconds parse_number
second_issue = refl

issue_twice_example : is_granted second_run ≡ false
issue_twice_example =
    issue_twice stand_in deployment issuance signer (text "x1") code_db issued_db issued_db
      (text "c2") (text "c3") (text "E") (text "F") (text "s1") (text "s1") (text "p1") (text "p1")
      1100 1101 1160 1161 between_issues (is_granted second_run) sample_issue second_issue

abbrev out_db : Db
out_db = logout_session code_db (text "s1") 1090

found_code :
    authorization_code out_db (text "C")
    ≡ some (record code_grant_row { session_revoked_at = some 1090 })
unfolding authorization_code logout_session is_presented code_grant update
found_code = refl

logout_stops_code_example :
    is_issued (exchange_code stand_in deployment issuance signer tv draw 1101 out_db form 1100).1
    ≡ false
unfolding presented_code code_digest authorization_code logout_session is_presented code_grant
    update peppered hmac bytes
logout_stops_code_example =
    logout_stops_code stand_in deployment issuance signer tv draw 1101 code_db (text "s1") 1090 form
      1100 shown (text "C") (record code_grant_row { session_revoked_at = some 1090 }) refl refl
      found_code refl

abbrev refresh_form : List (Text × Text)
refresh_form = (text "refresh_token", text "R") ∷ (text "client_id", text "tv") ∷ []

abbrev refresh_row : RefreshGrant
refresh_row = record {
  token_id = text "t1";
  family_id = text "f1";
  generation = 0;
  token_state = active;
  token_expires_at = 8000;
  client_id = text "tv";
  principal_id = text "p1";
  session_id = text "s1";
  scope = text "openid";
  absolute_expires_at = 8000;
  family_revoked_at = some 1090;
  authenticated_at = 900;
  session_idle_expires_at = 5000;
  session_absolute_expires_at = 9000;
  session_revoked_at = some 1090;
  amr_json = text "[]";
  acr = text "1";
  display_name = text "Ada";
  username = text "ada";
  sector_identifier = text "tv.example";
  subject_salt_revision = 1;
}

found_refresh : refresh_grant out_db (text "R") ≡ some refresh_row
unfolding refresh_grant logout_session refresh_of update refresh_digest peppered hmac bytes
    authenticate_client_at client authenticate_found is_public_client check_assertion parse_jwt
    split check_signature client_key verify_jwt_signature record_jti are_claims_wrong aud_contains
    record_client_assertion token issuance_config public_keys publishable_jwk token_fields
    allowed_fields grant_type only_fields for_client authenticate_client dispatch exchange_code
    presented_code valid_verifier
found_refresh = refl

logout_stops_refresh_example :
    is_issued
      (exchange_refresh stand_in deployment issuance signer tv draw out_db refresh_form 1100).1
    ≡ false
unfolding refresh_digest peppered hmac bytes authenticate_client_at client authenticate_found
    is_public_client check_assertion parse_jwt split check_signature client_key verify_jwt_signature
    record_jti are_claims_wrong aud_contains record_client_assertion token issuance_config
    public_keys publishable_jwk token_fields allowed_fields grant_type only_fields for_client
    authenticate_client dispatch exchange_code presented_code valid_verifier
logout_stops_refresh_example =
    logout_stops_refresh stand_in deployment issuance signer tv draw 1101 code_db (text "s1") 1090
      refresh_form 1100 (text "R") (text "R") refresh_row refl refl found_refresh refl

-- Signing is configured, and a JWT's header and claims are fixed.
abbrev key_set : Json
key_set = object (
    member (text "keys")
      (array (
        element
          (object (
            member (text "kid") (string (text "1")) (
              member (text "alg") (string (text "RS256")) (
                member (text "kty") (string (text "RSA")) (
                  member (text "n") (string (text "n"))
                    (member (text "e") (string (text "e")) closed))))))
          done))
      closed)

abbrev jwt_header : Json
jwt_header =
    object (
      member (text "kid") (string (text "k9")) (member (text "alg") (string (text "RS256")) closed))

abbrev jwt_claims : Json
jwt_claims = object (
    member (text "iss") (string (text "web")) (
      member (text "sub") (string (text "web")) (
        member (text "aud") (string (text "A")) (
          member (text "exp") (number (text "1200")) (
            member (text "iat") (number (text "1000"))
              (member (text "jti") (string (text "J")) closed))))))

abbrev header_or_claims : List ℕ → Option Json
header_or_claims b = if eq_text b (text "H") then some jwt_header else some jwt_claims

abbrev pub jose : Jose
jose = record {
  from_slice = header_or_claims;
  from_str = λ t. some key_set;
  to_string = λ j. [];
  verify = λ s g a k. some true;
}

abbrev web_db : Db
web_db = record sample_db {
  clients =
      record sample_client {
        client_id = text "web";
        client_type = text "confidential";
        token_endpoint_auth_method = text "private_key_jwt";
      }
      ∷ [];
  client_keys =
      record {
        client_id = text "web";
        kid = text "k9";
        algorithm = text "RS256";
        public_jwk_json = [];
        retired_at = none;
      }
      ∷ [];
}

abbrev web : OauthClient
web = record {
  client_id = text "web";
  client_type = text "confidential";
  token_endpoint_auth_method = text "private_key_jwt";
  device_authorization_enabled = true;
}

abbrev web_form : List (Text × Text)
web_form =
    (text "client_assertion_type", client_assertion_type)
    ∷ (text "client_assertion", text "H.C.S")
    ∷ []

abbrev asserted_db : Db
asserted_db = record web_db {
  assertions = record { client_id = text "web"; jti_digest = text "J"; expires_at = 1200 } ∷ [];
}

sample_asserted :
    authenticate_client_at stand_in jose web_db (text "web") web_form (text "A") 1100
    ≡ some (asserted_db, web)
unfolding authenticate_client_at client authenticate_found is_public_client check_assertion
    parse_jwt split check_signature client_key verify_jwt_signature record_jti are_claims_wrong
    aud_contains record_client_assertion bytes token issuance_config public_keys publishable_jwk
    token_fields allowed_fields grant_type only_fields for_client authenticate_client dispatch
    exchange_code presented_code valid_verifier
sample_asserted = refl

abbrev failed_attempts : List (Attempt stand_in jose)
failed_attempts =
    record { who = text "web"; fields = web_form; audience = text "A"; at = 1101 }
    ∷ record { who = text "tv"; fields = []; audience = text "A"; at = 1101 }
    ∷ []

assertion_once_example :
    authenticate_client_at stand_in jose
      (attempts stand_in jose failed_attempts asserted_db)
      (text "web")
      web_form
      (text "A")
      1102
    ≡ none
unfolding is_public_client
assertion_once_example =
    assertion_once stand_in jose web_db asserted_db web (text "web") (text "A") (text "A") web_form
      web_form 1100 1102 failed_attempts sample_asserted refl refl

abbrev pub configured : Env
configured = record {
  var = λ name. some (if eq_text name (text "OAUTH_ENABLED") then text "true" else text "1");
  secret = λ _. some (text "k");
}

abbrev token_form : List (Text × Text)
token_form =
    (text "grant_type", text "authorization_code")
    ∷ (text "client_id", text "tv")
    ∷ (text "code", text "C")
    ∷ (text "redirect_uri", text "http://127.0.0.1/cb")
    ∷ (text "code_verifier", verifier)
    ∷ []

sample_token_issued :
    is_token (token stand_in jose configured signer draw 1101 code_db (some token_form) 1100).1
    ≡ true
unfolding token issuance_config public_keys publishable_jwk token_fields allowed_fields grant_type
    only_fields for_client authenticate_client authenticate_client_at client authenticate_found
    is_public_client dispatch exchange_code presented_code valid_verifier bytes code_digest peppered
    use_code authorization_code is_presented hmac code_grant is_code_refused pkce_challenge
    issue_code pairwise ensure_pairwise_subject claim_code ensure_client_session_id offline_family
    split refresh_digest redeem consume_code insert_use may_redeem is_redeemable has_authority
    is_enabled_client use_fails passes_trigger settle_use is_use request_digest start_family clashes
    sign_tokens authorize_fails config_seconds parse_number
sample_token_issued = refl

token-Authenticated_example : Authenticated stand_in jose configured code_db token_form 1100
token-Authenticated_example =
    token-Authenticated stand_in jose configured signer draw 1101 code_db token_form 1100
      sample_token_issued
