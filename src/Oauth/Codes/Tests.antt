-- ===== src/Oauth/Codes/Tests.antt =====
-- Runs of the authorization-code flow on sample rows, with a stand-in for the cryptography.
use moesegfault_indentity.Device.Repository.{authorize_fails, first_token, authorize}
use moesegfault_indentity.Oauth.Codes.Life.{
  CodesValid, exchange_code-Spending, exchange_code-CodesValid,
}
use moesegfault_indentity.Oauth.Codes.Phase.{Spending, phase}
use moesegfault_indentity.Oauth.Codes.Authority.{
  Entitled, exchange_code-Entitled, exchange_code-refused,
}
use moesegfault_indentity.Oauth.Codes.Trace.{Request, log_out, serve, code_redeemed_once}
use moesegfault_indentity.Oauth.Codes.Once.{consume_code_twice, consume_code_again, is_new_family}
use moesegfault_indentity.Store.Sql.{update}
use moesegfault_indentity.Secret.{to_base64url, hmac, Crypto}
use moesegfault_indentity.Oauth.Refresh.{clashes}
use moesegfault_indentity.Oauth.Exchange.{pkce_failed, offline_family}
use moesegfault_indentity.Oauth.Codes.Consume.{
  code_family, use_fails, start_family, spend, settle_use, passes_trigger, may_redeem, is_use,
  is_redeemable, insert_use, consume_code,
}
use moesegfault_indentity.Base.Text.Decimal.{decimal}
use moesegfault_indentity.Oauth.Syntax.{valid_verifier}
use moesegfault_indentity.Base.{ℕ, ◌≡◌, refl, true, false, some, none, [], ◌∷◌, List, ◌++◌}
use moesegfault_indentity.Base.Text.{Text, text, bytes, split, split_ascii_whitespace}
use moesegfault_indentity.Store.{Db, has_authority, is_enabled_client}
use moesegfault_indentity.Store.Codes.{Transaction, Code, authenticated}
use moesegfault_indentity.Store.Samples.{sample_db}
use moesegfault_indentity.Guard.{Env}
use moesegfault_indentity.Oauth.Issue.{
  OauthClient, Issuance, Signer, Draw, sign_tokens, refresh_digest, parse_number, parse_digits,
  pairwise_input, config_seconds, access_claims, ensure_client_session_id, ensure_pairwise_subject,
  pairwise, peppered,
}
use moesegfault_indentity.Oauth.Codes.{CodeGrant, authorization_code, code_grant, is_presented}
use moesegfault_indentity.Oauth.Codes.Exchange.{
  Presented, exchange_code, request_digest, redeem, lost_code, claim_code, issue_code,
  pkce_challenge, is_code_refused, use_code, code_digest, presented_code,
}
use moesegfault_indentity.Oauth.Exchange.Runs.{Same, is_issued}

-- The message stands in for its digest.
abbrev pub stand_in : Crypto
stand_in = record { hmac_sha256 = λ k m. m; sha256 = λ m. m; encode = λ b. b; decode = λ b. some b }

abbrev pub deployment : Env
deployment = record { var = λ _. none; secret = λ _. some (text "k") }

abbrev pub issuance : Issuance
issuance = record { issuer = text "https://id"; kid = text "1"; key = text "k" }

abbrev pub signer : Signer
signer = record {
  sign_access = λ k i c. some (text "access");
  sign_id = λ k i c. some (text "id");
  is_json = λ t. true;
}

abbrev pub tv : OauthClient
tv = record {
  client_id = text "tv";
  client_type = text "native";
  token_endpoint_auth_method = text "none";
  device_authorization_enabled = true;
}

abbrev pub draw : Draw
draw = record {
  public_sid = text "csid_1";
  jti = text "j";
  wire = text "W";
  family_id = text "f2";
  token_id = text "t2";
  marker = text "m1";
  authorization_id = text "a1";
  later = 1101;
}

abbrev pub verifier : Text
verifier = text "0123456789012345678901234567890123456789abc"

abbrev pub sample_transaction : Transaction
sample_transaction = record {
  id = text "x1";
  client_id = text "tv";
  redirect_uri = text "http://127.0.0.1/cb";
  scope = text "openid";
  state_value = text "12345678";
  nonce = text "abcdefgh";
  code_challenge = verifier;
  principal_id = some (text "p1");
  session_id = some (text "s1");
  state = authenticated;
  created_at = 1000;
  expires_at = 1300;
  consumed_at = none;
}

abbrev pub sample_code : Code
sample_code = record {
  id = text "c1";
  digest = text "C";
  transaction_id = text "x0";
  client_id = text "tv";
  principal_id = text "p1";
  session_id = text "s1";
  redirect_uri = text "http://127.0.0.1/cb";
  scope = text "openid offline_access";
  nonce = text "abcdefgh";
  code_challenge = verifier;
  issued_at = 1050;
  expires_at = 1110;
  consumed_at = none;
  revoked_at = none;
}

-- The sample rows with an authenticated transaction and a code that is not yet redeemed.
abbrev pub code_db : Db
code_db = record sample_db { transactions = sample_transaction ∷ []; codes = sample_code ∷ [] }

abbrev pub form : List (Text × Text)
form =
    (text "code", text "C")
    ∷ (text "redirect_uri", text "http://127.0.0.1/cb")
    ∷ (text "code_verifier", verifier)
    ∷ []

abbrev pub shown : Presented
shown = record { code = text "C"; redirect = text "http://127.0.0.1/cb"; verifier = verifier }

sample_redeemed :
    is_issued (exchange_code stand_in deployment issuance signer tv draw 1101 code_db form 1100).1
    ≡ true
unfolding exchange_code presented_code valid_verifier bytes code_digest peppered use_code
    authorization_code is_presented hmac code_grant is_code_refused pkce_challenge issue_code
    pairwise ensure_pairwise_subject claim_code ensure_client_session_id decimal split
    split_ascii_whitespace authorize consume_code insert_use is_redeemable is_use may_redeem
    passes_trigger settle_use spend start_family use_fails lost_code redeem request_digest
    offline_family access_claims config_seconds pairwise_input parse_digits parse_number
    refresh_digest sign_tokens clashes to_base64url update has_authority is_enabled_client
    authorize_fails
sample_redeemed = refl

sample_valid : CodesValid code_db.codes code_db.code_uses
sample_valid = record { distinct = (refl, tt); applied = refl }

abbrev later_requests : List Request
later_requests = log_out (text "s9") 1105 ∷ []

code_redeemed_once_example :
    is_issued
      (exchange_code stand_in deployment issuance signer tv draw 1106
        (serve stand_in deployment issuance signer later_requests
          (exchange_code stand_in deployment issuance signer tv draw 1101 code_db form 1100).0)
        form
        1105).1
    ≡ false
unfolding presented_code
code_redeemed_once_example =
    code_redeemed_once stand_in deployment issuance signer code_db tv tv draw draw 1101 1106 1100
      1105 form form shown shown later_requests sample_valid refl refl refl sample_redeemed

exchange_code-Spending_example : Spending (phase (text "C") code_db.codes) (
    phase
      (text "C")
      (exchange_code stand_in deployment issuance signer tv draw 1101 code_db form 1100).0.codes)
exchange_code-Spending_example =
    exchange_code-Spending stand_in deployment issuance signer tv draw 1101 code_db form 1100
      sample_valid (text "C")

exchange_code-CodesValid_example :
    CodesValid
      (exchange_code stand_in deployment issuance signer tv draw 1101 code_db form 1100).0.codes
      (exchange_code stand_in deployment issuance signer tv draw 1101 code_db form 1100).0.code_uses
exchange_code-CodesValid_example =
    exchange_code-CodesValid stand_in deployment issuance signer tv draw 1101 code_db form 1100
      sample_valid

exchange_code-Entitled_example : Entitled stand_in deployment (text "tv") code_db form 1100
exchange_code-Entitled_example =
    exchange_code-Entitled stand_in deployment issuance signer tv draw 1101 code_db form 1100
      sample_valid sample_redeemed

-- A wrong verifier is refused.
abbrev wrong_form : List (Text × Text)
wrong_form =
    (text "code", text "C")
    ∷ (text "redirect_uri", text "http://127.0.0.1/cb")
    ∷ (text "code_verifier", text "short")
    ∷ []

exchange_code-refused_example :
    Same code_db
      (exchange_code stand_in deployment issuance signer tv draw 1101 code_db wrong_form 1100).0
unfolding exchange_code presented_code valid_verifier bytes
exchange_code-refused_example =
    exchange_code-refused stand_in deployment issuance signer tv draw 1101 code_db wrong_form 1100
      pkce_failed refl

abbrev pub code_grant_row : CodeGrant
code_grant_row = record {
  id = text "c1";
  client_id = text "tv";
  principal_id = text "p1";
  session_id = text "s1";
  redirect_uri = text "http://127.0.0.1/cb";
  scope = text "openid offline_access";
  nonce = text "abcdefgh";
  code_challenge = verifier;
  expires_at = 1110;
  authenticated_at = 900;
  session_idle_expires_at = 5000;
  session_absolute_expires_at = 9000;
  session_revoked_at = none;
  amr_json = text "[]";
  acr = text "1";
  display_name = text "Ada";
  username = text "ada";
  sector_identifier = text "tv.example";
  subject_salt_revision = 1;
}

-- The state after the first of two batches.
abbrev consumed_db : Db
consumed_db = record code_db {
  codes = record sample_code { consumed_at = some 1100 } ∷ [];
  code_uses = record { code_id = text "c1"; request_digest = text "Q"; used_at = 1100 } ∷ [];
  authorizations =
      record {
        authorization_id = text "a1";
        principal_id = text "p1";
        client_id = text "tv";
        scopes = text "openid" ∷ text "offline_access" ∷ [];
        granted_at = 1100;
        updated_at = 1100;
        last_used_at = 1100;
        revoked_at = none;
      }
      ∷ [];
}

first_batch :
    consume_code code_db code_grant_row (text "Q") none (text "a1") 1100 1101 8000
    ≡ some consumed_db
unfolding consume_code insert_use may_redeem is_redeemable has_authority is_enabled_client use_fails
    passes_trigger settle_use is_use start_family authorize spend update split_ascii_whitespace
    clashes authorize_fails
first_batch = refl

first_gate : may_redeem code_db code_grant_row 1100 ≡ true
unfolding may_redeem is_redeemable has_authority is_enabled_client start_family clashes consume_code
    insert_use settle_use is_use authorize update split_ascii_whitespace
first_gate = refl

-- The same batch for a grant with a refresh family.
abbrev family_db : Db
family_db = record consumed_db {
  families = code_db.families ++ code_family code_grant_row (text "f8") 8000 ∷ [];
  tokens = code_db.tokens ++ first_token (text "f8") (text "t8") (text "R8") 1100 8000 ∷ [];
}

family_batch :
    consume_code code_db code_grant_row
      (text "Q")
      (some (text "f8", text "t8", text "R8"))
      (text "a1")
      1100
      1101
      8000
    ≡ some family_db
unfolding exchange_code presented_code valid_verifier bytes code_digest peppered use_code
    authorization_code is_presented hmac code_grant is_code_refused pkce_challenge issue_code
    pairwise ensure_pairwise_subject claim_code ensure_client_session_id decimal split
    split_ascii_whitespace authorize consume_code insert_use is_redeemable is_use may_redeem
    passes_trigger settle_use spend start_family use_fails lost_code redeem request_digest
    offline_family access_claims config_seconds pairwise_input parse_digits parse_number
    refresh_digest sign_tokens clashes to_base64url update has_authority is_enabled_client
    authorize_fails
family_batch = refl

sample_new : is_new_family (text "f9", text "t9", text "R9") 1100 8000 family_db ≡ true
unfolding clashes
sample_new = refl

consume_code_again_example :
    (db'' : Db) × (consume_code family_db code_grant_row
        (text "Q")
        (some (text "f9", text "t9", text "R9"))
        (text "a2")
        1100
        1101
        8000
      ≡ some db'')
    × (db''.families
        ≡ (code_db.families ++ code_family code_grant_row (text "f8") 8000 ∷ [])
          ++ code_family code_grant_row (text "f9") 8000 ∷ [])
    × (db''.tokens
        ≡ (code_db.tokens ++ first_token (text "f8") (text "t8") (text "R8") 1100 8000 ∷ [])
          ++ first_token (text "f9") (text "t9") (text "R9") 1100 8000 ∷ [])
consume_code_again_example =
    consume_code_again code_db family_db code_grant_row (text "Q") (text "f8", text "t8", text "R8")
      (text "f9", text "t9", text "R9") (text "a1") (text "a2") 1100 1101 1101 8000 8000 first_gate
      family_batch sample_new

second_batch :
    consume_code consumed_db code_grant_row (text "Q") none (text "a2") 1100 1101 8000
    ≡ some consumed_db
unfolding consume_code insert_use may_redeem is_redeemable settle_use is_use start_family authorize
    update split_ascii_whitespace authorize_fails
second_batch = refl

consume_code_twice_example : (text "Q" ≡ text "Q") × (◌≡◌ {A = ℕ} 1100 1100)
consume_code_twice_example =
    consume_code_twice code_db consumed_db consumed_db code_grant_row (text "Q") (text "Q") none
      none (text "a1") (text "a2") 1100 1100 1101 1101 8000 8000 first_gate first_batch second_batch
