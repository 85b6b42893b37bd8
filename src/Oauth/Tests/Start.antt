-- ===== src/Oauth/Tests/Start.antt =====
-- A run of the authorization endpoint on sample rows.
use moesegfault_indentity.Store.Sql.{update}
use moesegfault_indentity.Session.{
  touched, touch_session, session_touch_due, may_touch, is_current_session, current_session,
  authenticated_session,
}
use moesegfault_indentity.Secret.{hmac}
use moesegfault_indentity.Oauth.Codes.{scopes_allowed, insert_authorization_transaction}
use moesegfault_indentity.Guard.{named_value, login_origin, cookie_in, cookie, Headers}
use moesegfault_indentity.Base.Text.{
  Text, text, trim_start_if, trim_end_if, split_once, split, is_whitespace, bytes,
}
use moesegfault_indentity.Oauth.Clients.{redirect_registrations, client}
use moesegfault_indentity.Oauth.Syntax.{
  loopback_uri_tail, loopback_redirect_matches, join, from_slash, collect_scopes, canonical_scopes,
  authorization_redirect_allowed, only_fields, unique_fields, Url,
}
use moesegfault_indentity.Policy.{validate_pkce_s256}
use moesegfault_indentity.Oauth.Jwt.{publishable_jwk, public_keys, issuance_config}
use moesegfault_indentity.Base.{◌≡◌, refl, false, some, none, [], ◌∷◌, List}
use moesegfault_indentity.Store.{Db}
use moesegfault_indentity.Store.Samples.{sample_db}
use moesegfault_indentity.Oauth.Codes.Tests.{stand_in, verifier}
use moesegfault_indentity.Oauth.Tests.Flow.{jose, configured}
use moesegfault_indentity.Oauth.Issue.{peppered, Issuance}
use moesegfault_indentity.Oauth.Authorize.{
  Urls, parameters, authorize, to_login, start_transaction, openid_scopes, authorization_resume_uri,
  authorization_error, for_scopes, authorize_client, are_parameters_wrong, authorize_parameters,
  authorize_query, is_top_navigation,
}
use moesegfault_indentity.Oauth.Authorize.Flow.{Accepted, is_refusal, authorize-Accepted}

abbrev plain_url : Url
plain_url = record {
  scheme = text "https";
  host = none;
  username = [];
  password = none;
  fragment = none;
}

abbrev urls : Urls
urls = record { parse = λ t. some plain_url; append_query = λ base items. some base }

abbrev no_header : Headers
no_header = λ name. none

abbrev app_db : Db
app_db = record sample_db {
  redirects =
      record {
        client_id = text "tv";
        redirect_uri = text "https://app/cb";
        match_mode = text "exact";
      }
      ∷ [];
  client_scopes = record { client_id = text "tv"; scope = text "openid" } ∷ [];
}

abbrev pairs : List (Text × Text)
pairs =
    (text "client_id", text "tv")
    ∷ (text "redirect_uri", text "https://app/cb")
    ∷ (text "response_type", text "code")
    ∷ (text "scope", text "openid")
    ∷ (text "state", text "12345678")
    ∷ (text "nonce", text "abcdefgh")
    ∷ (text "code_challenge", verifier)
    ∷ (text "code_challenge_method", text "S256")
    ∷ []

sample_authorized :
    is_refusal stand_in jose configured urls no_header
      (authorize stand_in jose configured urls no_header app_db pairs (text "x1") 1100 1100).1
    ≡ false
unfolding authorize issuance_config public_keys publishable_jwk is_top_navigation authorize_query
    unique_fields only_fields authorize_parameters parameters are_parameters_wrong bytes
    validate_pkce_s256 authorize_client client authorization_redirect_allowed redirect_registrations
    for_scopes is_whitespace split split_once trim_end_if trim_start_if cookie cookie_in
    login_origin named_value authorization_error authorization_resume_uri openid_scopes
    start_transaction to_login insert_authorization_transaction scopes_allowed peppered
    canonical_scopes collect_scopes from_slash join loopback_redirect_matches loopback_uri_tail hmac
    authenticated_session current_session is_current_session may_touch session_touch_due
    touch_session touched update
sample_authorized = refl

authorize-Accepted_example :
    (i : Issuance) × (query : List (Text × Text)) × Accepted stand_in jose configured urls no_header
      app_db i
      (parameters query)
      (authorize stand_in jose configured urls no_header app_db pairs (text "x1") 1100 1100).1
authorize-Accepted_example =
    let r =
      authorize-Accepted stand_in jose configured urls no_header app_db pairs (text "x1") 1100 1100
        sample_authorized in
    (r.0, r.1, r.4)
