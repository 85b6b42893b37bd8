-- ===== src/Device/Handlers/Tests.antt =====
-- A run of the consent page.
use moesegfault_indentity.Session.{
  session_touch_due, is_current_session, authenticated_session, current_session,
}
use moesegfault_indentity.Base.{◌≡◌, refl, true, some, none, [], ◌∷◌, if◌then◌else◌}
use moesegfault_indentity.Base.Text.{
  text, eq_text, bytes, split, split_once, trim_start_if, trim_end_if, is_whitespace,
}
use moesegfault_indentity.Secret.{Crypto, hmac, to_base64url}
use moesegfault_indentity.Store.{Db, has_authority, is_device_client}
use moesegfault_indentity.Store.Sql.{update}
use moesegfault_indentity.Store.Samples.{sample_db}
use moesegfault_indentity.Guard.{
  Headers, Env, validate_browser_mutation, validate_session_csrf, csrf_token_matches,
  session_csrf_token, cookie, cookie_in, login_origin, allowed_origin, allowed_origin_for,
  configured_origin, media_type_is, fetch_site_allowed, account_origin,
}
use moesegfault_indentity.Oauth.Issue.{peppered}
use moesegfault_indentity.Device.Codes.{normalize_user_code}
use moesegfault_indentity.Device.Repository.{
  new_device, approve, decide, may_decide, reserve_attempt, count_attempt, lookup,
}
use moesegfault_indentity.Device.Handlers.{
  Readings, browser_session, purpose_digest, decide_found, decide_code, decide_counted,
  decide_request,
}
use moesegfault_indentity.Device.Handlers.Consent.{is_settled, Decided, decide_request_lem}

abbrev stand_in : Crypto
stand_in = record {
  hmac_sha256 = λ k m. m;
  sha256 = λ m. m;
  encode = λ b. text "t";
  decode = λ b. some b;
}

abbrev deployment : Env
deployment = record { var = λ _. none; secret = λ _. some (text "k") }

abbrev headers : Headers
headers name =
    if eq_text name (text "origin")
    then some (text "https://login.moesegfault.dev")
    else if eq_text name (text "content-type")
    then some (text "application/json")
    else if eq_text name (text "x-moesegfault-csrf")
    then some (text "t")
    else if eq_text name (text "cookie")
    then some (text "__Host-identity_session=S")
    else none

abbrev waiting : Db
waiting = record sample_db {
  devices =
      new_device (text "d1") (text "D") (text "user-code:ABCDEFGH") (text "tv") (text "openid") 1000
        1600
      ∷ [];
}

abbrev readings : Readings
readings = record {
  authenticated = 1100;
  reserved = 1100;
  looked_up = 1100;
  compared = 1100;
  last = 1101;
}

sample_settled :
    is_settled
      (decide_request stand_in deployment headers
        (some (text "abcd-efgh", approve))
        waiting
        readings).1
    ≡ true
unfolding decide_request browser_session purpose_digest decide_found decide_code decide_counted
    peppered normalize_user_code decide may_decide reserve_attempt count_attempt lookup
    has_authority is_device_client hmac to_base64url bytes split split_once trim_start_if
    trim_end_if is_whitespace update validate_browser_mutation validate_session_csrf
    csrf_token_matches session_csrf_token cookie cookie_in login_origin account_origin
    allowed_origin allowed_origin_for configured_origin media_type_is fetch_site_allowed
    authenticated_session current_session is_current_session session_touch_due
sample_settled = refl

decide_request_lem_example :
    Decided stand_in deployment headers
      (some (text "abcd-efgh", approve))
      waiting
      readings
      (decide_request stand_in deployment headers
        (some (text "abcd-efgh", approve))
        waiting
        readings).0
decide_request_lem_example =
    (decide_request_lem stand_in deployment headers (some (text "abcd-efgh", approve)) waiting
        readings).1
      sample_settled
