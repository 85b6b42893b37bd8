-- ===== src/Device/Start/Tests.antt =====
-- A run of the handler `start`.
use moesegfault_indentity.Store.Sql.{update}
use moesegfault_indentity.Oauth.Jwt.{
  verify_jwt_signature, parse_jwt, aud_contains, publishable_jwk, public_keys, issuance_config,
}
use moesegfault_indentity.Oauth.Issue.{peppered}
use moesegfault_indentity.Oauth.Clients.{
  record_jti, record_client_assertion, is_assertion, client_key, check_signature, check_assertion,
  are_claims_wrong, is_public_client, authenticate_found, client, authenticate_client_at,
}
use moesegfault_indentity.Guard.{login_origin, Headers}
use moesegfault_indentity.Device.Handlers.{purpose_digest}
use moesegfault_indentity.Device.Codes.{formatted_user_code}
use moesegfault_indentity.Oauth.Codes.{scopes_allowed}
use moesegfault_indentity.Oauth.Syntax.{join, collect_scopes, canonical_scopes, only_fields}
use moesegfault_indentity.Base.{◌≡◌, refl, some, none, List, [], ◌∷◌, ◌++◌}
use moesegfault_indentity.Base.Text.{Text, text, split, bytes}
use moesegfault_indentity.Secret.{hmac, Crypto}
use moesegfault_indentity.Store.{Db}
use moesegfault_indentity.Store.Samples.{sample_db, sample_client}
use moesegfault_indentity.Oauth.Authorize.{Urls}
use moesegfault_indentity.Oauth.Tests.Flow.{jose, configured}
use moesegfault_indentity.Device.Repository.{
  new_device, insert, reserve_attempt, is_bucket, device_clashes, count_attempt,
}
use moesegfault_indentity.Device.Start.{
  StartDraw, Started, started, start, random_user_code, device_scopes, start_scoped,
}
use moesegfault_indentity.Device.Start.Pending.{Begun, start-Begun}

abbrev plain : Crypto
plain = record { hmac_sha256 = λ k m. m; sha256 = λ m. m; encode = λ b. b; decode = λ b. some b }

abbrev urls : Urls
urls = record { parse = λ t. none; append_query = λ base items. some base }

abbrev no_header : Headers
no_header = λ name. none

abbrev draw : StartDraw
draw = record {
  id = text "d2";
  device_code = text "dc";
  indices = 0 ∷ 1 ∷ 2 ∷ 3 ∷ 4 ∷ 5 ∷ 6 ∷ 31 ∷ [];
  authenticated = 1000;
  reserved = 1000;
  retried = 1000;
  last = 1001;
}

abbrev tv_db : Db
tv_db = record sample_db {
  clients = sample_client ∷ [];
  client_scopes = record { client_id = text "tv"; scope = text "openid" } ∷ [];
}

abbrev form : List (Text × Text)
form = (text "client_id", text "tv") ∷ []

abbrev answer : Started
answer = record {
  device_code = text "dc";
  user_code = text "ABCD-EFG9";
  verification_uri = text "1/device";
  verification_uri_complete = text "1/device";
  expires_in = 600;
  interval = 5;
}

abbrev after : Db
after = record tv_db {
  devices =
      tv_db.devices
      ++ new_device (text "d2") (text "device-code:dc") (text "user-code:ABCDEFG9") (text "tv")
          (text "openid") 1001 1601
        ∷ [];
}

sample_start :
    start plain jose configured urls draw no_header tv_db (some form) ≡ (after, started answer)
unfolding start issuance_config public_keys publishable_jwk only_fields authenticate_client_at
    client authenticate_found is_public_client start_scoped device_scopes canonical_scopes bytes
    collect_scopes split join scopes_allowed formatted_user_code purpose_digest count_attempt
    is_bucket reserve_attempt insert device_clashes random_user_code login_origin are_claims_wrong
    check_assertion check_signature client_key is_assertion record_client_assertion record_jti
    peppered aud_contains parse_jwt verify_jwt_signature hmac update
sample_start = refl

start-Begun_example : Begun plain jose configured urls draw no_header tv_db (some form) after answer
start-Begun_example =
    start-Begun plain jose configured urls draw no_header tv_db (some form) after answer
      sample_start
