-- ===== src/Oauth/Tests.antt =====
-- Runs of the token endpoint on sample rows, with a stand-in for the cryptography.
pub mod Flow
pub mod Start
use moesegfault_indentity.Base.{all, ◌≡◌, refl, true, false, some, none, [], ◌∷◌, List, any}
use moesegfault_indentity.Base.Text.{Text, text, bytes, split, split_ascii_whitespace}
use moesegfault_indentity.Base.Text.Decimal.{decimal}
use moesegfault_indentity.Secret.{Crypto, hmac, to_base64url}
use moesegfault_indentity.Store.{
  Db, active, rotated, has_authority, is_enabled_client, is_device_client,
}
use moesegfault_indentity.Store.Sql.{update}
use moesegfault_indentity.Store.Samples.{sample_db, sample_device, sample_token}
use moesegfault_indentity.Guard.{Env}
use moesegfault_indentity.Device.Repository.{
  DeviceGrant, poll, polled, grant, consume, add_family, authorize, holds_marker, may_consume,
  set_consumed, authorize_fails, marker_fails,
}
use moesegfault_indentity.Oauth.Issue.{
  OauthClient, Issuance, Signer, Draw, peppered, refresh_digest, pairwise_input, pairwise,
  ensure_pairwise_subject, ensure_client_session_id, sign_tokens, access_claims, config_seconds,
}
use moesegfault_indentity.Oauth.Refresh.{
  RefreshGrant, rotate_refresh, revoke_family_for_reuse, may_rotate, rotated_tokens, is_live_family,
  clashes, promoted, may_promote, may_retire, refresh_grant, refresh_of,
}
use moesegfault_indentity.Oauth.Rotation.Once.{
  Step, rotates, revokes, AllFresh, step, steps, rotate_once,
}
use moesegfault_indentity.Oauth.Rotation.{
  is_unused, rotate_refresh_swaps, revoked_family_stops, is_active_token,
}
use moesegfault_indentity.Oauth.Syntax.{canonical_scopes, collect_scopes, join, is_scope}
use moesegfault_indentity.Oauth.Syntax.Scopes.{canonical_scopes_lem}
use moesegfault_indentity.Oauth.Exchange.{
  exchange_refresh, exchange_device, refused, refresh_reuse, use_refresh, issue_refresh,
  claim_refresh, rotate, classify_refresh_use, is_refresh_stale, poll_device, device_digest,
  answer_poll, grant_device, is_device_stale, issue_device, claim_device, sign_device,
  offline_family, finish_device,
}
use moesegfault_indentity.Oauth.Exchange.Runs.{is_issued}
use moesegfault_indentity.Oauth.Exchange.Replay.{presented, replay_detected}
use moesegfault_indentity.Oauth.Exchange.Authority.{Authorized, issued_by_authority}

-- The message stands in for its digest.
abbrev stand_in : Crypto
stand_in = record { hmac_sha256 = λ k m. m; sha256 = λ m. m; encode = λ b. b; decode = λ b. some b }

abbrev deployment : Env
deployment = record { var = λ _. none; secret = λ _. some (text "k") }

abbrev issuance : Issuance
issuance = record { issuer = text "https://id"; kid = text "1"; key = text "k" }

abbrev signer : Signer
signer = record {
  sign_access = λ k i c. some (text "access");
  sign_id = λ k i c. some (text "id");
  is_json = λ t. true;
}

abbrev tv : OauthClient
tv = record {
  client_id = text "tv";
  client_type = text "native";
  token_endpoint_auth_method = text "none";
  device_authorization_enabled = true;
}

abbrev draw : Text → Draw
draw token_id = record {
  public_sid = text "csid_1";
  jti = text "j";
  wire = text "W";
  family_id = text "f2";
  token_id = token_id;
  marker = text "m1";
  authorization_id = text "a1";
  later = 1101;
}

abbrev form : List (Text × Text)
form = (text "refresh_token", text "R") ∷ []

sample_refreshed :
    is_issued
      (exchange_refresh stand_in deployment issuance signer tv
        (draw (text "t2"))
        sample_db
        form
        1100).1
    ≡ true
unfolding exchange_refresh use_refresh issue_refresh claim_refresh rotate classify_refresh_use
    is_refresh_stale refresh_grant refresh_of rotate_refresh rotated_tokens may_rotate
    is_live_family is_enabled_client clashes promoted may_promote may_retire peppered refresh_digest
    pairwise_input pairwise ensure_pairwise_subject ensure_client_session_id sign_tokens
    access_claims config_seconds to_base64url hmac bytes decimal split has_authority update
sample_refreshed = refl

replay_detected_example :
    (g : RefreshGrant) × (presented stand_in deployment sample_db form ≡ some g)
    × (exchange_refresh stand_in deployment issuance signer tv
          (draw (text "t3"))
          (exchange_refresh stand_in deployment issuance signer tv
            (draw (text "t2"))
            sample_db
            form
            1100).0
          form
          1200
        ≡ (
          revoke_family_for_reuse
              (exchange_refresh stand_in deployment issuance signer tv
                (draw (text "t2"))
                sample_db
                form
                1100).0
              g.family_id
              1200,
          refused refresh_reuse,
        ))
replay_detected_example =
    replay_detected stand_in deployment issuance signer tv (draw (text "t2")) (draw (text "t3"))
      sample_db form 1100 1200 refl sample_refreshed

abbrev device_form : List (Text × Text)
device_form = (text "device_code", text "D") ∷ []

-- The sample request under the digest that the stand-in gives its code.
abbrev device_db : Db
device_db = record sample_db {
  devices = record sample_device { device_code_digest = text "device-code:D" } ∷ [];
}

sample_device_issued :
    is_issued
      (exchange_device stand_in deployment issuance signer tv
        (draw (text "t2"))
        device_db
        device_form
        1100).1
    ≡ true
unfolding exchange_device poll_device device_digest answer_poll poll polled grant_device grant
    is_device_stale issue_device claim_device sign_device offline_family finish_device consume
    add_family authorize holds_marker may_consume set_consumed is_device_client
    split_ascii_whitespace peppered refresh_digest pairwise_input pairwise ensure_pairwise_subject
    ensure_client_session_id sign_tokens access_claims config_seconds to_base64url hmac bytes
    decimal split has_authority update marker_fails authorize_fails clashes
sample_device_issued = refl

issued_by_authority_example :
    Authorized stand_in deployment issuance signer tv
      (draw (text "t2"))
      device_db
      device_form
      (exchange_device stand_in deployment issuance signer tv
        (draw (text "t2"))
        device_db
        device_form
        1100).0
issued_by_authority_example =
    issued_by_authority stand_in deployment issuance signer tv (draw (text "t2")) device_db
      device_form 1100 sample_device_issued

abbrev refresh : RefreshGrant
refresh = record {
  token_id = text "t1";
  family_id = text "f1";
  generation = 0;
  token_state = active;
  token_expires_at = 8000;
  client_id = text "tv";
  principal_id = text "p1";
  session_id = text "s1";
  scope = text "openid";
  absolute_expires_at = 8000;
  family_revoked_at = none;
  authenticated_at = 900;
  session_idle_expires_at = 5000;
  session_absolute_expires_at = 9000;
  session_revoked_at = none;
  amr_json = text "[]";
  acr = text "1";
  display_name = text "Ada";
  username = text "ada";
  sector_identifier = text "tv.example";
  subject_salt_revision = 1;
}

abbrev rotated_db : Db
rotated_db = record sample_db {
  tokens =
      record sample_token {
        state = rotated;
        consumed_at = some 1100;
        replacement = some (text "t2");
      }
      ∷ record sample_token {
        token_id = text "t2";
        digest = text "N";
        generation = 1;
        issued_at = 1100;
      }
      ∷ [];
}

sample_rotation :
    rotate_refresh sample_db refresh (text "t2") (text "N") 1100 8000 ≡ some rotated_db
unfolding rotate_refresh rotated_tokens may_rotate is_live_family has_authority is_enabled_client
    clashes promoted update may_promote may_retire
sample_rotation = refl

abbrev next_steps : List Step
next_steps = rotates refresh (text "t4") (text "P") 1150 8000 ∷ revokes (text "f9") 1160 ∷ []

sample_fresh : AllFresh next_steps rotated_db
sample_fresh = (refl, (tt, tt))

sample_unused : is_unused (text "t3") (steps next_steps rotated_db).tokens ≡ true
unfolding exchange_device poll_device device_digest answer_poll poll polled grant_device grant
    is_device_stale issue_device claim_device sign_device offline_family finish_device consume
    add_family authorize holds_marker may_consume set_consumed is_device_client
    split_ascii_whitespace peppered refresh_digest pairwise_input pairwise ensure_pairwise_subject
    ensure_client_session_id sign_tokens access_claims config_seconds to_base64url hmac bytes
    decimal split has_authority update marker_fails authorize_fails clashes steps step
    revoke_family_for_reuse rotate_refresh rotated_tokens may_rotate is_live_family
    is_enabled_client promoted may_promote may_retire
sample_unused = refl

rotate_once_example :
    rotate_refresh (steps next_steps rotated_db) refresh (text "t3") (text "O") 1200 8000 ≡ none
rotate_once_example =
    rotate_once sample_db rotated_db refresh refresh (text "t2") (text "t3") (text "N") (text "O")
      1100 1200 8000 8000 next_steps refl sample_rotation sample_fresh refl refl sample_unused

rotate_refresh_swaps_example :
    any (is_active_token (text "t1") (text "f1")) rotated_db.tokens ≡ false
rotate_refresh_swaps_example =
    (rotate_refresh_swaps sample_db rotated_db refresh (text "t2") (text "N") 1100 8000 refl
      sample_rotation).1

revoked_family_stops_example :
    rotate_refresh
      (revoke_family_for_reuse sample_db (text "f1") 1050)
      refresh
      (text "t2")
      (text "N")
      1100
      8000
    ≡ none
revoked_family_stops_example =
    revoked_family_stops sample_db refresh (text "t2") (text "N") 1050 1100 8000 refl

sample_scopes : canonical_scopes (text "openid profile") ≡ some (text "openid profile")
unfolding canonical_scopes collect_scopes join split bytes
sample_scopes = refl
