-- ===== src/Oauth/Exchange.antt =====
-- crates/identity-worker/src/oauth.rs: the device-code and the refresh-token grants of the token endpoint.
pub mod Runs
pub mod Replay
pub mod Authority
use moesegfault_indentity.Base.{
  ℕ, ◌+◌, Bool, true, false, not, ◌&&◌, ◌||◌, Option, none, some, List, [], ◌∷◌, ◌++◌, ltb, leb,
  min, is_some, if◌then◌else◌,
}
use moesegfault_indentity.Base.Text.{Text, text, eq_text, bytes, is_empty}
use moesegfault_indentity.Secret.{Crypto, Digest}
use moesegfault_indentity.Store.{Db, DeviceState, pending, denied, consumed, active}
use moesegfault_indentity.Guard.{Env}
use moesegfault_indentity.Device.Repository.{
  DevicePoll, DeviceGrant, NewFamily, is_state, poll, grant, consume,
}
use moesegfault_indentity.Oauth.Issue.{
  OauthClient, Issuance, Signer, SignedTokens, Draw, config_seconds, has_scope,
  ensure_client_session_id, peppered, pairwise, refresh_digest, sign_tokens,
}
use moesegfault_indentity.Oauth.Refresh.{
  RefreshGrant, is_token_state, refresh_grant, revoke_family_for_reuse, rotate_refresh,
}

-- The refusals, one for each call of `oauth_problem`.
pub data Refusal : Type 0 where
  unauthorized_client device_code_required invalid_device_code device_expired denied_by_user
        device_already_consumed authorization_pending device_inactive device_session_inactive
        device_lost refresh_token_required invalid_refresh_token refresh_reuse refresh_authority
        code_parameter_required pkce_failed invalid_code code_already_consumed code_authority :
      Refusal
  slow_down : ℕ → Refusal

-- The error code and the description; the status is 400 for each, and `slow_down` sets `retry-after`.
unfoldable pub problem : Refusal → Text × Text
problem unauthorized_client =
    (text "unauthorized_client", text "Device authorization is not enabled for this client")
problem device_code_required = (text "invalid_request", text "device_code is required")
problem invalid_device_code = (text "invalid_grant", text "Device code is invalid for this client")
problem device_expired = (text "expired_token", text "Device authorization has expired")
problem denied_by_user = (text "access_denied", text "The user denied this request")
problem device_already_consumed =
    (text "invalid_grant", text "Device authorization was already consumed")
problem authorization_pending =
    (text "authorization_pending", text "The user has not approved this request")
problem device_inactive = (text "invalid_grant", text "Device authorization is no longer active")
problem device_session_inactive =
    (text "invalid_grant", text "The authorizing session is no longer active")
problem device_lost = (text "invalid_grant", text "Device authorization was consumed or revoked")
problem refresh_token_required = (text "invalid_request", text "refresh_token is required")
problem invalid_refresh_token = (text "invalid_grant", text "Refresh token is invalid")
problem refresh_reuse = (text "invalid_grant", text "Refresh-token reuse detected")
problem refresh_authority =
    (text "invalid_grant", text "Refresh-token authority is no longer active")
problem code_parameter_required =
    (text "invalid_request", text "Missing authorization-code parameter")
problem pkce_failed = (text "invalid_grant", text "PKCE verification failed")
problem invalid_code = (text "invalid_grant", text "Authorization code is invalid")
problem code_already_consumed =
    (text "invalid_grant", text "Authorization code was already consumed")
problem code_authority = (text "invalid_grant", text "Authorization authority is no longer active")
problem (slow_down interval) =
    (text "slow_down", text "Increase the polling interval by five seconds")

-- What a handler returns: a refusal, the tokens with the new refresh token, or an error of the worker.
pub data Reply : Type 0 where
  refused : Refusal → Reply
  issued : SignedTokens → Option Text → Reply
  failed : Reply

-- The form fields.
abbrev pub get : Text → List (Text × Text) → Option Text
get name [] = none
get name (f ∷ fs) = if eq_text f.0 name then some f.1 else get name fs

-- What the row of a poll answers, unless it is approved.
abbrev pub refuse_poll : ℕ → DevicePoll → Option Refusal
refuse_poll now p =
    if leb p.expires_at now
    then some device_expired
    else if is_state p.state denied
    then some denied_by_user
    else if is_state p.state consumed
    then some device_already_consumed
    else if p.slow_down
    then some (slow_down p.poll_interval)
    else if is_state p.state pending
    then some authorization_pending
    else none

unfoldable pub is_device_stale : Text → ℕ → DeviceGrant → Bool
is_device_stale client_id now g =
    not (eq_text g.client_id client_id)
    || leb g.expires_at now
    || is_some g.session_revoked_at
    || leb g.session_idle_expires_at now
    || leb g.session_absolute_expires_at now

pub data RefreshUse : Type 0 where
  foreign_client reuse active_use : RefreshUse

unfoldable pub classify_refresh_use : Text → RefreshGrant → RefreshUse
classify_refresh_use request_client g =
    if not (eq_text g.client_id request_client)
    then foreign_client
    else if not (is_token_state g.token_state active)
    then reuse
    else active_use

unfoldable pub is_refresh_stale : ℕ → RefreshGrant → Bool
is_refresh_stale now g =
    is_some g.family_revoked_at
    || leb g.token_expires_at now
    || leb g.absolute_expires_at now
    || is_some g.session_revoked_at
    || leb g.session_idle_expires_at now
    || leb g.session_absolute_expires_at now

abbrev pub new_wire : Option NewFamily → Text → Option Text
new_wire none wire = none
new_wire (some f) wire = some wire

module _ (crypto : Crypto) (env : Env) (i : Issuance) (signer : Signer) (client : OauthClient)
    (draw : Draw) where
  abbrev ttl : ℕ
  ttl = config_seconds env (text "TOKEN_TTL_SECONDS") 300 300

  -- The refresh family that a scope of `offline_access` starts; `none` when its pepper is missing.
  unfoldable pub offline_family : Text → Option (Option NewFamily)
  offline_family scope =
      if has_scope (text "offline_access") scope
      then elim (refresh_digest crypto env draw.wire) [
        | none ↦ none
        | some d ↦ some (some (draw.family_id, draw.token_id, d))
      ]
      else some none

  -- From the signed tokens to the consumption of the request.
  unfoldable pub finish_device : Db → DeviceGrant → Option NewFamily → ℕ → SignedTokens → Db × Reply
  finish_device db g family now tokens =
      let expires =
        min (now + config_seconds env (text "REFRESH_TOKEN_TTL_SECONDS") 2592000 31536000)
          g.session_absolute_expires_at in
      elim (consume db g family draw.marker draw.authorization_id draw.later expires) [
        | none ↦ (db, failed)
        | some (db', won) ↦
            if won
            then (db', issued tokens (new_wire family draw.wire))
            else (db', refused device_lost)
      ]

  abbrev pub device_tokens : DeviceGrant → ℕ → Text → Text → Option SignedTokens
  device_tokens g now subject sid =
      sign_tokens i signer draw.jti subject g.client_id sid g.scope none g.authenticated_at
        g.amr_json g.acr g.display_name g.username now ttl

  unfoldable pub sign_device : Db → DeviceGrant → ℕ → Text → Text → Db × Reply
  sign_device db g now subject sid = elim (offline_family g.scope) [
    | none ↦ (db, failed)
    | some family ↦ elim (device_tokens g now subject sid) [
      | none ↦ (db, failed)
      | some tokens ↦ finish_device db g family now tokens
    ]
  ]

  -- The session claim, once the subject is known.
  unfoldable pub claim_device : Db → DeviceGrant → ℕ → Text → Db × Reply
  claim_device db g now subject =
      let (db', sid) = ensure_client_session_id db g.client_id g.session_id draw.public_sid now in
      elim sid [ none ↦ (db', failed) | some sid ↦ sign_device db' g now subject sid ]

  unfoldable pub issue_device : Db → DeviceGrant → ℕ → Db × Reply
  issue_device db g now =
      let (db', subject) =
        pairwise crypto env db g.sector_identifier g.principal_id g.subject_salt_revision now in
      elim subject [ none ↦ (db', failed) | some subject ↦ claim_device db' g now subject ]

  -- What follows a poll that nothing refuses.
  unfoldable pub grant_device : Db → Text → ℕ → Db × Reply
  grant_device db id now = elim (grant db id) [
    | none ↦ (db, refused device_inactive)
    | some g ↦
        if is_device_stale client.client_id now g
        then (db, refused device_session_inactive)
        else issue_device db g now
  ]

  unfoldable pub answer_poll : Db → Option DevicePoll → ℕ → Db × Reply
  answer_poll db none now = (db, refused invalid_device_code)
  answer_poll db (some p) now = elim (refuse_poll now p) [
    | none ↦ grant_device db p.id now
    | some r ↦ (db, refused r)
  ]

  unfoldable pub device_digest : Text → Option Digest
  device_digest wire =
      peppered crypto env (text "AUTHORIZATION_CODE_PEPPER") (bytes (text "device-code:" ++ wire))

  unfoldable pub poll_device : Db → Text → ℕ → Db × Reply
  poll_device db wire now = elim (device_digest wire) [
    | none ↦ (db, failed)
    | some digest ↦ let (db', p) = poll db digest client.client_id now in answer_poll db' p now
  ]

  unfoldable pub exchange_device : Db → List (Text × Text) → ℕ → Db × Reply
  exchange_device db fields now =
      if not client.device_authorization_enabled
      then (db, refused unauthorized_client)
      else elim (get (text "device_code") fields) [
        | none ↦ (db, refused device_code_required)
        | some wire ↦
            if is_empty wire then (db, refused device_code_required) else poll_device db wire now
      ]

  abbrev pub refresh_tokens : RefreshGrant → ℕ → Text → Text → Option SignedTokens
  refresh_tokens g now subject sid =
      sign_tokens i signer draw.jti subject g.client_id sid g.scope none g.authenticated_at
        g.amr_json g.acr g.display_name g.username now ttl

  -- After a batch that failed: whoever rotated the token meanwhile, this use of it is a reuse.
  unfoldable pub lost_rotation : Db → Digest → Text → ℕ → Db × Reply
  lost_rotation db digest family_id now = elim (refresh_grant db digest) [
    | none ↦ (db, failed)
    | some current ↦
        if is_token_state current.token_state active
        then (db, refused refresh_authority)
        else (revoke_family_for_reuse db family_id now, refused refresh_reuse)
  ]

  unfoldable pub rotate : Db → Digest → Digest → RefreshGrant → ℕ → Text → Text → Db × Reply
  rotate db digest new_digest g now subject sid =
      elim (rotate_refresh db g draw.token_id new_digest now g.absolute_expires_at) [
        | none ↦ lost_rotation db digest g.family_id now
        | some db' ↦ elim (refresh_tokens g now subject sid) [
          | none ↦ (db', failed)
          | some tokens ↦ (db', issued tokens (some draw.wire))
        ]
      ]

  unfoldable pub claim_refresh : Db → Digest → RefreshGrant → ℕ → Text → Db × Reply
  claim_refresh db digest g now subject =
      let (db', sid) = ensure_client_session_id db g.client_id g.session_id draw.public_sid now in
      elim sid [
        | none ↦ (db', failed)
        | some sid ↦ elim (refresh_digest crypto env draw.wire) [
          | none ↦ (db', failed)
          | some new_digest ↦ rotate db' digest new_digest g now subject sid
        ]
      ]

  unfoldable pub issue_refresh : Db → Digest → RefreshGrant → ℕ → Db × Reply
  issue_refresh db digest g now =
      let (db', subject) =
        pairwise crypto env db g.sector_identifier g.principal_id g.subject_salt_revision now in
      elim subject [ none ↦ (db', failed) | some subject ↦ claim_refresh db' digest g now subject ]

  unfoldable pub use_refresh : Db → Digest → Option RefreshGrant → ℕ → Db × Reply
  use_refresh db digest none now = (db, refused invalid_refresh_token)
  use_refresh db digest (some g) now = elim (classify_refresh_use client.client_id g) [
    | foreign_client ↦ (db, refused invalid_refresh_token)
    | reuse ↦ (revoke_family_for_reuse db g.family_id now, refused refresh_reuse)
    | active_use ↦
        if is_refresh_stale now g
        then (db, refused invalid_refresh_token)
        else issue_refresh db digest g now
  ]

  unfoldable pub exchange_refresh : Db → List (Text × Text) → ℕ → Db × Reply
  exchange_refresh db fields now = elim (get (text "refresh_token") fields) [
    | none ↦ (db, refused refresh_token_required)
    | some wire ↦ elim (refresh_digest crypto env wire) [
      | none ↦ (db, failed)
      | some digest ↦ use_refresh db digest (refresh_grant db digest) now
    ]
  ]
