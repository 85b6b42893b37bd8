-- ===== src/Store.antt =====
-- The D1 tables that the OAuth modules read and write (crates/identity-worker/src/device_repository.rs,
-- oauth_repository.rs; migrations/*.sql). A table is the list of its rows; a column that a CHECK
-- constraint limits to some words is an enumeration; NULL is `none`.
pub mod Sql
pub mod Codes
pub mod Registry
pub mod Samples
use moesegfault_indentity.Base.{
  ℕ, Bool, true, false, not, ◌&&◌, Option, none, some, List, [], ltb, any, is_some,
}
use moesegfault_indentity.Base.Text.{Text, eq_text}
use moesegfault_indentity.Secret.{Digest}
use moesegfault_indentity.Store.Registry.{Redirect, LogoutRedirect, ClientKey, Assertion}
use moesegfault_indentity.Store.Codes.{Transaction, Code, CodeUse, WebauthnLink, ClientScope}

pub record Client : Type 0 where
  pub client_id : Text
  pub display_name : Text
  pub client_type : Text
  pub token_endpoint_auth_method : Text
  pub enabled : Bool
  pub device_authorization_enabled : Bool
  pub sector_identifier : Text
  pub subject_salt_revision : ℕ

pub record PrincipalRow : Type 0 where
  pub principal_id : Text
  pub is_active : Bool

pub record Session : Type 0 where
  pub session_id : Text
  pub digest : Digest
  pub principal_id : Text
  pub authenticated_at : ℕ
  pub last_seen_at : ℕ
  pub idle_expires_at : ℕ
  pub absolute_expires_at : ℕ
  pub revoked_at : Option ℕ
  pub amr_json : Text
  pub acr : Text

-- `human_profiles`, and the user name in `identifiers`
pub record Profile : Type 0 where
  pub principal_id : Text
  pub display_name : Text

pub record Username : Type 0 where
  pub principal_id : Text
  pub value : Text

pub data DeviceState : Type 0 where
  pending approved denied consumed : DeviceState

pub record Device : Type 0 where
  pub id : Text
  pub device_code_digest : Digest
  pub user_code_digest : Digest
  pub client_id : Text
  pub scope : Text
  pub state : DeviceState
  pub principal_id : Option Text
  pub session_id : Option Text
  pub created_at : ℕ
  pub expires_at : ℕ
  pub poll_interval : ℕ
  pub next_poll_at : ℕ
  pub last_poll_early : Bool
  pub consumption_id : Option Text

-- `oauth_device_verification_attempts`
pub record DeviceAttempt : Type 0 where
  pub bucket_digest : Digest
  pub bucket_start : ℕ
  pub attempt_count : ℕ

-- `oauth_user_authorizations`
pub record Authorization : Type 0 where
  pub authorization_id : Text
  pub principal_id : Text
  pub client_id : Text
  pub scopes : List Text
  pub granted_at : ℕ
  pub updated_at : ℕ
  pub last_used_at : ℕ
  pub revoked_at : Option ℕ

pub record Family : Type 0 where
  pub family_id : Text
  pub client_id : Text
  pub principal_id : Text
  pub session_id : Text
  pub scope : Text
  pub absolute_expires_at : ℕ
  pub revoked_at : Option ℕ
  pub revocation_reason : Option Text
  pub reuse_detected_at : Option ℕ

pub data TokenState : Type 0 where
  active rotated revoked : TokenState

pub record RefreshToken : Type 0 where
  pub token_id : Text
  pub family_id : Text
  pub digest : Digest
  pub generation : ℕ
  pub issued_at : ℕ
  pub expires_at : ℕ
  pub state : TokenState
  pub consumed_at : Option ℕ
  pub replacement : Option Text

pub record PairwiseSubject : Type 0 where
  pub sector_identifier : Text
  pub principal_id : Text
  pub subject : Text
  pub salt_revision : ℕ
  pub created_at : ℕ

pub record ClientSession : Type 0 where
  pub client_id : Text
  pub session_id : Text
  pub public_sid : Text
  pub created_at : ℕ

pub record Db : Type 0 where
  pub clients : List Client
  pub principals : List PrincipalRow
  pub sessions : List Session
  pub profiles : List Profile
  pub usernames : List Username
  pub devices : List Device
  pub attempts : List DeviceAttempt
  pub authorizations : List Authorization
  pub families : List Family
  pub tokens : List RefreshToken
  pub subjects : List PairwiseSubject
  pub client_sessions : List ClientSession
  pub transactions : List Transaction
  pub codes : List Code
  pub code_uses : List CodeUse
  pub links : List WebauthnLink
  pub client_scopes : List ClientScope
  pub redirects : List Redirect
  pub logout_redirects : List LogoutRedirect
  pub client_keys : List ClientKey
  pub assertions : List Assertion

-- `revoked_at IS NULL AND idle_expires_at>now AND absolute_expires_at>now`
abbrev pub is_live : ℕ → Session → Bool
is_live now s =
    not (is_some s.revoked_at) && ltb now s.idle_expires_at && ltb now s.absolute_expires_at

abbrev pub is_active_principal : Db → Text → Bool
is_active_principal db id = any (λ p. eq_text p.principal_id id && p.is_active) db.principals

-- `EXISTS(SELECT 1 FROM identity_sessions s JOIN principals p ...)`: the session is live, is the
-- principal's, and the principal is active.
unfoldable pub has_authority : Db → Text → Text → ℕ → Bool
has_authority db principal_id session_id now =
    any
      (λ s. eq_text s.session_id session_id && eq_text s.principal_id principal_id && is_live now s)
      db.sessions
    && is_active_principal db principal_id

-- `EXISTS(SELECT 1 FROM oauth_clients c ...)`: enabled, and enabled for device authorization.
unfoldable pub is_device_client : Db → Text → Bool
is_device_client db client_id =
    any (λ c. eq_text c.client_id client_id && c.enabled && c.device_authorization_enabled)
      db.clients

unfoldable pub is_enabled_client : Db → Text → Bool
is_enabled_client db client_id = any (λ c. eq_text c.client_id client_id && c.enabled) db.clients
