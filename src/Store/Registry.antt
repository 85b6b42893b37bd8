-- ===== src/Store/Registry.antt =====
-- The D1 tables that describe OAuth clients (crates/identity-worker/src/oauth_repository.rs;
-- migrations/0001_identity_foundation.sql).
use moesegfault_indentity.Base.{ℕ, Option}
use moesegfault_indentity.Base.Text.{Text}
use moesegfault_indentity.Secret.{Digest}

-- `oauth_redirect_uris`
pub record Redirect : Type 0 where
  pub client_id : Text
  pub redirect_uri : Text
  pub match_mode : Text

-- `oauth_post_logout_redirect_uris`
pub record LogoutRedirect : Type 0 where
  pub client_id : Text
  pub redirect_uri : Text

-- `oauth_client_keys`
pub record ClientKey : Type 0 where
  pub client_id : Text
  pub kid : Text
  pub algorithm : Text
  pub public_jwk_json : Text
  pub retired_at : Option ℕ

-- `oauth_client_assertion_replays`
pub record Assertion : Type 0 where
  pub client_id : Text
  pub jti_digest : Digest
  pub expires_at : ℕ
