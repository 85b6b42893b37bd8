-- ===== src/Store/Codes.antt =====
-- The D1 tables of the authorization-code flow (crates/identity-worker/src/oauth_repository.rs;
-- migrations/0002_account_foundation.sql).
use moesegfault_indentity.Base.{ℕ, Bool, true, false, Option}
use moesegfault_indentity.Base.Text.{Text}
use moesegfault_indentity.Secret.{Digest}

pub data TransactionState : Type 0 where
  awaiting_authentication authenticated completed denied expired : TransactionState

-- `oauth_authorization_transactions`
pub record Transaction : Type 0 where
  pub id : Text
  pub client_id : Text
  pub redirect_uri : Text
  pub scope : Text
  pub state_value : Text
  pub nonce : Text
  pub code_challenge : Text
  pub principal_id : Option Text
  pub session_id : Option Text
  pub state : TransactionState
  pub created_at : ℕ
  pub expires_at : ℕ
  pub consumed_at : Option ℕ

-- `oauth_authorization_codes`
pub record Code : Type 0 where
  pub id : Text
  pub digest : Digest
  pub transaction_id : Text
  pub client_id : Text
  pub principal_id : Text
  pub session_id : Text
  pub redirect_uri : Text
  pub scope : Text
  pub nonce : Text
  pub code_challenge : Text
  pub issued_at : ℕ
  pub expires_at : ℕ
  pub consumed_at : Option ℕ
  pub revoked_at : Option ℕ

-- `oauth_authorization_code_uses`
pub record CodeUse : Type 0 where
  pub code_id : Text
  pub request_digest : Digest
  pub used_at : ℕ

-- `webauthn_authorization_links`
pub record WebauthnLink : Type 0 where
  pub webauthn_id : Text
  pub transaction_id : Text

-- `oauth_client_scopes`
pub record ClientScope : Type 0 where
  pub client_id : Text
  pub scope : Text

abbrev pub is_transaction_state : TransactionState → TransactionState → Bool
is_transaction_state awaiting_authentication awaiting_authentication = true
is_transaction_state authenticated authenticated = true
is_transaction_state completed completed = true
is_transaction_state denied denied = true
is_transaction_state expired expired = true
is_transaction_state _ _ = false
