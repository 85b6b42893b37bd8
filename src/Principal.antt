-- ===== src/Principal.antt =====
-- crates/identity-domain/src/model.rs: entities and state machines.
pub mod Lifecycle
pub mod Transactions
pub mod Tests
use moesegfault_indentity.Base.{
  ℕ, Bool, true, false, not, ◌||◌, List, Option, ltb, leb, Result, ok, err, if◌then◌else◌, ◌>>=◌,
  ◌>>◌, refuse_if,
}
use moesegfault_indentity.Base.Text.{Text}

pub data PrincipalKind : Type 0 where
  human workload : PrincipalKind

pub data PrincipalState : Type 0 where
  active suspended pending_deletion deleted : PrincipalState

pub data DomainError : Type 0 where
  invalid_transition transaction_expired transaction_consumed reauthentication_required
        last_authenticator :
      DomainError

unfoldable pub may_authenticate : PrincipalState → Bool
may_authenticate active = true
may_authenticate _ = false

-- `==` of two states
abbrev pub eq_state : PrincipalState → PrincipalState → Bool
eq_state active active = true
eq_state suspended suspended = true
eq_state pending_deletion pending_deletion = true
eq_state deleted deleted = true
eq_state _ _ = false

abbrev moves : PrincipalState → PrincipalState → Bool
moves active suspended = true
moves active pending_deletion = true
moves suspended active = true
moves suspended pending_deletion = true
moves pending_deletion deleted = true
moves _ _ = false

unfoldable pub transition : PrincipalState → PrincipalState → Result DomainError PrincipalState
transition state next =
    if moves state next || eq_state state next then ok next else err invalid_transition

pub data ContactKind : Type 0 where
  email mobile : ContactKind

pub data VerificationState : Type 0 where
  unverified verified : VerificationState

pub data AuthenticationMethod : Type 0 where
  password passkey federated : AuthenticationMethod

pub data MfaFactorKind : Type 0 where
  totp passkey recovery_code : MfaFactorKind

pub data TransactionKind : Type 0 where
  registration authentication add_authenticator reauthentication recovery binding : TransactionKind

pub data TransactionState : Type 0 where
  pending consumed expired cancelled : TransactionState

pub record AuthenticatorSummary : Type 0 where
  pub authenticator_id : Text
  pub label : Text
  pub transports : List Text
  pub backup_eligible : Bool
  pub backup_state : Bool
  pub created_at : ℕ
  pub last_used_at : Option ℕ
  pub revoked_at : Option ℕ

pub record SessionSummary : Type 0 where
  pub session_id : Text
  pub authenticator_id : Option Text
  pub authenticated_at : ℕ
  pub last_seen_at : ℕ
  pub expires_at : ℕ
  pub current : Bool
  pub revoked_at : Option ℕ

pub record BindingSummary : Type 0 where
  pub binding_id : Text
  pub issuer : Text
  pub provider : Text
  pub authentication_enabled : Bool
  pub created_at : ℕ

pub record Transaction : Type 0 where
  pub transaction_id : Text
  pub kind : TransactionKind
  pub principal_id : Option Text
  pub state : TransactionState
  pub created_at : ℕ
  pub expires_at : ℕ

abbrev pub is_pending : TransactionState → Bool
is_pending pending = true
is_pending _ = false

unfoldable pub consumption_state : Transaction → ℕ → Result DomainError TransactionState
consumption_state t now = do
  refuse_if (leb t.expires_at now) transaction_expired
  refuse_if (not (is_pending t.state)) transaction_consumed
  ok consumed

unfoldable pub ensure_may_revoke_authenticator : ℕ → Bool → Result DomainError (Unit {0})
ensure_may_revoke_authenticator active_authenticator_count recently_authenticated = do
  refuse_if (not recently_authenticated) reauthentication_required
  refuse_if (leb active_authenticator_count 1) last_authenticator
  ok tt
