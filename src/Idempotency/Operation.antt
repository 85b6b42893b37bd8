-- ===== src/Idempotency/Operation.antt =====
-- The operations of crates/identity-worker/src/idempotency.rs, their stored names and content types.
use moesegfault_indentity.Base.{Option, none, some}
use moesegfault_indentity.Base.Text.{Text, text}

pub data Operation : Type 0 where
  create_registration_email complete_registration_email password_registration
        password_authentication create_contact update_contact delete_contact
        create_contact_verification complete_contact_verification put_password
        create_account_registration_transaction complete_registration_transaction
        create_authentication_transaction complete_authentication_transaction
        create_recovery_transaction complete_recovery_transaction update_self update_preferences
        schedule_self_deletion create_self_identifier update_self_identifier delete_self_identifier
        create_authenticator_registration_transaction update_self_authenticator
        revoke_self_authenticator revoke_self_binding revoke_all_self_sessions revoke_self_session
        rotate_self_recovery_codes :
      Operation

-- `Operation::as_str`
unfoldable pub as_str : Operation → Text
as_str create_registration_email = text "createRegistrationEmail"
as_str complete_registration_email = text "completeRegistrationEmail"
as_str password_registration = text "registerWithPassword"
as_str password_authentication = text "authenticateWithPassword"
as_str create_contact = text "createMyContact"
as_str update_contact = text "updateMyContact"
as_str delete_contact = text "deleteMyContact"
as_str create_contact_verification = text "createContactVerification"
as_str complete_contact_verification = text "completeContactVerification"
as_str put_password = text "setMyPassword"
as_str create_account_registration_transaction = text "createAccountRegistrationTransaction"
as_str complete_registration_transaction = text "completeRegistrationTransaction"
as_str create_authentication_transaction = text "createAuthenticationTransaction"
as_str complete_authentication_transaction = text "completeAuthenticationTransaction"
as_str create_recovery_transaction = text "createRecoveryTransaction"
as_str complete_recovery_transaction = text "completeRecoveryTransaction"
as_str update_self = text "updateSelf"
as_str update_preferences = text "updateMyPreferences"
as_str schedule_self_deletion = text "scheduleSelfDeletion"
as_str create_self_identifier = text "createSelfIdentifier"
as_str update_self_identifier = text "updateSelfIdentifier"
as_str delete_self_identifier = text "deleteSelfIdentifier"
as_str create_authenticator_registration_transaction =
    text "createAuthenticatorRegistrationTransaction"
as_str update_self_authenticator = text "updateSelfAuthenticator"
as_str revoke_self_authenticator = text "revokeSelfAuthenticator"
as_str revoke_self_binding = text "revokeSelfBinding"
as_str revoke_all_self_sessions = text "revokeAllSelfSessions"
as_str revoke_self_session = text "revokeSelfSession"
as_str rotate_self_recovery_codes = text "rotateSelfRecoveryCodes"

unfoldable pub content_type : Operation → Option Text
content_type update_self = some (text "application/merge-patch+json")
content_type update_preferences = some (text "application/merge-patch+json")
content_type update_contact = some (text "application/merge-patch+json")
content_type update_self_authenticator = some (text "application/merge-patch+json")
content_type schedule_self_deletion = none
content_type delete_self_identifier = none
content_type delete_contact = none
content_type revoke_self_authenticator = none
content_type revoke_self_binding = none
content_type revoke_all_self_sessions = none
content_type revoke_self_session = none
content_type _ = some (text "application/json")
