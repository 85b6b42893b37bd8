-- ===== src/Oauth/Codes.antt =====
-- crates/identity-worker/src/oauth_repository.rs: authorization transactions and codes. A batch that a
-- constraint, a trigger or its last statement makes fail is `none`: D1 rolls it back.
pub mod Consume
pub mod Exchange
pub mod Phase
pub mod Tests
pub mod Batch
pub mod Binding
pub mod Authority
pub mod Trace
pub mod Single
pub mod Issued
pub mod Life
pub mod Runs
pub mod Once
use moesegfault_indentity.Base.{
  ℕ, Bool, true, false, not, ◌&&◌, ◌||◌, Option, none, some, List, any, all, find, ltb, leb, ◌==◌,
  is_some, if◌then◌else◌,
}
use moesegfault_indentity.Base.Text.{Text, eq_text, split_ascii_whitespace}
use moesegfault_indentity.Secret.{Digest, ct_eq}
use moesegfault_indentity.Store.{
  Db, Client, Session, Profile, Username, Family, active, RefreshToken, has_authority,
  is_enabled_client,
}
use moesegfault_indentity.Store.Codes.{
  Transaction, Code, CodeUse, WebauthnLink, awaiting_authentication, authenticated, completed,
  is_transaction_state,
}
use moesegfault_indentity.Store.Sql.{update, delete, insert_if}
use moesegfault_indentity.Device.Repository.{NewFamily, authorize, is_value, first_token}
use moesegfault_indentity.Oauth.Refresh.{clashes}

-- `EXISTS` for each scope in turn.
unfoldable pub scopes_allowed : Db → Text → List Text → Bool
scopes_allowed db client_id scopes =
    all (λ v. any (λ r. eq_text r.client_id client_id && eq_text r.scope v) db.client_scopes) scopes

abbrev pub new_transaction :
    (id client_id redirect_uri scope state nonce challenge : Text)
    → Option Text
    → Option Text
    → ℕ
    → ℕ
    → Transaction
new_transaction id client_id redirect_uri scope state nonce challenge principal session now
      expires =
    record {
      id = id;
      client_id = client_id;
      redirect_uri = redirect_uri;
      scope = scope;
      state_value = state;
      nonce = nonce;
      code_challenge = challenge;
      principal_id = principal;
      session_id = session;
      state = if is_some principal then authenticated else awaiting_authentication;
      created_at = now;
      expires_at = expires;
      consumed_at = none;
    }

-- The primary key refuses an id that is there.
unfoldable pub insert_authorization_transaction : Db → Transaction → Option Db
insert_authorization_transaction db t =
    if any (λ r. eq_text r.id t.id) db.transactions
    then none
    else some (record db { transactions = insert_if true t db.transactions })

unfoldable pub is_awaiting : Text → ℕ → Transaction → Bool
is_awaiting id now t =
    eq_text t.id id && is_transaction_state t.state awaiting_authentication && ltb now t.expires_at

-- AUTHORIZATION_RELINK_DELETE_SQL and AUTHORIZATION_RELINK_INSERT_SQL, in one batch; whether a row was
-- inserted.
unfoldable pub link_webauthn_authorization : Db → Text → Text → ℕ → Option (Db × Bool)
link_webauthn_authorization db id webauthn_id now =
    let gate = any (is_awaiting id now) db.transactions in
    let kept = delete (λ l. eq_text l.transaction_id id && gate) db.links in
    let link : WebauthnLink = record { webauthn_id = webauthn_id; transaction_id = id } in
    if gate && any (λ l. eq_text l.webauthn_id webauthn_id || eq_text l.transaction_id id) kept
    then none
    else some (record db { links = insert_if gate link kept }, gate)

-- The transaction that a ceremony's link joins, if this principal and session authenticated it.
unfoldable pub authenticate_linked_authorization : Db → Text → Text → Text → ℕ → Option Text
authenticate_linked_authorization db webauthn_id principal_id session_id now =
    elim (find
      (λ l.
        eq_text l.webauthn_id webauthn_id
        && any
            (λ t.
              eq_text t.id l.transaction_id
              && is_transaction_state t.state authenticated
              && is_value t.principal_id principal_id
              && is_value t.session_id session_id
              && ltb now t.expires_at)
            db.transactions)
      db.links) [ none ↦ none | some l ↦ some l.transaction_id ]

unfoldable pub authorization_transaction : Db → Text → Option Transaction
authorization_transaction db id = find (λ t. eq_text t.id id) db.transactions

-- The WHERE clause of the first statement of `issue_authorization_code`.
unfoldable pub may_complete : Db → Text → Text → Text → ℕ → Transaction → Bool
may_complete db id session_id principal_id now t =
    eq_text t.id id
    && is_transaction_state t.state authenticated
    && is_value t.session_id session_id
    && is_value t.principal_id principal_id
    && ltb now t.expires_at
    && has_authority db principal_id session_id now
    && is_enabled_client db t.client_id

unfoldable pub complete : ℕ → Transaction → Transaction
complete now t = record t { state = completed; consumed_at = some now }

abbrev pub is_time : Option ℕ → ℕ → Bool
is_time none now = false
is_time (some t) now = t == now

unfoldable pub is_completed_at : Text → ℕ → Transaction → Bool
is_completed_at id now t =
    eq_text t.id id && is_transaction_state t.state completed && is_time t.consumed_at now

-- The row that the second statement selects; a NULL principal or session violates NOT NULL.
abbrev pub code_of : Text → Digest → ℕ → ℕ → Transaction → Option Text → Option Text → Option Code
code_of id digest now expires t (some principal) (some session) = some (record {
  id = id;
  digest = digest;
  transaction_id = t.id;
  client_id = t.client_id;
  principal_id = principal;
  session_id = session;
  redirect_uri = t.redirect_uri;
  scope = t.scope;
  nonce = t.nonce;
  code_challenge = t.code_challenge;
  issued_at = now;
  expires_at = expires;
  consumed_at = none;
  revoked_at = none;
})
code_of id digest now expires t _ _ = none

-- The primary key and the UNIQUE columns of `oauth_authorization_codes`.
unfoldable pub code_clashes : Code → Code → Bool
code_clashes new c =
    eq_text c.id new.id || ct_eq c.digest new.digest || eq_text c.transaction_id new.transaction_id

unfoldable pub insert_code : Db → Option Code → Option (Db × Bool)
insert_code db none = none
insert_code db (some c) =
    if any (code_clashes c) db.codes || leb c.expires_at c.issued_at
    then none
    else some (record db { codes = insert_if true c db.codes }, true)

unfoldable pub issue_authorization_code :
    Db → Text → Text → Digest → (session_id principal_id : Text) → ℕ → ℕ → Option (Db × Bool)
issue_authorization_code db id code_id digest session_id principal_id now expires =
    let rows =
      update (may_complete db id session_id principal_id now) (complete now) db.transactions in
    let db' = record db { transactions = rows } in
    elim (find (is_completed_at id now) rows) [
      | none ↦ some (db', false)
      | some t ↦ insert_code db' (code_of code_id digest now expires t t.principal_id t.session_id)
    ]

-- `AuthorizationCodeGrant`
pub record CodeGrant : Type 0 where
  pub id : Text
  pub client_id : Text
  pub principal_id : Text
  pub session_id : Text
  pub redirect_uri : Text
  pub scope : Text
  pub nonce : Text
  pub code_challenge : Text
  pub expires_at : ℕ
  pub authenticated_at : ℕ
  pub session_idle_expires_at : ℕ
  pub session_absolute_expires_at : ℕ
  pub session_revoked_at : Option ℕ
  pub amr_json : Text
  pub acr : Text
  pub display_name : Text
  pub username : Text
  pub sector_identifier : Text
  pub subject_salt_revision : ℕ

abbrev pub join_code :
    Code → Option Session → Option Profile → Option Username → Option Client → Option CodeGrant
join_code c (some session) (some profile) (some name) (some client) = some (record {
  id = c.id;
  client_id = c.client_id;
  principal_id = c.principal_id;
  session_id = c.session_id;
  redirect_uri = c.redirect_uri;
  scope = c.scope;
  nonce = c.nonce;
  code_challenge = c.code_challenge;
  expires_at = c.expires_at;
  authenticated_at = session.authenticated_at;
  session_idle_expires_at = session.idle_expires_at;
  session_absolute_expires_at = session.absolute_expires_at;
  session_revoked_at = session.revoked_at;
  amr_json = session.amr_json;
  acr = session.acr;
  display_name = profile.display_name;
  username = name.value;
  sector_identifier = client.sector_identifier;
  subject_salt_revision = client.subject_salt_revision;
})
join_code c _ _ _ _ = none

-- `consumed_at IS NULL AND revoked_at IS NULL`
abbrev pub is_unspent : Code → Bool
is_unspent c = not (is_some c.consumed_at) && not (is_some c.revoked_at)

unfoldable pub is_presented : Digest → Code → Bool
is_presented digest c = ct_eq c.digest digest && is_unspent c

unfoldable pub code_grant : Db → Code → Option CodeGrant
code_grant db c =
    join_code c (find (λ r. eq_text r.session_id c.session_id) db.sessions)
      (find (λ r. eq_text r.principal_id c.principal_id) db.profiles)
      (find (λ r. eq_text r.principal_id c.principal_id) db.usernames)
      (find (λ r. eq_text r.client_id c.client_id) db.clients)

unfoldable pub authorization_code : Db → Digest → Option CodeGrant
authorization_code db digest = elim (find (is_presented digest) db.codes) [
  | none ↦ none
  | some c ↦ code_grant db c
]
