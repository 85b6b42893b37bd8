-- ===== src/Oauth/Codes/Consume.antt =====
-- crates/identity-worker/src/oauth_repository.rs: `consume_code`, with the triggers on
-- `oauth_authorization_code_uses` (migrations/0002_account_foundation.sql). The database's own clock is an
-- argument.
use moesegfault_indentity.Base.{
  ℕ, Bool, true, not, ◌&&◌, ◌||◌, Option, none, some, List, any, ltb, leb, ◌==◌, if◌then◌else◌,
}
use moesegfault_indentity.Base.Text.{Text, eq_text, split_ascii_whitespace}
use moesegfault_indentity.Secret.{Digest, ct_eq}
use moesegfault_indentity.Store.{Db, Family, has_authority, is_enabled_client}
use moesegfault_indentity.Store.Codes.{Code, CodeUse}
use moesegfault_indentity.Store.Sql.{update, insert_if}
use moesegfault_indentity.Device.Repository.{NewFamily, authorize, authorize_fails, first_token}
use moesegfault_indentity.Oauth.Refresh.{clashes}
use moesegfault_indentity.Oauth.Codes.{CodeGrant, is_unspent}

-- The columns of the code that CODE_CONSUME_SQL compares.
unfoldable pub is_redeemable : CodeGrant → ℕ → Code → Bool
is_redeemable g now c =
    eq_text c.id g.id
    && eq_text c.client_id g.client_id
    && eq_text c.principal_id g.principal_id
    && eq_text c.session_id g.session_id
    && is_unspent c
    && ltb now c.expires_at

-- The WHERE clause of CODE_CONSUME_SQL.
unfoldable pub may_redeem : Db → CodeGrant → ℕ → Bool
may_redeem db g now =
    any (is_redeemable g now) db.codes
    && has_authority db g.principal_id g.session_id now
    && is_enabled_client db g.client_id

-- The trigger `authorization_code_use_validate`, at the database's clock.
unfoldable pub passes_trigger : Text → ℕ → Code → Bool
passes_trigger id clock c = eq_text c.id id && is_unspent c && leb clock c.expires_at

-- The primary key of the uses, and `CHECK (consumed_at >= issued_at)` on the code that the second trigger
-- writes.
unfoldable pub use_fails : Db → Text → ℕ → ℕ → Bool
use_fails db id now clock =
    not (any (passes_trigger id clock) db.codes)
    || any (λ u. eq_text u.code_id id) db.code_uses
    || any (λ c. eq_text c.id id && ltb now c.issued_at) db.codes

-- The trigger `authorization_code_use_apply`.
unfoldable pub spend : Text → ℕ → List Code → List Code
spend id now = update (λ c. eq_text c.id id) (λ c. record c { consumed_at = some now })

-- The first statement, with the triggers that it fires.
unfoldable pub insert_use : Db → CodeGrant → Digest → ℕ → ℕ → Option Db
insert_use db g request_digest now clock =
    if may_redeem db g now
    then if use_fails db g.id now clock
      then none
      else some (record db {
        codes = spend g.id now db.codes;
        code_uses =
            insert_if true
              (record { code_id = g.id; request_digest = request_digest; used_at = now })
              db.code_uses;
      })
    else some db

-- `EXISTS(SELECT 1 FROM oauth_authorization_code_uses ...)`, the gate of each later statement.
unfoldable pub is_use : Text → Digest → ℕ → CodeUse → Bool
is_use id request_digest now u =
    eq_text u.code_id id && ct_eq u.request_digest request_digest && u.used_at == now

abbrev pub code_family : CodeGrant → Text → ℕ → Family
code_family g family_id expires = record {
  family_id = family_id;
  client_id = g.client_id;
  principal_id = g.principal_id;
  session_id = g.session_id;
  scope = g.scope;
  absolute_expires_at = expires;
  revoked_at = none;
  revocation_reason = none;
  reuse_detected_at = none;
}

-- The statements for a scope of `offline_access`; a family id, token id or digest that is there
-- fails, and so does an expiry that is not later than `now`.
unfoldable pub start_family : CodeGrant → Option NewFamily → ℕ → ℕ → Db → Option Db
start_family g none now expires db = some db
start_family g (some (family_id, token_id, digest)) now expires db =
    let token = first_token family_id token_id digest now expires in
    if any (λ f. eq_text f.family_id family_id) db.families
      || any (clashes token) db.tokens
      || leb expires now
    then none
    else some (record db {
      families = insert_if true (code_family g family_id expires) db.families;
      tokens = insert_if true token db.tokens;
    })

-- The statements that follow the first, up to the guard, which fails unless the use is there.
unfoldable pub settle_use : CodeGrant → Digest → Option NewFamily → Text → ℕ → ℕ → Db → Option Db
settle_use g request_digest family authorization_id now expires db =
    if any (is_use g.id request_digest now) db.code_uses
      && not (authorize_fails true g.principal_id g.client_id now db.authorizations)
    then start_family g family now expires (record db {
      authorizations =
          authorize true authorization_id g.principal_id g.client_id
            (split_ascii_whitespace g.scope) now db.authorizations;
    })
    else none

unfoldable pub consume_code :
    Db → CodeGrant → Digest → Option NewFamily → Text → ℕ → ℕ → ℕ → Option Db
consume_code db g request_digest family authorization_id now clock expires =
    elim (insert_use db g request_digest now clock) [
      | none ↦ none
      | some db' ↦ settle_use g request_digest family authorization_id now expires db'
    ]
