-- ===== src/Device/Repository/Grants.antt =====
-- crates/identity-worker/src/device_repository.rs: grant and consume.
use moesegfault_indentity.Base.{
  ℕ, Bool, false, not, ◌&&◌, ◌||◌, Option, none, some, List, [], ◌∷◌, ◌++◌, ltb, leb, any, find,
  is_some, if◌then◌else◌,
}
use moesegfault_indentity.Base.Text.{Text, eq_text, split_ascii_whitespace}
use moesegfault_indentity.Secret.{Digest}
use moesegfault_indentity.Store.{
  Client, Session, Profile, Username, approved, consumed, Device, Authorization, Family,
  RefreshToken, active, Db, has_authority, is_device_client,
}
use moesegfault_indentity.Store.Sql.{update, insert_if}
use moesegfault_indentity.Oauth.Refresh.{clashes}
use moesegfault_indentity.Device.Repository.Requests.{is_state}

pub record DeviceGrant : Type 0 where
  pub id : Text
  pub client_id : Text
  pub principal_id : Text
  pub session_id : Text
  pub scope : Text
  pub expires_at : ℕ
  pub authenticated_at : ℕ
  pub session_idle_expires_at : ℕ
  pub session_absolute_expires_at : ℕ
  pub session_revoked_at : Option ℕ
  pub amr_json : Text
  pub acr : Text
  pub display_name : Text
  pub username : Text
  pub sector_identifier : Text
  pub subject_salt_revision : ℕ

abbrev pub join_grant :
    Device
    → Text
    → Text
    → Option Session
    → Option Profile
    → Option Username
    → Option Client
    → Option DeviceGrant
join_grant d p s (some session) (some profile) (some name) (some client) = some (record {
  id = d.id;
  client_id = d.client_id;
  principal_id = p;
  session_id = s;
  scope = d.scope;
  expires_at = d.expires_at;
  authenticated_at = session.authenticated_at;
  session_idle_expires_at = session.idle_expires_at;
  session_absolute_expires_at = session.absolute_expires_at;
  session_revoked_at = session.revoked_at;
  amr_json = session.amr_json;
  acr = session.acr;
  display_name = profile.display_name;
  username = name.value;
  sector_identifier = client.sector_identifier;
  subject_salt_revision = client.subject_salt_revision;
})
join_grant d p s _ _ _ _ = none

-- A row whose principal or session is NULL joins no other.
abbrev pub grant_of : Db → Device → Option Text → Option Text → Option DeviceGrant
grant_of db d (some p) (some s) =
    join_grant d p s (find (λ r. eq_text r.session_id s) db.sessions)
      (find (λ r. eq_text r.principal_id p) db.profiles)
      (find (λ r. eq_text r.principal_id p) db.usernames)
      (find (λ r. eq_text r.client_id d.client_id) db.clients)
grant_of db d _ _ = none

unfoldable pub grant : Db → Text → Option DeviceGrant
grant db id = elim (find (λ d. eq_text d.id id && is_state d.state approved) db.devices) [
  | none ↦ none
  | some d ↦ grant_of db d d.principal_id d.session_id
]

-- `column=value`, which NULL never satisfies
abbrev pub is_value : Option Text → Text → Bool
is_value none v = false
is_value (some w) v = eq_text w v

-- A new refresh-token family: its id, the id of its first token, and that token's digest.
abbrev pub NewFamily : Type 0
NewFamily = Text × Text × Digest

-- the WHERE clause of the first statement of `consume`
unfoldable pub may_consume : Db → DeviceGrant → ℕ → Device → Bool
may_consume db g now d =
    eq_text d.id g.id
    && is_state d.state approved
    && ltb now d.expires_at
    && eq_text d.client_id g.client_id
    && is_value d.principal_id g.principal_id
    && is_value d.session_id g.session_id
    && has_authority db g.principal_id g.session_id now
    && is_device_client db g.client_id

unfoldable pub set_consumed : Text → Device → Device
set_consumed marker d = record d { state = consumed; consumption_id = some marker }

-- `EXISTS(SELECT 1 FROM oauth_device_authorizations WHERE ... AND consumption_id=marker)`
unfoldable pub holds_marker : Text → Text → Device → Bool
holds_marker id marker d = eq_text d.id id && is_value d.consumption_id marker

abbrev pub is_current : Text → Text → Authorization → Bool
is_current principal_id client_id a =
    eq_text a.principal_id principal_id
    && eq_text a.client_id client_id
    && not (is_some a.revoked_at)

-- `INSERT OR IGNORE`, then `UPDATE`, of the user's authorization of the client
unfoldable pub authorize :
    Bool → Text → Text → Text → List Text → ℕ → List Authorization → List Authorization
authorize gate authorization_id principal_id client_id scopes now rows =
    update (λ a. gate && is_current principal_id client_id a)
      (λ a. record a { scopes = scopes; updated_at = now; last_used_at = now })
      (insert_if
        (gate
          && not (
              any
                (λ a.
                  eq_text a.authorization_id authorization_id
                  || is_current principal_id client_id a)
                rows))
        (record {
          authorization_id = authorization_id;
          principal_id = principal_id;
          client_id = client_id;
          scopes = scopes;
          granted_at = now;
          updated_at = now;
          last_used_at = now;
          revoked_at = none;
        })
        rows)

abbrev pub new_family : DeviceGrant → Text → ℕ → Family
new_family g family_id expires = record {
  family_id = family_id;
  client_id = g.client_id;
  principal_id = g.principal_id;
  session_id = g.session_id;
  scope = g.scope;
  absolute_expires_at = expires;
  revoked_at = none;
  revocation_reason = none;
  reuse_detected_at = none;
}

abbrev pub first_token : Text → Text → Digest → ℕ → ℕ → RefreshToken
first_token family_id token_id digest now expires = record {
  token_id = token_id;
  family_id = family_id;
  digest = digest;
  generation = 0;
  issued_at = now;
  expires_at = expires;
  state = active;
  consumed_at = none;
  replacement = none;
}

-- `CHECK (updated_at >= granted_at)` on the authorization that is updated
unfoldable pub authorize_fails : Bool → Text → Text → ℕ → List Authorization → Bool
authorize_fails gate principal_id client_id now rows =
    gate && any (λ a. is_current principal_id client_id a && ltb now a.granted_at) rows

-- the last two statements of `consume`, for a grant with `offline_access`; a key that is there, or an
-- expiry that is not later than `now`, fails
unfoldable pub add_family : Bool → DeviceGrant → Option NewFamily → ℕ → ℕ → Db → Option Db
add_family gate g none now expires db = some db
add_family gate g (some (family_id, token_id, digest)) now expires db =
    let token = first_token family_id token_id digest now expires in
    let there = any (λ f. eq_text f.family_id family_id) db.families in
    if gate && (there || leb expires now)
    then none
    else if gate || there
    then if any (clashes token) db.tokens || leb expires now
      then none
      else some (record db {
        families = insert_if gate (new_family g family_id expires) db.families;
        tokens = db.tokens ++ token ∷ [];
      })
    else some db

-- `UNIQUE (consumption_id)`, when the first statement changes a row
unfoldable pub marker_fails : Db → DeviceGrant → Text → ℕ → Bool
marker_fails db g marker now =
    any (may_consume db g now) db.devices && any (λ d. is_value d.consumption_id marker) db.devices

-- The batch, and whether its first statement changed a row; `none` when a constraint rolls it back.
unfoldable pub consume :
    Db
    → DeviceGrant
    → Option NewFamily
    → (marker authorization_id : Text) → (now refresh_expires_at : ℕ) → Option (Db × Bool)
consume db g family marker authorization_id now refresh_expires_at =
    let devices = update (may_consume db g now) (set_consumed marker) db.devices in
    let gate = any (holds_marker g.id marker) devices in
    if marker_fails db g marker now
      || authorize_fails gate g.principal_id g.client_id now db.authorizations
    then none
    else elim (add_family gate g family now refresh_expires_at (record db {
      devices = devices;
      authorizations =
          authorize gate authorization_id g.principal_id g.client_id
            (split_ascii_whitespace g.scope) now db.authorizations;
    })) [ none ↦ none | some db' ↦ some (db', any (may_consume db g now) db.devices) ]
