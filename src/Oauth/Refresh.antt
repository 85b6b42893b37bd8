-- ===== src/Oauth/Refresh.antt =====
-- crates/identity-worker/src/oauth_repository.rs: refresh tokens. A batch that a constraint or its last
-- statement makes fail is `none`: D1 rolls it back.
use moesegfault_indentity.Base.{
  ℕ, ◌+◌, Bool, true, false, not, ◌&&◌, ◌||◌, Option, none, some, List, any, find, ltb, ◌==◌,
  is_some, if◌then◌else◌,
}
use moesegfault_indentity.Base.Text.{Text, text, eq_text}
use moesegfault_indentity.Secret.{Digest, ct_eq}
use moesegfault_indentity.Store.{
  Db, Client, Session, Profile, Username, Family, RefreshToken, TokenState, active, rotated,
  revoked, has_authority, is_enabled_client,
}
use moesegfault_indentity.Store.Sql.{update, insert_if}

pub record RefreshGrant : Type 0 where
  pub token_id : Text
  pub family_id : Text
  pub generation : ℕ
  pub token_state : TokenState
  pub token_expires_at : ℕ
  pub client_id : Text
  pub principal_id : Text
  pub session_id : Text
  pub scope : Text
  pub absolute_expires_at : ℕ
  pub family_revoked_at : Option ℕ
  pub authenticated_at : ℕ
  pub session_idle_expires_at : ℕ
  pub session_absolute_expires_at : ℕ
  pub session_revoked_at : Option ℕ
  pub amr_json : Text
  pub acr : Text
  pub display_name : Text
  pub username : Text
  pub sector_identifier : Text
  pub subject_salt_revision : ℕ

abbrev pub is_token_state : TokenState → TokenState → Bool
is_token_state active active = true
is_token_state rotated rotated = true
is_token_state revoked revoked = true
is_token_state _ _ = false

abbrev pub join_refresh :
    RefreshToken
    → Option Family
    → Option Session
    → Option Profile
    → Option Username
    → Option Client
    → Option RefreshGrant
join_refresh t (some family) (some session) (some profile) (some name) (some client) =
    some (record {
      token_id = t.token_id;
      family_id = t.family_id;
      generation = t.generation;
      token_state = t.state;
      token_expires_at = t.expires_at;
      client_id = family.client_id;
      principal_id = family.principal_id;
      session_id = family.session_id;
      scope = family.scope;
      absolute_expires_at = family.absolute_expires_at;
      family_revoked_at = family.revoked_at;
      authenticated_at = session.authenticated_at;
      session_idle_expires_at = session.idle_expires_at;
      session_absolute_expires_at = session.absolute_expires_at;
      session_revoked_at = session.revoked_at;
      amr_json = session.amr_json;
      acr = session.acr;
      display_name = profile.display_name;
      username = name.value;
      sector_identifier = client.sector_identifier;
      subject_salt_revision = client.subject_salt_revision;
    })
join_refresh t _ _ _ _ _ = none

-- The rows that a family of a token joins.
unfoldable pub refresh_of : Db → RefreshToken → Option Family → Option RefreshGrant
refresh_of db t none = none
refresh_of db t (some f) =
    join_refresh t (some f) (find (λ r. eq_text r.session_id f.session_id) db.sessions)
      (find (λ r. eq_text r.principal_id f.principal_id) db.profiles)
      (find (λ r. eq_text r.principal_id f.principal_id) db.usernames)
      (find (λ r. eq_text r.client_id f.client_id) db.clients)

unfoldable pub refresh_grant : Db → Digest → Option RefreshGrant
refresh_grant db digest = elim (find (λ t. ct_eq t.digest digest) db.tokens) [
  | none ↦ none
  | some t ↦ refresh_of db t (find (λ f. eq_text f.family_id t.family_id) db.families)
]

-- `COALESCE(column, value)`
abbrev pub coalesce {ℓ} : {A : Type ℓ} → Option A → A → Option A
coalesce none a = some a
coalesce (some b) a = some b

unfoldable pub revoke_family_for_reuse : Db → Text → ℕ → Db
revoke_family_for_reuse db family_id now = record db {
  families =
      update (λ f. eq_text f.family_id family_id)
        (λ f. record f {
          revoked_at = coalesce f.revoked_at now;
          revocation_reason = coalesce f.revocation_reason (text "refresh_token_reuse");
          reuse_detected_at = coalesce f.reuse_detected_at now;
        })
        db.families;
}

unfoldable pub revoke_by_refresh_digest : Db → Digest → Text → ℕ → Db
revoke_by_refresh_digest db digest client_id now = record db {
  families =
      update
        (λ f.
          eq_text f.client_id client_id
          && any (λ t. ct_eq t.digest digest && eq_text t.family_id f.family_id) db.tokens)
        (λ f. record f {
          revoked_at = coalesce f.revoked_at now;
          revocation_reason = coalesce f.revocation_reason (text "client_revocation");
        })
        db.families;
}

-- The family of a grant, as the first statement of `rotate_refresh` wants it.
unfoldable pub is_live_family : RefreshGrant → ℕ → Family → Bool
is_live_family g now f =
    eq_text f.family_id g.family_id
    && eq_text f.client_id g.client_id
    && eq_text f.principal_id g.principal_id
    && eq_text f.session_id g.session_id
    && not (is_some f.revoked_at)
    && ltb now f.absolute_expires_at

abbrev pub is_token_of : Text → Text → RefreshToken → Bool
is_token_of token_id family_id t = eq_text t.token_id token_id && eq_text t.family_id family_id

-- The WHERE clause of REFRESH_ROTATE_INSERT_SQL.
unfoldable pub may_rotate : Db → RefreshGrant → ℕ → Bool
may_rotate db g now =
    any (is_live_family g now) db.families
    && has_authority db g.principal_id g.session_id now
    && is_enabled_client db g.client_id
    && any
        (λ t.
          is_token_of g.token_id g.family_id t
          && is_token_state t.state active
          && ltb now t.expires_at)
        db.tokens

abbrev pub new_token : RefreshGrant → Text → Digest → ℕ → ℕ → RefreshToken
new_token g token_id digest now expires = record {
  token_id = token_id;
  family_id = g.family_id;
  digest = digest;
  generation = g.generation + 1;
  issued_at = now;
  expires_at = expires;
  state = revoked;
  consumed_at = none;
  replacement = none;
}

-- The UNIQUE constraints of `oauth_refresh_tokens`.
unfoldable pub clashes : RefreshToken → RefreshToken → Bool
clashes new t =
    eq_text t.token_id new.token_id
    || ct_eq t.digest new.digest
    || (eq_text t.family_id new.family_id && t.generation == new.generation)

-- The second statement of `rotate_refresh`.
unfoldable pub may_retire : RefreshGrant → Text → List RefreshToken → RefreshToken → Bool
may_retire g new_id rows t =
    is_token_of g.token_id g.family_id t
    && is_token_state t.state active
    && any (λ r. is_token_of new_id g.family_id r && is_token_state r.state revoked) rows

abbrev pub retire : ℕ → Text → RefreshToken → RefreshToken
retire now new_id t = record t {
  state = rotated;
  consumed_at = some now;
  replacement = some new_id;
}

-- Its third statement.
abbrev pub is_replaced : Option Text → Text → Bool
is_replaced none id = false
is_replaced (some r) id = eq_text r id

unfoldable pub may_promote : RefreshGrant → Text → List RefreshToken → RefreshToken → Bool
may_promote g new_id rows t =
    is_token_of new_id g.family_id t
    && is_token_state t.state revoked
    && any
        (λ r.
          eq_text r.token_id g.token_id
          && is_token_state r.state rotated
          && is_replaced r.replacement new_id)
        rows

abbrev pub promote : RefreshToken → RefreshToken
promote t = record t { state = active }

abbrev pub is_active_of : Text → RefreshToken → Bool
is_active_of family_id t = eq_text t.family_id family_id && is_token_state t.state active

-- The unique index on active tokens, and the guard statement, which fails unless the new token is active.
unfoldable pub promoted : RefreshGrant → Text → List RefreshToken → Option (List RefreshToken)
promoted g new_id rows =
    let rows' = update (may_promote g new_id rows) promote rows in
    if any (may_promote g new_id rows) rows && any (is_active_of g.family_id) rows
    then none
    else if any (λ t. is_token_of new_id g.family_id t && is_token_state t.state active) rows'
    then some rows'
    else none

unfoldable pub rotated_tokens :
    Bool → RefreshGrant → Text → Digest → ℕ → ℕ → List RefreshToken → Option (List RefreshToken)
rotated_tokens gate g new_id new_digest now expires rows =
    let inserted = insert_if gate (new_token g new_id new_digest now expires) rows in
    if gate && any (clashes (new_token g new_id new_digest now expires)) rows
    then none
    else promoted g new_id (update (may_retire g new_id inserted) (retire now new_id) inserted)

unfoldable pub rotate_refresh : Db → RefreshGrant → Text → Digest → ℕ → ℕ → Option Db
rotate_refresh db g new_id new_digest now expires =
    elim (rotated_tokens (may_rotate db g now) g new_id new_digest now expires db.tokens) [
      | none ↦ none
      | some tokens ↦ some (record db { tokens = tokens })
    ]
