-- ===== src/Oauth/Logout.antt =====
-- crates/identity-worker/src/oauth_repository.rs, oauth.rs: the end of a session, RP-initiated logout and the
-- UserInfo endpoint. `is_uuid` is the `uuid` crate's parser. The
-- column `identity_sessions.revocation_reason`, which nothing reads, is left out.
pub mod Ended
use moesegfault_indentity.Base.{
  ℕ, Bool, true, false, not, ◌&&◌, Option, none, some, List, [], ◌∷◌, any, find, is_some,
  if◌then◌else◌,
}
use moesegfault_indentity.Base.Json.{Json, str_field}
use moesegfault_indentity.Base.Text.{Text, text, eq_text}
use moesegfault_indentity.Secret.{Crypto}
use moesegfault_indentity.Store.{Db, Profile, Username}
use moesegfault_indentity.Store.Sql.{update}
use moesegfault_indentity.Guard.{Env, Headers}
use moesegfault_indentity.Session.{CurrentSession, authenticated_session}
use moesegfault_indentity.Oauth.Issue.{has_scope}
use moesegfault_indentity.Oauth.Refresh.{coalesce}
use moesegfault_indentity.Oauth.Syntax.{only_fields, bearer, eq_option}
use moesegfault_indentity.Oauth.Exchange.{get}
use moesegfault_indentity.Oauth.Jwt.{Jose, audience_one, verify_our_jwt}
use moesegfault_indentity.Oauth.Clients.{exact_post_logout_redirect}
use moesegfault_indentity.Oauth.Authorize.{Urls}

unfoldable pub logout_session : Db → Text → ℕ → Db
logout_session db session_id now = record db {
  sessions =
      update (λ s. eq_text s.session_id session_id)
        (λ s. record s { revoked_at = coalesce s.revoked_at now }) db.sessions;
  families =
      update (λ f. eq_text f.session_id session_id)
        (λ f. record f {
          revoked_at = coalesce f.revoked_at now;
          revocation_reason = coalesce f.revocation_reason (text "identity_session_logout");
        })
        db.families;
}

-- The subject of an enabled client's sector.
unfoldable pub principal_for_client_subject : Db → Text → Text → Option Text
principal_for_client_subject db client_id subject =
    elim (find
      (λ p.
        any
          (λ c.
            eq_text c.sector_identifier p.sector_identifier
            && eq_text c.client_id client_id
            && c.enabled)
          db.clients
        && eq_text p.subject subject)
      db.subjects) [ none ↦ none | some p ↦ some p.principal_id ]

unfoldable pub session_for_client_sid : Db → Text → Text → Option Text
session_for_client_sid db client_id public_sid =
    elim (find (λ r. eq_text r.client_id client_id && eq_text r.public_sid public_sid)
      db.client_sessions) [ none ↦ none | some r ↦ some r.session_id ]

pub data LogoutReply : Type 0 where
  logout_malformed hint_required redirect_unknown logged_out logout_broken : LogoutReply
  sent_to : (location : Text) → LogoutReply

-- The client of the hint and the session that the hint names.
pub record Hint : Type 0 where
  pub client_id : Option Text
  pub session_id : Option Text

abbrev no_hint : Hint
no_hint = record { client_id = none; session_id = none }

abbrev text_or_empty : Option Text → Text
text_or_empty none = []
text_or_empty (some v) = v

module _ (crypto : Crypto) (jose : Jose) (env : Env) (urls : Urls) (is_uuid : Text → Bool)
    (header : Headers) where
  -- A session claim, or an identifier of a session from an old ID token.
  abbrev pub hinted_session : Option Text → Text → Option Text
  hinted_session (some id) sid = some id
  hinted_session none sid = if is_uuid sid then some sid else none

  abbrev pub hint_of : Db → Option Text → Option Text → Hint
  hint_of db (some client) (some sid) = record {
    client_id = some client;
    session_id = hinted_session (session_for_client_sid db client sid) sid;
  }
  hint_of db client sid = record { client_id = client; session_id = none }

  unfoldable pub read_hint : Db → Option Text → ℕ → Hint
  read_hint db none now = no_hint
  read_hint db (some wire) now = elim (verify_our_jwt crypto jose env false wire now) [
    | none ↦ no_hint
    | some claims ↦ hint_of db (audience_one claims) (str_field (text "sid") claims)
  ]

  abbrev pub current_id : Db → Option (Db × Option CurrentSession) → Option (Db × Option Text)
  current_id db none = none
  current_id db (some (db', none)) = some (db', none)
  current_id db (some (db', some s)) = some (db', some s.session_id)

  -- The session of the hint, or else of the cookie.
  unfoldable pub session_to_end : Db → Option Text → ℕ → Option (Db × Option Text)
  session_to_end db (some sid) now = some (db, some sid)
  session_to_end db none now = current_id db (authenticated_session crypto env header db now)

  abbrev pub end_session : Db → Option Text → ℕ → Db
  end_session db none now = db
  end_session db (some sid) now = logout_session db sid now

  abbrev sent : Option Text → LogoutReply
  sent none = logout_broken
  sent (some l) = sent_to l

  abbrev pub after_logout : Db → Option Text → Option Text → Option Text → LogoutReply
  after_logout db client none state = logged_out
  after_logout db none (some uri) state = hint_required
  after_logout db (some client) (some uri) state =
      if not (exact_post_logout_redirect db client uri) then redirect_unknown else elim state [
        | none ↦ sent_to uri
        | some v ↦ sent (urls.append_query uri ((text "state", v) ∷ []))
      ]

  unfoldable pub logout : Db → List (Text × Text) → ℕ → ℕ → Db × LogoutReply
  logout db fields seen now =
      let hint = read_hint db (get (text "id_token_hint") fields) seen in
      elim (session_to_end db hint.session_id seen) [
        | none ↦ (db, logout_broken)
        | some (db', sid) ↦
            let ended = end_session db' sid now in
            (
              ended,
              after_logout ended hint.client_id (get (text "post_logout_redirect_uri") fields)
                  (get (text "state") fields),
            )
      ]

  -- `logout_get` and `logout_post`: the fields are what `unique_fields` and `read_form` give.
  unfoldable pub logout_request : Db → Option (List (Text × Text)) → ℕ → ℕ → Db × LogoutReply
  logout_request db none seen now = (db, logout_malformed)
  logout_request db (some fields) seen now =
      if only_fields fields
        (text "id_token_hint" ∷ text "post_logout_redirect_uri" ∷ text "state" ∷ [])
      then logout db fields seen now
      else (db, logout_malformed)

pub data InfoReply : Type 0 where
  bearer_required access_invalid scope_insufficient : InfoReply
  -- the subject, and with the scope of `profile` the display name and the user name
  info : (sub : Text) → Option (Text × Text) → InfoReply

module _ (crypto : Crypto) (jose : Jose) (env : Env) (header : Headers) where
  abbrev username_of : Text → Option Username → Text
  username_of principal_id none = principal_id
  username_of principal_id (some n) = n.value

  -- `repository::principal`: the profile, and the user name or else the identifier.
  abbrev pub profile_of : Db → Option Text → Option (Text × Text)
  profile_of db none = none
  profile_of db (some id) = elim (find (λ r. eq_text r.principal_id id) db.profiles) [
    | none ↦ none
    | some p ↦
        some (p.display_name, username_of id (find (λ r. eq_text r.principal_id id) db.usernames))
  ]

  unfoldable pub info_for : Db → Json → Text → Option Text → Option Text → InfoReply
  info_for db claims scope (some sub) (some client) =
      if not (eq_option (str_field (text "client_id") claims) (some client))
      then access_invalid
      else info sub (
          if has_scope (text "profile") scope
          then profile_of db (principal_for_client_subject db client sub)
          else none)
  info_for db claims scope _ _ = access_invalid

  unfoldable pub info_claims : Db → Json → InfoReply
  info_claims db claims =
      let scope = text_or_empty (str_field (text "scope") claims) in
      if not (has_scope (text "openid") scope)
      then scope_insufficient
      else info_for db claims scope (str_field (text "sub") claims) (audience_one claims)

  unfoldable pub userinfo : Db → ℕ → InfoReply
  userinfo db now = elim (bearer header) [
    | none ↦ bearer_required
    | some wire ↦ elim (verify_our_jwt crypto jose env true wire now) [
      | none ↦ access_invalid
      | some claims ↦ info_claims db claims
    ]
  ]
