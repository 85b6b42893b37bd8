-- ===== src/Session.antt =====
-- crates/identity-worker/src/repository.rs: the browser session of a request, and how its use extends it;
-- oauth.rs: `authenticated_session`.
pub mod Touch
use moesegfault_indentity.Base.{
  ℕ, ◌+◌, ◌≡◌, Bool, true, false, not, ◌&&◌, Option, none, some, List, ltb, leb, min, find, is_some,
  if◌then◌else◌,
}
use moesegfault_indentity.Base.Text.{Text, text, eq_text, bytes}
use moesegfault_indentity.Secret.{Crypto, Digest, ct_eq}
use moesegfault_indentity.Store.{Db, Session, is_live, is_active_principal}
use moesegfault_indentity.Store.Sql.{update}
use moesegfault_indentity.Guard.{Headers, Env, cookie, session_cookie_name}
use moesegfault_indentity.Oauth.Issue.{peppered}

-- What the handlers use of `CurrentSession`.
pub record CurrentSession : Type 0 where
  pub principal_id : Text
  pub session_id : Text

unfoldable pub session_touch_due : ℕ → ℕ → Bool
session_touch_due last_seen_at now = leb (last_seen_at + 300) now

-- The WHERE clause of `touch_session`.
unfoldable pub may_touch : Text → ℕ → Session → Bool
may_touch session_id now s =
    eq_text s.session_id session_id && is_live now s && leb (s.last_seen_at + 300) now

unfoldable pub touched : ℕ → Session → Session
touched now s = record s {
  last_seen_at = now;
  idle_expires_at = min s.absolute_expires_at (now + 43200);
}

unfoldable pub touch_session : Db → Text → ℕ → Db
touch_session db session_id now = record db {
  sessions = update (may_touch session_id now) (touched now) db.sessions;
}

-- The WHERE clause of `current_session`.
unfoldable pub is_current_session : Db → Digest → ℕ → Session → Bool
is_current_session db digest now s =
    ct_eq s.digest digest && is_live now s && is_active_principal db s.principal_id

abbrev pub resolve : Db → ℕ → Option Session → Db × Option CurrentSession
resolve db now none = (db, none)
resolve db now (some s) = (
  if session_touch_due s.last_seen_at now then touch_session db s.session_id now else db,
  some (record { principal_id = s.principal_id; session_id = s.session_id }),
)

unfoldable pub current_session : Db → Digest → ℕ → Db × Option CurrentSession
current_session db digest now = resolve db now (find (is_current_session db digest now) db.sessions)

module _ (crypto : Crypto) (env : Env) (header : Headers) where
  abbrev by_cookie : Db → Option Text → ℕ → Option (Db × Option CurrentSession)
  by_cookie db none now = some (db, none)
  by_cookie db (some wire) now = elim (peppered crypto env (text "SESSION_PEPPER") (bytes wire)) [
    | none ↦ none
    | some digest ↦ some (current_session db digest now)
  ]

  -- `none` when the pepper is missing, which the handlers pass on as an error.
  unfoldable pub authenticated_session : Db → ℕ → Option (Db × Option CurrentSession)
  authenticated_session db now = by_cookie db (cookie header session_cookie_name) now
