-- ===== src/Device/Handlers.antt =====
-- crates/identity-worker/src/device.rs: the consent page's handlers `lookup` and `decide`. The parsed
-- body of the request and the clock's readings are arguments.
pub mod Consent
pub mod Tests
use moesegfault_indentity.Base.{
  ℕ, ◌-◌, ◌%◌, ◌++◌, Bool, true, false, not, ◌&&◌, Option, none, some, List, [], ◌∷◌, leb,
  if◌then◌else◌, Result, ok, err,
}
use moesegfault_indentity.Base.Text.{Text, text, bytes}
use moesegfault_indentity.Secret.{Crypto, Digest}
use moesegfault_indentity.Store.{Db, DeviceState, pending, approved, denied}
use moesegfault_indentity.Guard.{
  Headers, Env, validate_browser_mutation, validate_session_csrf, cookie, session_cookie_name,
  or_else,
}
use moesegfault_indentity.Session.{CurrentSession, authenticated_session}
use moesegfault_indentity.Oauth.Issue.{peppered}
use moesegfault_indentity.Device.Codes.{normalize_user_code, formatted_user_code}
use moesegfault_indentity.Device.Repository.{
  DeviceRequest, Decision, approve, deny, is_state, lookup, decide, reserve_attempt,
}

-- The refusals, one for each call of `oauth_problem`; `limited` sets `retry-after`.
pub data ConsentRefusal : Type 0 where
  browser_check_failed login_required csrf_failed malformed_request invalid_code expired :
      ConsentRefusal
  limited : ℕ → ConsentRefusal

pub data ConsentReply : Type 0 where
  declined : ConsentRefusal → ConsentReply
  -- the code as shown, the request, and the seconds left
  shown : Text → DeviceRequest → ℕ → ConsentReply
  settled : DeviceState → ConsentReply
  broken : ConsentReply

-- The clock's readings in the order in which a handler takes them.
pub record Readings : Type 0 where
  pub authenticated : ℕ
  pub reserved : ℕ
  pub looked_up : ℕ
  pub compared : ℕ
  pub last : ℕ

abbrev pub decided_state : Decision → DeviceState
decided_state approve = approved
decided_state deny = denied

module _ (crypto : Crypto) (env : Env) (header : Headers) where
  abbrev pub checked_csrf : Option Text → CurrentSession → Result ConsentReply CurrentSession
  checked_csrf none session = err broken
  checked_csrf (some pepper) session =
      if validate_session_csrf crypto header (or_else (cookie header session_cookie_name) [])
        (bytes pepper)
      then ok session
      else err (declined csrf_failed)

  abbrev pub with_session :
      Db → Option (Db × Option CurrentSession) → Db × Result ConsentReply CurrentSession
  with_session db none = (db, err broken)
  with_session db (some (db', none)) = (db', err (declined login_required))
  with_session db (some (db', some session)) =
      (db', checked_csrf (env.secret (text "CSRF_PEPPER")) session)

  unfoldable pub browser_session : Db → ℕ → Db × Result ConsentReply CurrentSession
  browser_session db now = elim (validate_browser_mutation header env) [
    | err e ↦ (db, err (declined browser_check_failed))
    | ok _ ↦ with_session db (authenticated_session crypto env header db now)
  ]

  -- `digest`
  unfoldable pub purpose_digest : Text → Text → Option Digest
  purpose_digest purpose value =
      peppered crypto env (text "AUTHORIZATION_CODE_PEPPER") (bytes (purpose ++ b':' ∷ value))

  abbrev pub attempts_left : ℕ → ConsentRefusal
  attempts_left now = limited (3600 - now % 3600)

  -- The answer to a request that was found.
  abbrev pub show : Text → Readings → Option DeviceRequest → ConsentReply
  show code t none = declined invalid_code
  show code t (some found) =
      if leb found.expires_at t.compared
      then declined expired
      else if not (is_state found.state pending)
      then declined invalid_code
      else shown (formatted_user_code code) found (found.expires_at - t.last)

  unfoldable pub show_code : Db → Option Text → Readings → ConsentReply
  show_code db none t = declined invalid_code
  show_code db (some code) t = elim (purpose_digest (text "user-code") code) [
    | none ↦ broken
    | some d ↦ show code t (lookup db d)
  ]

  unfoldable pub lookup_counted : Db → CurrentSession → Text → Readings → Db × ConsentReply
  lookup_counted db session user_code t =
      elim (purpose_digest (text "verification-lookup") session.principal_id) [
        | none ↦ (db, broken)
        | some bucket ↦
            let (db', reserved) = reserve_attempt db bucket t.reserved 3600 100 in
            if reserved
            then (db', show_code db' (normalize_user_code user_code) t)
            else (db', declined (attempts_left t.reserved))
      ]

  -- The handler `lookup`; the body is `none` when it is not of its form.
  unfoldable pub lookup_request : Option Text → Db → Readings → Db × ConsentReply
  lookup_request body db t =
      let (db', session) = browser_session db t.authenticated in
      elim session [
        | err r ↦ (db', r)
        | ok s ↦ elim body [
          | none ↦ (db', declined malformed_request)
          | some user_code ↦ lookup_counted db' s user_code t
        ]
      ]

  unfoldable pub decide_found :
      Db → CurrentSession → Digest → Decision → Readings → Option DeviceRequest → Db × ConsentReply
  decide_found db session d decision t none = (db, declined invalid_code)
  decide_found db session d decision t (some found) =
      let (db', changed) = decide db d session.principal_id session.session_id decision t.last in
      if leb found.expires_at t.compared
      then (db, declined expired)
      else if changed
      then (db', settled (decided_state decision))
      else (db', declined invalid_code)

  unfoldable pub decide_code :
      Db → CurrentSession → Option Text → Decision → Readings → Db × ConsentReply
  decide_code db session none decision t = (db, declined invalid_code)
  decide_code db session (some code) decision t = elim (purpose_digest (text "user-code") code) [
    | none ↦ (db, broken)
    | some d ↦ decide_found db session d decision t (lookup db d)
  ]

  unfoldable pub decide_counted :
      Db → CurrentSession → Text → Decision → Readings → Db × ConsentReply
  decide_counted db session user_code decision t =
      elim (purpose_digest (text "verification-decision") session.principal_id) [
        | none ↦ (db, broken)
        | some bucket ↦
            let (db', reserved) = reserve_attempt db bucket t.reserved 3600 100 in
            if reserved
            then decide_code db' session (normalize_user_code user_code) decision t
            else (db', declined (attempts_left t.reserved))
      ]

  -- The handler `decide`.
  unfoldable pub decide_request : Option (Text × Decision) → Db → Readings → Db × ConsentReply
  decide_request body db t =
      let (db', session) = browser_session db t.authenticated in
      elim session [
        | err r ↦ (db', r)
        | ok s ↦ elim body [
          | none ↦ (db', declined malformed_request)
          | some input ↦ decide_counted db' s input.0 input.1 t
        ]
      ]
