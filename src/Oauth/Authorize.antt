-- ===== src/Oauth/Authorize.antt =====
-- crates/identity-worker/src/oauth.rs: the authorization endpoint and the resumption of a transaction. The
-- `url` crate's parser and query writer, the random draws and the clock's readings are arguments.
pub mod Flow
use moesegfault_indentity.Base.{
  ℕ, ◌+◌, Bool, true, false, not, ◌&&◌, ◌||◌, Option, none, some, List, [], ◌∷◌, ◌++◌, ltb, leb,
  any, is_some, if◌then◌else◌, Result, ok, err,
}
use moesegfault_indentity.Base.Text.{Text, text, eq_text, bytes, byte_len, is_empty, split}
use moesegfault_indentity.Policy.{validate_pkce_s256}
use moesegfault_indentity.Secret.{Crypto, Digest}
use moesegfault_indentity.Store.{Db}
use moesegfault_indentity.Store.Codes.{Transaction, authenticated, completed, is_transaction_state}
use moesegfault_indentity.Guard.{Env, Headers, login_origin}
use moesegfault_indentity.Device.Repository.{is_value}
use moesegfault_indentity.Session.{CurrentSession, authenticated_session}
use moesegfault_indentity.Oauth.Issue.{OauthClient, Issuance, config_seconds, peppered}
use moesegfault_indentity.Oauth.Syntax.{
  Url, unique_fields, only_fields, canonical_scopes, authorization_redirect_allowed, eq_option,
}
use moesegfault_indentity.Oauth.Exchange.{get}
use moesegfault_indentity.Oauth.Jwt.{Jose, issuance_config}
use moesegfault_indentity.Oauth.Clients.{client, redirect_registrations}
use moesegfault_indentity.Oauth.Codes.{
  scopes_allowed, new_transaction, insert_authorization_transaction, authorization_transaction,
  issue_authorization_code,
}

-- `url::Url::parse`, and `append_query`, which fails on a text that is no URL.
pub record Urls : Type 0 where
  pub parse : Text → Option Url
  pub append_query : Text → List (Text × Text) → Option Text

-- The refusals, one for each call of `protocol_problem` and `oauth_problem`.
pub data AuthorizeRefusal : Type 0 where
  unavailable navigation_required malformed unexpected_parameter missing_parameter invalid_parameter
        invalid_redirect invalid_transaction cannot_resume transaction_consumed :
      AuthorizeRefusal

pub data AuthorizeReply : Type 0 where
  refused : AuthorizeRefusal → AuthorizeReply
  -- back to the client, with an error
  returned : (error location : Text) → AuthorizeReply
  redirected : (location : Text) → AuthorizeReply
  broken : AuthorizeReply

-- The error code and the status.
unfoldable pub authorize_problem : AuthorizeRefusal → Text × ℕ
authorize_problem unavailable = (text "temporarily_unavailable", 503)
authorize_problem navigation_required = (text "invalid_request", 400)
authorize_problem malformed = (text "invalid_request", 400)
authorize_problem unexpected_parameter = (text "invalid_request", 400)
authorize_problem missing_parameter = (text "invalid_request", 400)
authorize_problem invalid_parameter = (text "invalid_request", 400)
authorize_problem invalid_redirect = (text "invalid_redirect_uri", 400)
authorize_problem invalid_transaction = (text "invalid_transaction", 404)
authorize_problem cannot_resume = (text "invalid_transaction", 409)
authorize_problem transaction_consumed = (text "transaction_consumed", 409)

abbrev is_none_or : Option Text → Text → Bool
is_none_or none v = true
is_none_or (some w) v = eq_text w v

unfoldable pub is_top_navigation : Headers → Bool
is_top_navigation header =
    is_none_or (header (text "sec-fetch-mode")) (text "navigate")
    && is_none_or (header (text "sec-fetch-dest")) (text "document")

-- The eight parameters that are required.
pub record Parameters : Type 0 where
  pub client_id : Text
  pub redirect_uri : Text
  pub response_type : Text
  pub scope : Text
  pub state : Text
  pub nonce : Text
  pub challenge : Text
  pub method : Text

abbrev required : Text → List (Text × Text) → Option Text
required name query = elim (get name query) [
  | none ↦ none
  | some v ↦ if is_empty v then none else some v
]

abbrev gathered :
    (client_id redirect_uri response_type scope : Option Text)
    → (state nonce challenge method : Option Text) → Option Parameters
gathered (some a) (some b) (some c) (some d) (some e) (some f) (some g) (some h) = some (record {
  client_id = a;
  redirect_uri = b;
  response_type = c;
  scope = d;
  state = e;
  nonce = f;
  challenge = g;
  method = h;
})
gathered _ _ _ _ _ _ _ _ = none

unfoldable pub parameters : List (Text × Text) → Option Parameters
parameters query =
    gathered (required (text "client_id") query) (required (text "redirect_uri") query)
      (required (text "response_type") query) (required (text "scope") query)
      (required (text "state") query) (required (text "nonce") query)
      (required (text "code_challenge") query) (required (text "code_challenge_method") query)

abbrev pub authorize_fields : List Text
authorize_fields =
    text "client_id"
    ∷ text "redirect_uri"
    ∷ text "response_type"
    ∷ text "scope"
    ∷ text "state"
    ∷ text "nonce"
    ∷ text "code_challenge"
    ∷ text "code_challenge_method"
    ∷ text "prompt"
    ∷ []

-- `url::Url::parse(..).is_err()`, or a fragment
abbrev pub is_bad_url : Option Url → Bool
is_bad_url none = true
is_bad_url (some u) = is_some u.fragment

abbrev is_err : {E A : Type 0} → Result E A → Bool
is_err (err e) = true
is_err (ok v) = false

unfoldable pub are_parameters_wrong : Urls → Parameters → Bool
are_parameters_wrong urls p =
    ltb 255 (byte_len p.client_id)
    || ltb 2048 (byte_len p.redirect_uri)
    || is_bad_url (urls.parse p.redirect_uri)
    || ltb (byte_len p.state) 8
    || ltb 1024 (byte_len p.state)
    || ltb (byte_len p.nonce) 8
    || ltb 1024 (byte_len p.nonce)
    || not (eq_text p.response_type (text "code"))
    || not (eq_text p.method (text "S256"))
    || is_err (validate_pkce_s256 p.challenge)

abbrev pub starts_openid : Text → Bool
starts_openid scopes = elim (split b' ' scopes) [ [] ↦ false | v ∷ vs ↦ eq_text v (text "openid") ]

-- The canonical scopes, if the first is `openid`.
unfoldable pub openid_scopes : Text → Option Text
openid_scopes scope = elim (canonical_scopes scope) [
  | none ↦ none
  | some v ↦ if starts_openid v then some v else none
]

abbrev pub is_prompt : Option Text → Text → Bool
is_prompt none v = false
is_prompt (some w) v = eq_text w v

abbrev pub is_prompt_wrong : Option Text → Bool
is_prompt_wrong none = false
is_prompt_wrong (some v) =
    not (any (eq_text v) (text "none" ∷ text "login" ∷ text "select_account" ∷ []))

-- The session that the request may go on with.
abbrev pub reused : Option Text → Option CurrentSession → Option CurrentSession
reused prompt none = none
reused prompt (some s) =
    if is_prompt prompt (text "login") || is_prompt prompt (text "select_account")
    then none
    else some s

abbrev pub principal_of : Option CurrentSession → Option Text
principal_of none = none
principal_of (some s) = some s.principal_id

abbrev pub session_of : Option CurrentSession → Option Text
session_of none = none
session_of (some s) = some s.session_id

-- `authorization_resume_uri`
unfoldable pub authorization_resume_uri : Text → Text → Text
authorization_resume_uri issuer id =
    issuer ++ text "/v1/oauth/authorization-transactions/" ++ id ++ text "/resume"

abbrev pub located : Option Text → AuthorizeReply
located none = broken
located (some l) = redirected l

abbrev errored : Text → Option Text → AuthorizeReply
errored error none = broken
errored error (some l) = returned error l

module _ (crypto : Crypto) (jose : Jose) (env : Env) (urls : Urls) (header : Headers) where
  unfoldable pub authorization_error : Text → Text → Text → Text → AuthorizeReply
  authorization_error uri error state issuer = errored error (
      urls.append_query uri
        ((text "error", error) ∷ (text "state", state) ∷ (text "iss", issuer) ∷ []))

  -- `{login_origin}/login?tx={id}`
  unfoldable pub to_login : Text → AuthorizeReply
  to_login id =
      located (urls.append_query (login_origin env ++ text "/login") ((text "tx", id) ∷ []))

  unfoldable pub start_transaction :
      Db → Issuance → Parameters → Text → Option CurrentSession → Text → ℕ → Db × AuthorizeReply
  start_transaction db i p scopes session id now =
      elim (insert_authorization_transaction db (
        new_transaction id p.client_id p.redirect_uri scopes p.state p.nonce p.challenge
          (principal_of session) (session_of session) now (now + 300))) [
            | none ↦ (db, broken)
            | some db' ↦ (
              db',
              if is_some session
                  then redirected (authorization_resume_uri i.issuer id)
                  else to_login id,
            )
          ]

  abbrev pub with_current :
      Db
      → Issuance
      → Parameters
      → Text
      → Option Text
      → Text
      → ℕ
      → Option (Db × Option CurrentSession)
      → Db × AuthorizeReply
  with_current db i p scopes prompt id now none = (db, broken)
  with_current db i p scopes prompt id now (some (db', current)) =
      if is_prompt prompt (text "none") && not (is_some current)
      then (db', authorization_error p.redirect_uri (text "login_required") p.state i.issuer)
      else start_transaction db' i p scopes (reused prompt current) id now

  unfoldable pub for_scopes :
      Db → Issuance → Parameters → Option Text → Option Text → Text → ℕ → ℕ → Db × AuthorizeReply
  for_scopes db i p none prompt id seen now =
      (db, authorization_error p.redirect_uri (text "invalid_scope") p.state i.issuer)
  for_scopes db i p (some scopes) prompt id seen now =
      if not (scopes_allowed db p.client_id (split b' ' scopes))
      then (db, authorization_error p.redirect_uri (text "invalid_scope") p.state i.issuer)
      else if is_prompt_wrong prompt
      then (db, authorization_error p.redirect_uri (text "invalid_request") p.state i.issuer)
      else with_current db i p scopes prompt id now
          (authenticated_session crypto env header db seen)

  unfoldable pub authorize_client :
      Db
      → Issuance
      → Parameters
      → Option Text
      → Text
      → ℕ
      → ℕ
      → Option OauthClient
      → Db × AuthorizeReply
  authorize_client db i p prompt id seen now none = (db, refused invalid_redirect)
  authorize_client db i p prompt id seen now (some c) =
      if not (
        authorization_redirect_allowed urls.parse c p.redirect_uri
          (redirect_registrations db p.client_id))
      then (db, refused invalid_redirect)
      else for_scopes db i p (openid_scopes p.scope) prompt id seen now

  unfoldable pub authorize_parameters :
      Db → Issuance → Option Parameters → Option Text → Text → ℕ → ℕ → Db × AuthorizeReply
  authorize_parameters db i none prompt id seen now = (db, refused missing_parameter)
  authorize_parameters db i (some p) prompt id seen now =
      if are_parameters_wrong urls p
      then (db, refused invalid_parameter)
      else authorize_client db i p prompt id seen now (client db p.client_id)

  unfoldable pub authorize_query :
      Db → Issuance → Option (List (Text × Text)) → Text → ℕ → ℕ → Db × AuthorizeReply
  authorize_query db i none id seen now = (db, refused malformed)
  authorize_query db i (some query) id seen now =
      if not (only_fields query authorize_fields)
      then (db, refused unexpected_parameter)
      else authorize_parameters db i (parameters query) (get (text "prompt") query) id seen now

  -- The decoded pairs of the query, the id of the new transaction, and the clock's two readings.
  unfoldable pub authorize : Db → List (Text × Text) → Text → ℕ → ℕ → Db × AuthorizeReply
  authorize db pairs id seen now = elim (issuance_config crypto jose env) [
    | none ↦ (db, refused unavailable)
    | some i ↦
        if not (is_top_navigation header)
        then (db, refused navigation_required)
        else authorize_query db i (unique_fields 12 [] pairs) id seen now
  ]

  unfoldable pub is_not_resumable : Transaction → CurrentSession → ℕ → Bool
  is_not_resumable t s now =
      not (is_transaction_state t.state authenticated)
      || leb t.expires_at now
      || not (is_value t.principal_id s.principal_id)
      || not (is_value t.session_id s.session_id)

  -- After a batch that failed: whether the transaction was completed meanwhile.
  unfoldable pub lost_issue : Db → Text → Db × AuthorizeReply
  lost_issue db id = elim (authorization_transaction db id) [
    | none ↦ (db, broken)
    | some t ↦
        if is_transaction_state t.state completed
        then (db, refused transaction_consumed)
        else (db, broken)
  ]

  abbrev pub code_location : Issuance → Transaction → Text → AuthorizeReply
  code_location i t code = located (
      urls.append_query t.redirect_uri
        ((text "code", code) ∷ (text "state", t.state_value) ∷ (text "iss", i.issuer) ∷ []))

  unfoldable pub issue_for :
      Db
      → Issuance
      → Transaction
      → CurrentSession
      → (code code_id : Text) → Digest
      → ℕ
      → Db × AuthorizeReply
  issue_for db i t s code code_id digest now =
      elim (issue_authorization_code db t.id code_id digest s.session_id s.principal_id now
        (now + config_seconds env (text "AUTHORIZATION_CODE_TTL_SECONDS") 60 600)) [
          | none ↦ lost_issue db t.id
          | some (db', changed) ↦
              if changed then (db', code_location i t code) else (db', refused transaction_consumed)
        ]

  unfoldable pub resume_with :
      Db → Issuance → Transaction → CurrentSession → (code code_id : Text) → ℕ → Db × AuthorizeReply
  resume_with db i t s code code_id now =
      if is_not_resumable t s now
      then (db, refused cannot_resume)
      else elim (peppered crypto env (text "AUTHORIZATION_CODE_PEPPER") (bytes code)) [
        | none ↦ (db, broken)
        | some digest ↦ issue_for db i t s code code_id digest now
      ]

  abbrev pub resume_session :
      Db
      → Issuance
      → Transaction
      → (code code_id : Text) → ℕ
      → Option (Db × Option CurrentSession)
      → Db × AuthorizeReply
  resume_session db i t code code_id now none = (db, broken)
  resume_session db i t code code_id now (some (db', none)) = (db', to_login t.id)
  resume_session db i t code code_id now (some (db', some s)) =
      resume_with db' i t s code code_id now

  unfoldable pub resume_transaction :
      Db → Issuance → Option Transaction → (code code_id : Text) → ℕ → ℕ → Db × AuthorizeReply
  resume_transaction db i none code code_id seen now = (db, refused invalid_transaction)
  resume_transaction db i (some t) code code_id seen now =
      resume_session db i t code code_id now (authenticated_session crypto env header db seen)

  -- The parameter `id` of the path, the code and its id that are drawn, and the clock's two readings.
  unfoldable pub resume : Db → Text → (code code_id : Text) → ℕ → ℕ → Db × AuthorizeReply
  resume db id code code_id seen now = elim (issuance_config crypto jose env) [
    | none ↦ (db, refused unavailable)
    | some i ↦ resume_transaction db i (authorization_transaction db id) code code_id seen now
  ]
