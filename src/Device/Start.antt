-- ===== src/Device/Start.antt =====
-- crates/identity-worker/src/device.rs: the handler `start`. What it draws and the clock's readings are
-- arguments; the form is what `read_form` makes of the request.
pub mod Pending
pub mod Tests
use moesegfault_indentity.Base.{
  ℕ, ◌+◌, ◌-◌, ◌%◌, ◌≡◌, refl, Bool, true, false, not, ◌&&◌, Option, none, some, List, [], ◌∷◌,
  ◌++◌, any, map, drop, if◌then◌else◌,
}
use moesegfault_indentity.Base.Text.{Text, text, eq_text, split}
use moesegfault_indentity.Secret.{Crypto, Digest}
use moesegfault_indentity.Store.{Db}
use moesegfault_indentity.Guard.{Headers, Env, login_origin, or_else}
use moesegfault_indentity.Oauth.Issue.{OauthClient, Issuance}
use moesegfault_indentity.Oauth.Exchange.{get}
use moesegfault_indentity.Oauth.Syntax.{only_fields, canonical_scopes}
use moesegfault_indentity.Oauth.Jwt.{Jose, issuance_config}
use moesegfault_indentity.Oauth.Clients.{authenticate_client_at}
use moesegfault_indentity.Oauth.Codes.{scopes_allowed}
use moesegfault_indentity.Oauth.Authorize.{Urls}
use moesegfault_indentity.Device.Codes.{user_alphabet, lifetime, formatted_user_code}
use moesegfault_indentity.Device.Handlers.{purpose_digest}
use moesegfault_indentity.Device.Repository.{insert, reserve_attempt}

abbrev head_or_zero : Text → ℕ
head_or_zero [] = 0
head_or_zero (c ∷ cs) = c

-- The code that eight draws of an index choose.
unfoldable pub random_user_code : List ℕ → Text
random_user_code draws = map (λ i. head_or_zero (drop i user_alphabet)) draws

pub record StartDraw : Type 0 where
  pub id : Text
  pub device_code : Text
  pub indices : List ℕ
  pub authenticated : ℕ
  pub reserved : ℕ
  pub retried : ℕ
  pub last : ℕ

-- The refusals, one for each call of `oauth_problem`; `slow_down` sets `retry-after`.
pub data StartRefusal : Type 0 where
  unavailable malformed client_failed unauthorized_client openid_required scope_not_registered :
      StartRefusal
  slow_down : ℕ → StartRefusal

pub record Started : Type 0 where
  pub device_code : Text
  pub user_code : Text
  pub verification_uri : Text
  pub verification_uri_complete : Text
  pub expires_in : ℕ
  pub interval : ℕ

pub data StartReply : Type 0 where
  declined : StartRefusal → StartReply
  started : Started → StartReply
  broken : StartReply

-- The error code and the status.
unfoldable pub start_problem : StartRefusal → Text × ℕ
start_problem unavailable = (text "temporarily_unavailable", 503)
start_problem malformed = (text "invalid_request", 400)
start_problem client_failed = (text "invalid_client", 401)
start_problem unauthorized_client = (text "unauthorized_client", 400)
start_problem openid_required = (text "invalid_scope", 400)
start_problem scope_not_registered = (text "invalid_scope", 400)
start_problem (slow_down after) = (text "slow_down", 429)

abbrev pub start_fields : List Text
start_fields =
    text "client_id" ∷ text "scope" ∷ text "client_assertion_type" ∷ text "client_assertion" ∷ []

-- The canonical scopes, if `openid` is among them.
unfoldable pub device_scopes : Text → Option Text
device_scopes scope = elim (canonical_scopes scope) [
  | none ↦ none
  | some s ↦ if any (λ v. eq_text v (text "openid")) (split b' ' s) then some s else none
]

module _ (crypto : Crypto) (jose : Jose) (env : Env) (urls : Urls) (draw : StartDraw)
    (header : Headers) where
  abbrev pub verification_uri : Text
  verification_uri = login_origin env ++ text "/device"

  abbrev pub reply_with : Text → Option Text → StartReply
  reply_with user_code none = broken
  reply_with user_code (some complete) = started (record {
    device_code = draw.device_code;
    user_code = user_code;
    verification_uri = verification_uri;
    verification_uri_complete = complete;
    expires_in = lifetime;
    interval = 5;
  })

  abbrev pub start_reply : Text → StartReply
  start_reply user_code =
      reply_with user_code (urls.append_query verification_uri ((text "user_code", user_code) ∷ []))

  abbrev pub stored : Db → Option Db → Db × StartReply
  stored db none = (db, broken)
  stored db (some db') = (db', start_reply (formatted_user_code (random_user_code draw.indices)))

  abbrev pub inserted : Db → Text → Text → Option Digest → Option Digest → Db × StartReply
  inserted db client_id scope (some device_digest) (some user_digest) =
      stored db (
        insert db draw.id device_digest user_digest client_id scope draw.last
          (draw.last + lifetime))
  inserted db client_id scope _ _ = (db, broken)

  abbrev pub for_scope : Db → Text → Option Text → Db × StartReply
  for_scope db client_id none = (db, declined openid_required)
  for_scope db client_id (some scope) =
      if not (scopes_allowed db client_id (split b' ' scope))
      then (db, declined scope_not_registered)
      else inserted db client_id scope
          (purpose_digest crypto env header (text "device-code") draw.device_code)
          (purpose_digest crypto env header (text "user-code") (random_user_code draw.indices))

  unfoldable pub start_scoped : Db → Text → List (Text × Text) → Db × StartReply
  start_scoped db client_id fields =
      for_scope db client_id (device_scopes (or_else (get (text "scope") fields) (text "openid")))

  abbrev pub counted : Db → Text → List (Text × Text) → Option Digest → Db × StartReply
  counted db client_id fields none = (db, broken)
  counted db client_id fields (some bucket) =
      let (db', reserved) = reserve_attempt db bucket draw.reserved 600 1000 in
      if not reserved
      then (db', declined (slow_down (600 - draw.retried % 600)))
      else start_scoped db' client_id fields

  abbrev pub limited : Db → Text → List (Text × Text) → Option Text → Db × StartReply
  limited db client_id fields none = start_scoped db client_id fields
  limited db client_id fields (some ip) =
      counted db client_id fields
        (purpose_digest crypto env header (text "creation") (client_id ++ b':' ∷ ip))

  abbrev pub start_client :
      Db → Text → List (Text × Text) → Option (Db × OauthClient) → Db × StartReply
  start_client db client_id fields none = (db, declined client_failed)
  start_client db client_id fields (some (db', c)) =
      if not c.device_authorization_enabled
      then (db', declined unauthorized_client)
      else limited db' client_id fields (header (text "cf-connecting-ip"))

  abbrev pub named_client : Issuance → Db → List (Text × Text) → Option Text → Db × StartReply
  named_client i db fields none = (db, declined malformed)
  named_client i db fields (some client_id) = start_client db client_id fields (
      authenticate_client_at crypto jose db client_id fields
        (i.issuer ++ text "/v1/oauth/device-authorizations") draw.authenticated)

  abbrev pub start_form : Issuance → Db → Option (List (Text × Text)) → Db × StartReply
  start_form i db none = (db, declined malformed)
  start_form i db (some fields) =
      if only_fields fields start_fields
      then named_client i db fields (get (text "client_id") fields)
      else (db, declined malformed)

  unfoldable pub start : Db → Option (List (Text × Text)) → Db × StartReply
  start db form = elim (issuance_config crypto jose env) [
    | none ↦ (db, declined unavailable)
    | some i ↦ start_form i db form
  ]
