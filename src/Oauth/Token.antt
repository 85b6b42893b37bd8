-- ===== src/Oauth/Token.antt =====
-- crates/identity-worker/src/oauth.rs: the token and the revocation endpoints. The body of a request, the
-- form decoder of the `url` crate and the random draws are arguments.
pub mod Gate
use moesegfault_indentity.Base.{
  ℕ, ◌^◌, Bool, true, false, not, ◌&&◌, ◌||◌, Option, none, some, List, [], ◌∷◌, ◌++◌, ltb, leb,
  length, is_some, if◌then◌else◌,
}
use moesegfault_indentity.Base.Text.{
  Text, text, eq_text, bytes, split, trim, eq_ignore_ascii_case, is_empty,
}
use moesegfault_indentity.Secret.{Crypto, Digest}
use moesegfault_indentity.Store.{Db}
use moesegfault_indentity.Guard.{Env, Headers, or_else}
use moesegfault_indentity.Oauth.Issue.{
  OauthClient, Issuance, Signer, Draw, parse_number, refresh_digest,
}
use moesegfault_indentity.Oauth.Syntax.{unique_fields, only_fields, eq_option}
use moesegfault_indentity.Oauth.Refresh.{revoke_by_refresh_digest}
use moesegfault_indentity.Oauth.Exchange.{Reply, get, exchange_device, exchange_refresh}
use moesegfault_indentity.Oauth.Codes.Exchange.{exchange_code}
use moesegfault_indentity.Oauth.Jwt.{Jose, issuer, issuance_config}
use moesegfault_indentity.Oauth.Clients.{authenticate_client}

abbrev pub form_limit : ℕ
form_limit = 16384

-- `str::parse::<u64>`
abbrev in_u64 : Option ℕ → Option ℕ
in_u64 none = none
in_u64 (some n) = if ltb n 18446744073709551616 then some n else none

unfoldable pub parse_u64 : Text → Option ℕ
parse_u64 s = in_u64 (parse_number s)

abbrev pub first_part : List Text → Text
first_part [] = []
first_part (x ∷ xs) = x

abbrev exceeds : Option ℕ → ℕ → Bool
exceeds none limit = false
exceeds (some n) limit = ltb limit n

abbrev length_header : Option Text → Option ℕ
length_header none = none
length_header (some v) = parse_u64 v

-- `str::from_utf8` and `url::form_urlencoded::parse`
pub record Forms : Type 0 where
  pub from_utf8 : List ℕ → Option Text
  pub pairs : Text → List (Text × Text)

unfoldable pub is_form_type : Headers → Bool
is_form_type header =
    eq_ignore_ascii_case
      (trim (first_part (split b';' (or_else (header (text "content-type")) []))))
      (text "application/x-www-form-urlencoded")

-- `none` is the error `invalid_request`; a body that cannot be read is `none`.
unfoldable pub read_form : Forms → Headers → Option (List ℕ) → Option (List (Text × Text))
read_form forms header none = none
read_form forms header (some body) =
    if not (is_form_type header)
      || exceeds (length_header (header (text "content-length"))) form_limit
      || ltb form_limit (length body)
    then none
    else elim (forms.from_utf8 body) [ none ↦ none | some t ↦ unique_fields 20 [] (forms.pairs t) ]

-- `crate::device::GRANT_TYPE`
abbrev pub device_grant_type : Text
device_grant_type = text "urn:ietf:params:oauth:grant-type:device_code"

pub data GrantType : Type 0 where
  authorization_code_grant device_grant refresh_grant_type other_grant : GrantType

unfoldable pub grant_type : List (Text × Text) → GrantType
grant_type fields =
    let v = get (text "grant_type") fields in
    if eq_option v (some (text "authorization_code"))
    then authorization_code_grant
    else if eq_option v (some device_grant_type)
    then device_grant
    else if eq_option v (some (text "refresh_token"))
    then refresh_grant_type
    else other_grant

unfoldable pub allowed_fields : GrantType → List Text
allowed_fields authorization_code_grant =
    text "grant_type"
    ∷ text "code"
    ∷ text "redirect_uri"
    ∷ text "code_verifier"
    ∷ text "client_id"
    ∷ text "client_assertion_type"
    ∷ text "client_assertion"
    ∷ []
allowed_fields device_grant =
    text "grant_type"
    ∷ text "device_code"
    ∷ text "client_id"
    ∷ text "client_assertion_type"
    ∷ text "client_assertion"
    ∷ []
allowed_fields refresh_grant_type =
    text "grant_type"
    ∷ text "refresh_token"
    ∷ text "client_id"
    ∷ text "client_assertion_type"
    ∷ text "client_assertion"
    ∷ []
allowed_fields other_grant = []

pub data TokenRefusal : Type 0 where
  unavailable malformed unexpected_parameter client_id_required client_failed unsupported_grant_type
        token_and_client_required :
      TokenRefusal

pub data TokenReply : Type 0 where
  declined : TokenRefusal → TokenReply
  answered : Reply → TokenReply

-- The error code and the status.
unfoldable pub token_problem : TokenRefusal → Text × ℕ
token_problem unavailable = (text "temporarily_unavailable", 503)
token_problem malformed = (text "invalid_request", 400)
token_problem unexpected_parameter = (text "invalid_request", 400)
token_problem client_id_required = (text "invalid_request", 400)
token_problem client_failed = (text "invalid_client", 401)
token_problem unsupported_grant_type = (text "unsupported_grant_type", 400)
token_problem token_and_client_required = (text "invalid_request", 400)

abbrev pub answer : Db × Reply → Db × TokenReply
answer (db, r) = (db, answered r)

module _ (crypto : Crypto) (jose : Jose) (env : Env) (signer : Signer) (draw : Draw)
    (clock : ℕ) where
  -- The grant, for an authenticated client.
  unfoldable pub dispatch :
      Issuance → OauthClient → GrantType → Db → List (Text × Text) → ℕ → Db × TokenReply
  dispatch i c authorization_code_grant db fields now =
      answer (exchange_code crypto env i signer c draw clock db fields now)
  dispatch i c device_grant db fields now =
      answer (exchange_device crypto env i signer c draw db fields now)
  dispatch i c refresh_grant_type db fields now =
      answer (exchange_refresh crypto env i signer c draw db fields now)
  dispatch i c other_grant db fields now = (db, declined unsupported_grant_type)

  unfoldable pub for_client : Issuance → Db → Option Text → List (Text × Text) → ℕ → Db × TokenReply
  for_client i db none fields now = (db, declined client_id_required)
  for_client i db (some client_id) fields now =
      elim (authenticate_client crypto jose db client_id fields i.issuer now) [
        | none ↦ (db, declined client_failed)
        | some (db', c) ↦ dispatch i c (grant_type fields) db' fields now
      ]

  abbrev pub has_unexpected : List (Text × Text) → Bool
  has_unexpected fields =
      let allowed = allowed_fields (grant_type fields) in
      ltb 0 (length allowed) && not (only_fields fields allowed)

  unfoldable pub token_fields : Issuance → Db → Option (List (Text × Text)) → ℕ → Db × TokenReply
  token_fields i db none now = (db, declined malformed)
  token_fields i db (some fields) now =
      if has_unexpected fields
      then (db, declined unexpected_parameter)
      else for_client i db (get (text "client_id") fields) fields now

  -- The form is what `read_form` makes of the request.
  unfoldable pub token : Db → Option (List (Text × Text)) → ℕ → Db × TokenReply
  token db form now = elim (issuance_config crypto jose env) [
    | none ↦ (db, declined unavailable)
    | some i ↦ token_fields i db form now
  ]

pub data RevocationReply : Type 0 where
  rejected : TokenRefusal → RevocationReply
  accepted broken : RevocationReply

abbrev revocation_fields : List Text
revocation_fields =
    text "token"
    ∷ text "token_type_hint"
    ∷ text "client_id"
    ∷ text "client_assertion_type"
    ∷ text "client_assertion"
    ∷ []

module _ (crypto : Crypto) (jose : Jose) (env : Env) where
  abbrev pub revoke_digest : Db → Text → Option Digest → ℕ → Db × RevocationReply
  revoke_digest db client_id none now = (db, broken)
  revoke_digest db client_id (some d) now = (revoke_by_refresh_digest db d client_id now, accepted)

  unfoldable pub revoke_for :
      Db → Option Text → Option Text → List (Text × Text) → ℕ → Db × RevocationReply
  revoke_for db (some client_id) (some wire) fields now =
      elim (authenticate_client crypto jose db client_id fields (issuer env) now) [
        | none ↦ (db, rejected client_failed)
        | some (db', c) ↦ revoke_digest db' client_id (refresh_digest crypto env wire) now
      ]
  revoke_for db _ _ fields now = (db, rejected token_and_client_required)

  unfoldable pub revoke : Db → Option (List (Text × Text)) → ℕ → Db × RevocationReply
  revoke db none now = (db, rejected malformed)
  revoke db (some fields) now =
      if not (only_fields fields revocation_fields)
      then (db, rejected unexpected_parameter)
      else revoke_for db (get (text "client_id") fields) (get (text "token") fields) fields now
