-- ===== src/Idempotency.antt =====
-- crates/identity-worker/src/idempotency.rs: claims of a mutation by its key, and the replay of its
-- response. The JSON codec of `serde_json` and the decoding of UTF-8 are the fields of `Codec`.
pub mod Operation
pub mod Claims
pub mod Hashing
pub mod Replay
pub mod Run
pub mod Purge
pub mod Tests
use moesegfault_indentity.Base.{
  ℕ, ◌+◌, Bool, true, false, not, ◌&&◌, ◌||◌, Option, none, some, List, [], ◌∷◌, ◌++◌, any, find,
  keep, take, ltb, leb, ◌==◌, min, max, in_range, length, if◌then◌else◌, Result, ok, err, is_some,
}
use moesegfault_indentity.Base.Text.{
  Text, text, eq_text, mem_text, byte_len, split, trim, is_ascii_digit,
}
use moesegfault_indentity.Base.Json.{
  Json, null, boolean, number, string, array, object, Elements, done, element, Members, closed,
  member,
}
use moesegfault_indentity.Secret.{Digest, ct_eq}
use moesegfault_indentity.Store.Sql.{update, delete, order_by}
use moesegfault_indentity.Guard.{Headers, clear_session_cookie, valid_idempotency_key}
use moesegfault_indentity.Oauth.Issue.{parse_number}

abbrev pub secret_names : List Text
secret_names =
    text "access_token"
    ∷ text "authorization_uri"
    ∷ text "csrf_token"
    ∷ text "id_token"
    ∷ text "recovery_code"
    ∷ text "recovery_codes"
    ∷ text "refresh_token"
    ∷ text "token"
    ∷ []

unfoldable mutual
  pub contains_secret_field : Json → Bool
  contains_secret_field null = false
  contains_secret_field (boolean b) = false
  contains_secret_field (number n) = false
  contains_secret_field (string s) = false
  contains_secret_field (array es) = any_secret es
  contains_secret_field (object ms) = member_secret ms

  pub any_secret : Elements → Bool
  any_secret done = false
  any_secret (element v es) = contains_secret_field v || any_secret es

  pub member_secret : Members → Bool
  member_secret closed = false
  member_secret (member k v ms) =
      any (eq_text k) secret_names || contains_secret_field v || member_secret ms

pub data ReplayPolicy : Type 0 where
  replayable secret_result : ReplayPolicy

pub record ReplaySnapshot : Type 0 where
  pub status : ℕ
  pub body : Option Text
  pub content_type : Option Text
  pub correlation_id : Option Text
  pub cors : Bool
  pub retry_after : Option ℕ
  pub clears_session : Bool

pub record Codec : Type 0 where
  pub parse_json : Text → Option Json
  pub from_utf8 : List ℕ → Option Text
  pub print_snapshot : ReplaySnapshot → Text
  pub parse_snapshot : Text → Option ReplaySnapshot

pub data ResponseBody : Type 0 where
  no_body stream : ResponseBody
  bytes_body : List ℕ → ResponseBody

pub record Response : Type 0 where
  pub status : ℕ
  pub headers : Headers
  pub body : ResponseBody

abbrev pub max_replay_body_bytes : ℕ
max_replay_body_bytes = 65536

abbrev first_of : List Text → Text
first_of [] = []
first_of (x ∷ xs) = x

unfoldable pub is_json_content_type : Text → Bool
is_json_content_type value =
    let media = trim (first_of (split b';' value)) in
    eq_text media (text "application/json") || eq_text media (text "application/problem+json")

module _ (codec : Codec) where
  -- no secret field in a body that is JSON
  unfoldable pub has_safe_json : Text → Bool
  has_safe_json body = elim (codec.parse_json body) [
    | none ↦ false
    | some v ↦ not (contains_secret_field v)
  ]

  -- `none` when the body may not be stored, and `some none` when there is none.
  unfoldable pub capture_body : ResponseBody → Option (Option Text)
  capture_body no_body = some none
  capture_body stream = none
  capture_body (bytes_body b) =
      if ltb max_replay_body_bytes (length b) then none else elim (codec.from_utf8 b) [
        | none ↦ none
        | some t ↦ if has_safe_json t then some (some t) else none
      ]

  -- whether the session cookie is cleared; another cookie forbids the replay
  unfoldable pub capture_cookie : Option Text → Option Bool
  capture_cookie none = some false
  capture_cookie (some v) = if eq_text v clear_session_cookie then some true else none

  abbrev pub json_type : Option Text → Option Text
  json_type none = none
  json_type (some v) = if is_json_content_type v then some v else none

  abbrev small_number : Option ℕ → Option ℕ
  small_number none = none
  small_number (some n) = if ltb n 4294967296 then some n else none

  abbrev parsed : Option Text → Option ℕ
  parsed none = none
  parsed (some v) = small_number (parse_number v)

  abbrev pub snapshot_of : Response → Option Text → Bool → ReplaySnapshot
  snapshot_of r body clears = record {
    status = r.status;
    body = body;
    content_type = json_type (r.headers (text "content-type"));
    correlation_id = r.headers (text "x-moesegfault-correlation-id");
    cors = is_some (r.headers (text "access-control-allow-origin"));
    retry_after = parsed (r.headers (text "retry-after"));
    clears_session = clears;
  }

  abbrev pub is_secret_success : ReplayPolicy → ℕ → Bool
  is_secret_success replayable status = false
  is_secret_success secret_result status = ltb status 400

  unfoldable pub capture : Response → ReplayPolicy → Option ReplaySnapshot
  capture r policy =
      if is_secret_success policy r.status
      then none
      else elim (capture_cookie (r.headers (text "set-cookie"))) [
        | none ↦ none
        | some clears ↦ elim (capture_body r.body) [
          | none ↦ none
          | some body ↦
              if is_some body && not (is_some (json_type (r.headers (text "content-type"))))
              then none
              else some (snapshot_of r body clears)
        ]
      ]

  abbrev pub is_safe_body : Option Text → Bool
  is_safe_body none = true
  is_safe_body (some b) = not (ltb max_replay_body_bytes (byte_len b)) && has_safe_json b

  abbrev pub is_safe_type : Option Text → Option Text → Bool
  is_safe_type none t = true
  is_safe_type (some b) none = false
  is_safe_type (some b) (some t) = is_json_content_type t

  abbrev pub is_safe_wait : Option ℕ → Bool
  is_safe_wait none = true
  is_safe_wait (some s) = leb s 86400

  unfoldable pub is_safe : ReplaySnapshot → Bool
  is_safe s =
      in_range 200 599 s.status
      && is_safe_body s.body
      && is_safe_type s.body s.content_type
      && is_safe_wait s.retry_after

pub data KeyError : Type 0 where
  missing invalid : KeyError

-- `IdempotencyKey::from_request`
unfoldable pub key_of : Option Text → Result KeyError Text
key_of none = err missing
key_of (some v) = if valid_idempotency_key v then ok v else err invalid

pub data RecordState : Type 0 where
  processing completed failed : RecordState

-- `idempotency_records`
pub record Record : Type 0 where
  pub record_id : Text
  pub caller : Text
  pub operation : Text
  pub key : Text
  pub request_digest : Digest
  pub state : RecordState
  pub response_status : Option ℕ
  pub metadata : Option Text
  pub result_reference : Option Text
  pub created_at : ℕ
  pub expires_at : ℕ
  pub completed_at : Option ℕ

pub record Lease : Type 0 where
  pub record_id : Text
  pub request_digest : Digest

pub data Gate : Type 0 where
  execute : Lease → Gate
  replay : ReplaySnapshot → Gate
  conflict in_progress result_unavailable : Gate

pub data WorkerError : Type 0 where
  not_reclaimed lost_ownership : WorkerError

-- The caller, the operation and the key, which are unique together.
abbrev pub Claim : Type 0
Claim = Text × Text × Text

abbrev pub is_claim : Claim → Record → Bool
is_claim c r = eq_text r.caller c.0 && eq_text r.operation c.1 && eq_text r.key c.2

abbrev pub ttl_seconds : ℕ
ttl_seconds = 86400

abbrev pub new_record : Text → Claim → Digest → ℕ → Record
new_record record_id c digest now = record {
  record_id = record_id;
  caller = c.0;
  operation = c.1;
  key = c.2;
  request_digest = digest;
  state = processing;
  response_status = none;
  metadata = none;
  result_reference = none;
  created_at = now;
  expires_at = now + ttl_seconds;
  completed_at = none;
}

unfoldable pub valid_status : ℕ → Option ℕ
valid_status value = if in_range 200 599 value then some value else none

module _ (codec : Codec) where
  abbrev replay_of : Option ℕ → Option ReplaySnapshot → Gate
  replay_of (some status) (some s) =
      if s.status == status && is_safe codec s then replay s else result_unavailable
  replay_of _ _ = result_unavailable

  abbrev valid_of : Option ℕ → Option ℕ
  valid_of none = none
  valid_of (some v) = valid_status v

  abbrev stored_snapshot : Option Text → Option ReplaySnapshot
  stored_snapshot none = none
  stored_snapshot (some m) = codec.parse_snapshot m

  abbrev answer : RecordState → Option ℕ → Option Text → Gate
  answer processing status metadata = in_progress
  answer completed status metadata = replay_of (valid_of status) (stored_snapshot metadata)
  answer failed status metadata = replay_of (valid_of status) (stored_snapshot metadata)

  unfoldable pub decide_record : Record → Digest → ℕ → Result WorkerError Gate
  decide_record row digest now =
      if leb row.expires_at now
      then err not_reclaimed
      else if not (length row.request_digest == 32) || not (ct_eq row.request_digest digest)
      then ok conflict
      else ok (answer row.state row.response_status row.metadata)

  -- The UPSERT, and what the row that is there decides if it claims nothing.
  unfoldable pub begin :
      List Record → Text → Claim → Digest → ℕ → List Record × Result WorkerError Gate
  begin rows record_id c digest now =
      let fresh = new_record record_id c digest now in
      let lease : Lease = record { record_id = record_id; request_digest = digest } in
      elim (find (is_claim c) rows) [
        | none ↦ (rows ++ fresh ∷ [], ok (execute lease))
        | some r ↦
            if leb r.expires_at now
            then (
              update (λ x. is_claim c x && leb x.expires_at now) (λ x. fresh) rows,
              ok (execute lease),
            )
            else (rows, decide_record r digest now)
      ]

  abbrev is_processing : RecordState → Bool
  is_processing processing = true
  is_processing _ = false

  unfoldable pub owns : Lease → Record → Bool
  owns lease r =
      eq_text r.record_id lease.record_id
      && ct_eq r.request_digest lease.request_digest
      && is_processing r.state

  abbrev printed : Option ReplaySnapshot → Option Text
  printed none = none
  printed (some s) = some (codec.print_snapshot s)

  abbrev reference : Option ReplaySnapshot → Option Text
  reference none = some (text "unavailable")
  reference (some s) = none

  unfoldable pub finished : ℕ → Option ReplaySnapshot → ℕ → Record → Record
  finished status snapshot now r = record r {
    state = if leb 400 status then failed else completed;
    response_status = some status;
    metadata = printed snapshot;
    result_reference = reference snapshot;
    completed_at = some now;
  }

  unfoldable pub finish :
      List Record
      → Lease
      → ℕ
      → Option ReplaySnapshot
      → ℕ
      → List Record × Result WorkerError (Unit {0})
  finish rows lease status snapshot now = (
    update (owns lease) (finished status snapshot now) rows,
    if length (keep (owns lease) rows) == 1 then ok tt else err lost_ownership,
  )
