-- ===== src/Idempotency/Run/Tests.antt =====
-- Runs of the idempotency layer around a sample handler.
use moesegfault_indentity.Secret.{to_base64url, hmac, Crypto}
use moesegfault_indentity.Oauth.Issue.{peppered, parse_number, parse_digits}
use moesegfault_indentity.Guard.{
  Headers, Env, validate_transaction_secrets, validate_session_csrf, validate_browser_csrf,
  session_csrf_token, named_value, csrf_token_matches, cookie_in, account_origin, cookie,
  media_type_is, fetch_site_allowed, login_origin, configured_origin, allowed_origin_for,
  valid_idempotency_key,
}
use moesegfault_indentity.Idempotency.Operation.{as_str, content_type, update_self}
use moesegfault_indentity.Base.{
  List, ℕ, ◌+◌, ◌≡◌, refl, true, false, none, some, [], ◌∷◌, Option, ok, err, ltb, ◌++◌, arith,
  if◌then◌else◌, length, find,
}
use moesegfault_indentity.Base.Text.{
  text, eq_text, bytes, trim, to_ascii_lowercase, split_once, is_whitespace, trim_start_if,
  trim_end_if, split,
}
use moesegfault_indentity.Idempotency.{
  Codec, null, ReplaySnapshot, replayable, Response, no_body, capture, is_safe, Claim, begin,
  capture_body, capture_cookie, Record, new_record, is_claim, key_of,
}
use moesegfault_indentity.Idempotency.Claims.{is_execute, began, play}
use moesegfault_indentity.Idempotency.Hashing.{
  Incoming, session, request_frames, digest_request, max_request_bytes, too_large,
  is_declared_large, declared_length, frame, feed, caller_fingerprint, be_bytes,
}
use moesegfault_indentity.Idempotency.Hashing.Framing.{
  whole, frames_of, request_frames-injective, digest_request-whole,
}
use moesegfault_indentity.Idempotency.Run.{
  claiming, replay_answer, into_response, validate_browser_preclaim, validate_session_preclaim,
  validate_preclaim_boundary, enter,
}
use moesegfault_indentity.Idempotency.Run.Repeat.{Arrival, entry, run_at, run_once}
use moesegfault_indentity.Idempotency.Run.Again.{run_replays}
use moesegfault_indentity.Idempotency.Purge.{purge_expired, purge_expired-keeps}

abbrev plain : Crypto
plain = record {
  hmac_sha256 = λ k m. text "01234567890123456789012345678901";
  sha256 = λ m. text "abcdefghabcdefghabcdefghabcdefgh";
  encode = λ b. b;
  decode = λ b. some b;
}

abbrev deployment : Env
deployment = record { var = λ _. none; secret = λ _. some (text "pepper") }

abbrev headers : Headers
headers name =
    if eq_text name (text "origin")
    then some (text "https://login.moesegfault.dev")
    else if eq_text name (text "content-type")
    then some (text "application/merge-patch+json")
    else if eq_text name (text "x-moesegfault-csrf")
    then some (text "01234567890123456789012345678901")
    else if eq_text name (text "cookie")
    then some (text "__Host-identity_session=s")
    else if eq_text name (text "idempotency-key")
    then some (text "0123456789abcdef")
    else none

abbrev patch : Incoming
patch = record {
  method = text "PATCH";
  path = text "/v1/me";
  query = none;
  header = headers;
  chunks = some (text "{}") ∷ [];
}

abbrev arrival : Arrival
arrival = record {
  webauthn = [];
  recovery = [];
  id = none;
  operation = update_self;
  caller = session;
  request = patch;
}

abbrev snapshot : ReplaySnapshot
snapshot = record {
  status = 204;
  body = none;
  content_type = none;
  correlation_id = none;
  cors = false;
  retry_after = none;
  clears_session = false;
}

abbrev codec : Codec
codec = record {
  parse_json = λ t. some null;
  from_utf8 = λ b. none;
  print_snapshot = λ s. text "{}";
  parse_snapshot = λ t. some snapshot;
}

abbrev response : Response
response = record { status = 204; headers = λ name. none; body = no_body }

-- A handler that counts its runs.
abbrev count : ℕ → ℕ × Option Response
count n = (n + 1, some response)

abbrev claim : Claim
claim =
    (text "session:01234567890123456789012345678901", text "updateSelf", text "0123456789abcdef")

sample_entry :
    entry codec plain deployment arrival ≡ claiming claim (text "abcdefghabcdefghabcdefghabcdefgh")
unfolding enter key_of valid_idempotency_key bytes validate_preclaim_boundary allowed_origin_for
    configured_origin login_origin fetch_site_allowed content_type media_type_is split trim_end_if
    trim_start_if is_whitespace validate_session_preclaim cookie split_once account_origin cookie_in
    csrf_token_matches named_value session_csrf_token validate_browser_csrf validate_session_csrf
    validate_transaction_secrets be_bytes caller_fingerprint digest_request feed frame
    request_frames as_str validate_browser_preclaim parse_digits parse_number peppered hmac
    to_base64url
sample_entry = refl

sample_execute :
    is_execute (begin codec [] (text "r1") claim (text "abcdefghabcdefghabcdefghabcdefgh") 1000).1
    ≡ true
unfolding begin
sample_execute = refl

sample_safe : is_safe codec snapshot ≡ true
unfolding is_safe
sample_safe = refl

sample_capture : capture codec response replayable ≡ some snapshot
unfolding capture capture_cookie capture_body
sample_capture = refl

run_once_example :
    ((run_at codec plain deployment count replayable arrival [] 0 (text "r1") 1000 1001).0.1 ≡ 1)
    × ((run_at codec plain deployment count replayable arrival
          (play codec
            (run_at codec plain deployment count replayable arrival [] 0 (text "r1") 1000 1001).0.0
            ((1002, began (text "r2") claim (text "other")) ∷ []))
          1
          (text "r3")
          1003
          1004).0.1
        ≡ 1)
run_once_example =
    run_once codec plain deployment count count replayable replayable arrival arrival claim
      (text "abcdefghabcdefghabcdefghabcdefgh") (text "abcdefghabcdefghabcdefghabcdefgh") [] 0 1
      (text "r1") (text "r3") 1000 1001 ((1002, began (text "r2") claim (text "other")) ∷ []) 1003
      1004 sample_entry sample_entry sample_execute (omega arith, tt) (omega arith)

run_replays_example :
    (run_at codec plain deployment count replayable arrival
      (run_at codec plain deployment count replayable arrival [] 0 (text "r1") 1000 1001).0.0
      1
      (text "r3")
      1003
      1004).1
    ≡ replay_answer (into_response codec snapshot)
run_replays_example =
    run_replays codec plain deployment count replayable arrival arrival claim
      (text "abcdefghabcdefghabcdefghabcdefgh") [] 0 1 (text "r1") (text "r3") 1000 1001 1003 1004
      response snapshot sample_entry sample_entry sample_execute refl sample_capture (omega arith)
      refl refl sample_safe

-- One body in two chunks.
abbrev cut : Incoming
cut = record patch { chunks = some (text "{") ∷ some (text "}") ∷ [] }

sample_whole : whole cut.chunks ≡ some (text "{}")
unfolding whole
sample_whole = refl

digest_request-whole_example : digest_request plain cut ≡ (
    if is_declared_large (declared_length (cut.header (text "content-length")))
    then err too_large
    else if ltb max_request_bytes (length (text "{}"))
    then err too_large
    else ok (plain.sha256 (frames_of cut ++ text "{}")))
digest_request-whole_example = digest_request-whole plain cut (text "{}") sample_whole

request_frames-injective_example :
    (bytes (text "PUT") ≡ bytes (text "PUT"))
    × (bytes (text "/v1/me") ≡ bytes (text "/v1/me"))
    × (bytes (to_ascii_lowercase (trim (text "Text/Plain")))
        ≡ bytes (to_ascii_lowercase (trim (text "text/plain"))))
    × (text "b" ≡ text "b")
unfolding request_frames bytes trim_end_if trim_start_if is_whitespace
request_frames-injective_example =
    request_frames-injective (text "PUT") (text "PUT") (text "/v1/me") (text "/v1/me")
      (text "Text/Plain") (text "text/plain") (text "b") (text "b") (omega arith) (omega arith)
      (omega arith) (omega arith) (omega arith) (omega arith) refl

-- A record in force, behind one that has expired.
abbrev live : Record
live = new_record (text "r2") claim (text "d") 90000

abbrev records : List Record
records = new_record (text "r1") (text "b", text "o", text "k") (text "d") 1000 ∷ live ∷ []

purge_expired-keeps_example : find (is_claim claim) (purge_expired records 100000 10).0 ≡ some live
purge_expired-keeps_example = purge_expired-keeps records claim live 100000 10 refl refl
