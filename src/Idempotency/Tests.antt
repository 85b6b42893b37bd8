-- ===== src/Idempotency/Tests.antt =====
-- Runs of the idempotency layer on a sample claim.
use moesegfault_indentity.Oauth.Issue.{parse_number}
use moesegfault_indentity.Base.Text.{
  is_whitespace, split, trim_start_if, trim_end_if, eq_text, bytes, Text, text,
}
use moesegfault_indentity.Base.Text.Ascii.{is_ascii, bytes_of_ascii}
use moesegfault_indentity.Base.{
  ◌≡◌, refl, true, false, none, some, [], ok, arith, inr, ◌∙◌, sym, ap, inl, if◌then◌else◌, all,
  Bool-cases, ℕ, Option, List,
}
use moesegfault_indentity.Secret.{Digest}
use moesegfault_indentity.Idempotency.{
  Codec, null, ReplaySnapshot, replayable, Response, capture, is_safe, Claim, replay, begin, finish,
  capture_body, capture_cookie, is_json_content_type, contains_secret_field, has_safe_json, closed,
  boolean, member, clear_session_cookie, object, Json, Headers, bytes_body,
}
use moesegfault_indentity.Idempotency.Claims.{is_execute}
use moesegfault_indentity.Idempotency.Replay.{replay_lem, capture-is_safe}

abbrev plain_snapshot : ReplaySnapshot
plain_snapshot = record {
  status = 204;
  body = none;
  content_type = none;
  correlation_id = none;
  cors = false;
  retry_after = none;
  clears_session = false;
}

-- A codec that knows one snapshot.
abbrev codec : Codec
codec = record {
  parse_json = λ t. some null;
  from_utf8 = λ b. none;
  print_snapshot = λ s. text "{}";
  parse_snapshot = λ t. some plain_snapshot;
}

abbrev claim : Claim
claim = (text "browser:x", text "updateSelf", text "0123456789abcdef")

abbrev digest : Digest
digest = text "01234567890123456789012345678901"

sample_execute : is_execute (begin codec [] (text "r1") claim digest 1000).1 ≡ true
unfolding begin
sample_execute = refl

sample_safe : is_safe codec plain_snapshot ≡ true
unfolding is_safe
sample_safe = refl

replay_lem_example :
    (begin codec
      (finish codec
        (begin codec [] (text "r1") claim digest 1000).0
        (record { record_id = text "r1"; request_digest = digest })
        204
        (some plain_snapshot)
        1001).0
      (text "r2")
      claim
      digest
      1002).1
    ≡ ok (replay plain_snapshot)
replay_lem_example =
    replay_lem codec [] (text "r1") (text "r2") claim digest digest 1000 plain_snapshot 1001 1002
      sample_execute (omega arith) refl refl sample_safe

-- A codec that decodes ASCII, and parses one text.
abbrev plain_text : List ℕ
plain_text = text "{\"ok\":true}"

abbrev decode_ascii : List ℕ → Option Text
decode_ascii bs = if all is_ascii bs then some bs else none

abbrev parse_plain : Text → Option Json
parse_plain t =
    if eq_text t plain_text
    then some (object (member (text "ok") (boolean true) closed))
    else some (object (member (text "access_token") (boolean true) closed))

abbrev ascii_codec : Codec
ascii_codec = record {
  parse_json = parse_plain;
  from_utf8 = decode_ascii;
  print_snapshot = λ s. text "{}";
  parse_snapshot = λ t. some plain_snapshot;
}

decode_ascii-bytes : (bs : List ℕ) (x : Text) → decode_ascii bs ≡ some x → bytes x ≡ bs
decode_ascii-bytes bs x h = elim (Bool-cases (all is_ascii bs)) [
  | inl e ↦ let same : bs ≡ x = ground (arith, e) in ap bytes (sym same) ∙ bytes_of_ascii bs e
  | inr e ↦ absurd (ground (arith, e))
]

abbrev json_headers : Headers
json_headers name =
    if eq_text name (text "content-type")
    then some (text "application/json; charset=utf-8")
    else if eq_text name (text "retry-after")
    then some (text "5")
    else if eq_text name (text "set-cookie")
    then some clear_session_cookie
    else none

abbrev json_response : Response
json_response = record { status = 200; headers = json_headers; body = bytes_body plain_text }

abbrev json_snapshot : ReplaySnapshot
json_snapshot = record {
  status = 200;
  body = some plain_text;
  content_type = some (text "application/json; charset=utf-8");
  correlation_id = none;
  cors = false;
  retry_after = some 5;
  clears_session = true;
}

sample_capture : capture ascii_codec json_response replayable ≡ some json_snapshot
unfolding capture capture_cookie capture_body has_safe_json contains_secret_field
    is_json_content_type trim_end_if trim_start_if split is_whitespace parse_number
sample_capture = refl

-- A body with a secret field is not captured.
sample_secret :
    capture ascii_codec (record json_response { body = bytes_body (text "{}") }) replayable ≡ none
unfolding capture capture_cookie capture_body has_safe_json contains_secret_field
sample_secret = refl

capture-is_safe_example : is_safe ascii_codec json_snapshot ≡ true
capture-is_safe_example =
    capture-is_safe ascii_codec json_response replayable json_snapshot decode_ascii-bytes refl refl
      sample_capture
