-- ===== src/Idempotency/Run.antt =====
-- crates/identity-worker/src/idempotency.rs: `run`, which wraps a handler, and what it checks before it claims.
-- Of crates/identity-worker/src/repository.rs, the columns of a ceremony that these checks read. The tables
-- that the wrapped handler changes are of any type; its time and the new record's identifier are arguments.
pub mod Again
pub mod Repeat
pub mod Tests
use moesegfault_indentity.Base.{
  ℕ, Bool, true, false, not, ◌&&◌, ◌||◌, Option, none, some, List, [], ◌∷◌, find, if◌then◌else◌,
  Result, ok, err, is_some,
}
use moesegfault_indentity.Base.Text.{Text, text, eq_text, bytes}
use moesegfault_indentity.Base.Text.Decimal.{decimal}
use moesegfault_indentity.Secret.{Crypto, Digest}
use moesegfault_indentity.Guard.{
  Headers, Env, OriginScope, login_only, paired_frontends, allowed_origin_for, fetch_site_allowed,
  media_type_is, or_else, cookie, session_cookie_name, clear_session_cookie, validate_session_csrf,
  validate_browser_csrf, validate_transaction_secrets, GuardError,
}
use moesegfault_indentity.Idempotency.{
  Codec, ReplaySnapshot, ReplayPolicy, Response, ResponseBody, no_body, bytes_body, capture,
  is_safe, is_json_content_type, key_of, KeyError, missing, invalid, Record, Lease, Gate, execute,
  replay, conflict, in_progress, result_unavailable, WorkerError, Claim, begin, finish,
}
use moesegfault_indentity.Idempotency.Operation.{
  Operation, as_str, content_type, complete_registration_transaction,
  complete_authentication_transaction, complete_recovery_transaction,
}
use moesegfault_indentity.Idempotency.Hashing.{
  DigestError, too_large, unreadable, Incoming, digest_request, Caller, browser, session,
  caller_fingerprint,
}

pub record WebauthnTransaction : Type 0 where
  pub transaction_id : Text
  pub kind : Text
  pub browser_binding_digest : Digest
  pub csrf_digest : Digest

pub record RecoveryTransaction : Type 0 where
  pub transaction_id : Text
  pub browser_binding_digest : Digest
  pub csrf_digest : Digest

pub record Problem : Type 0 where
  pub code : Text
  pub title : Text
  pub status : ℕ

abbrev invalid_request : Text → ℕ → Problem
invalid_request title status = record {
  code = text "invalid_request";
  title = title;
  status = status;
}

abbrev csrf_failed : Problem
csrf_failed = invalid_request (text "CSRF validation failed") 403

pub data Boundary : Type 0 where
  ready defer_to_handler : Boundary
  respond : Problem → Boundary

-- An error of the platform.
pub data Fault : Type 0 where
  missing_secret unreadable_body unsafe_snapshot handler_failed : Fault
  database : WorkerError → Fault

abbrev scope_of : Caller → OriginScope
scope_of browser = login_only
scope_of session = paired_frontends

abbrev passes : Result GuardError (Unit {0}) → Bool
passes (ok u) = true
passes (err e) = false

abbrev settled : Bool → Boundary
settled true = ready
settled false = respond csrf_failed

abbrev is_typed : Option Text → Headers → Bool
is_typed none header = true
is_typed (some expected) header =
    media_type_is expected (or_else (header (text "content-type")) (text ""))

module _ (crypto : Crypto) (env : Env) (header : Headers) where
  unfoldable pub validate_session_preclaim : Result Fault Boundary
  validate_session_preclaim = elim (cookie header session_cookie_name) [
    | none ↦ ok defer_to_handler
    | some wire ↦ elim (env.secret (text "CSRF_PEPPER")) [
      | none ↦ err missing_secret
      | some pepper ↦ ok (settled (validate_session_csrf crypto header wire (bytes pepper)))
    ]
  ]

  abbrev checked : Digest → Digest → Text → Boundary
  checked csrf binding pepper =
      settled (passes (validate_transaction_secrets crypto header csrf binding (bytes pepper)))

  abbrev needs_session : Text → Bool
  needs_session kind = eq_text kind (text "authenticator_addition") || eq_text kind (text "step_up")

  abbrev webauthn_row : Text → Option WebauthnTransaction → Boundary
  webauthn_row pepper none = defer_to_handler
  webauthn_row pepper (some t) =
      if needs_session t.kind && not (is_some (cookie header session_cookie_name))
      then defer_to_handler
      else checked t.csrf_digest t.browser_binding_digest pepper

  abbrev recovery_row : Text → Option RecoveryTransaction → Boundary
  recovery_row pepper none = defer_to_handler
  recovery_row pepper (some t) = checked t.csrf_digest t.browser_binding_digest pepper

  module _ (webauthn : List WebauthnTransaction) (recovery : List RecoveryTransaction)
      (id : Option Text) where
    abbrev webauthn_preclaim : Text → Option Text → Boundary
    webauthn_preclaim pepper none = defer_to_handler
    webauthn_preclaim pepper (some i) =
        webauthn_row pepper (find (λ t. eq_text t.transaction_id i) webauthn)

    abbrev recovery_preclaim : Text → Option Text → Boundary
    recovery_preclaim pepper none = defer_to_handler
    recovery_preclaim pepper (some i) =
        recovery_row pepper (find (λ t. eq_text t.transaction_id i) recovery)

    abbrev browser_csrf : Option Text → Result Fault Boundary
    browser_csrf none = err missing_secret
    browser_csrf (some pepper) = ok (settled (validate_browser_csrf crypto header (bytes pepper)))

    abbrev ceremony : Text → Operation → Result Fault Boundary
    ceremony pepper complete_registration_transaction = ok (webauthn_preclaim pepper id)
    ceremony pepper complete_authentication_transaction = ok (webauthn_preclaim pepper id)
    ceremony pepper complete_recovery_transaction = ok (recovery_preclaim pepper id)
    ceremony pepper _ = browser_csrf (env.secret (text "CSRF_PEPPER"))

    unfoldable pub validate_browser_preclaim : Operation → Result Fault Boundary
    validate_browser_preclaim operation = elim (env.secret (text "TRANSACTION_PEPPER")) [
      | none ↦ err missing_secret
      | some pepper ↦ ceremony pepper operation
    ]

    abbrev preclaim : Operation → Caller → Result Fault Boundary
    preclaim operation session = validate_session_preclaim
    preclaim operation browser = validate_browser_preclaim operation

    unfoldable pub validate_preclaim_boundary : Operation → Caller → Result Fault Boundary
    validate_preclaim_boundary operation caller =
        if not (is_some (allowed_origin_for env (header (text "origin")) (scope_of caller)))
        then ok (respond (invalid_request (text "Origin is not allowed") 403))
        else if not (fetch_site_allowed (header (text "sec-fetch-site")))
        then ok (respond (invalid_request (text "Invalid browser request context") 403))
        else if not (is_typed (content_type operation) header)
        then ok (respond (invalid_request (text "JSON content type is required") 415))
        else if not (is_some (header (text "x-moesegfault-csrf")))
        then ok (respond csrf_failed)
        else preclaim operation caller

pub data Answer : Type 0 where
  served : Response → Answer
  problem : Problem → Answer
  -- a problem with a Retry-After header, in seconds
  problem_after : Problem → ℕ → Answer
  failed : Fault → Answer

-- What stands before the claim: an answer, the handler without a claim, or the claim that is made.
pub data Entry : Type 0 where
  answered : Answer → Entry
  deferred : Entry
  claiming : Claim → Digest → Entry

abbrev key_problem : KeyError → Problem
key_problem missing = invalid_request (text "Idempotency-Key is required") 400
key_problem invalid = invalid_request (text "Invalid Idempotency-Key") 400

abbrev digest_answer : DigestError → Answer
digest_answer too_large = problem (invalid_request (text "Request body is too large") 413)
digest_answer unreadable = failed unreadable_body

abbrev header_value : Bool → Text → Option Text
header_value true v = some v
header_value false v = none

abbrev printed : Option ℕ → Option Text
printed none = none
printed (some n) = some (decimal n)

abbrev body_of : Option Text → ResponseBody
body_of none = no_body
body_of (some b) = bytes_body (bytes b)

abbrev is_typed_json : Option Text → Bool
is_typed_json none = true
is_typed_json (some t) = is_json_content_type t

abbrev replay_headers : ReplaySnapshot → Headers
replay_headers s name =
    if eq_text name (text "content-type")
    then s.content_type
    else if eq_text name (text "cache-control")
    then some (text "no-store")
    else if eq_text name (text "x-content-type-options")
    then some (text "nosniff")
    else if eq_text name (text "x-moesegfault-correlation-id")
    then s.correlation_id
    else if eq_text name (text "retry-after")
    then printed s.retry_after
    else if eq_text name (text "set-cookie")
    then header_value s.clears_session clear_session_cookie
    else none

unfoldable pub into_response : Codec → ReplaySnapshot → Option Response
into_response codec s =
    if is_safe codec s && is_typed_json s.content_type
    then some (record { status = s.status; headers = replay_headers s; body = body_of s.body })
    else none

abbrev replay_answer : Option Response → Answer
replay_answer none = failed unsafe_snapshot
replay_answer (some r) = served r

module _ (codec : Codec) (crypto : Crypto) (env : Env) (webauthn : List WebauthnTransaction)
    (recovery : List RecoveryTransaction) (id : Option Text) (operation : Operation)
    (caller : Caller) (r : Incoming) where
  abbrev fingerprinted : Text → Digest → Option (Option Text) → Entry
  fingerprinted key d none = answered (failed missing_secret)
  fingerprinted key d (some none) = deferred
  fingerprinted key d (some (some print)) = claiming (print, as_str operation, key) d

  abbrev digested : Text → Result DigestError Digest → Entry
  digested key (err e) = answered (digest_answer e)
  digested key (ok d) = fingerprinted key d (caller_fingerprint crypto env r.header caller)

  abbrev bounded : Text → Result Fault Boundary → Entry
  bounded key (err e) = answered (failed e)
  bounded key (ok (respond p)) = answered (problem p)
  bounded key (ok defer_to_handler) = deferred
  bounded key (ok ready) = digested key (digest_request crypto r)

  abbrev keyed : Result KeyError Text → Entry
  keyed (err e) = answered (problem (key_problem e))
  keyed (ok key) =
      bounded key
        (validate_preclaim_boundary crypto env r.header webauthn recovery id operation caller)

  -- `run` up to the claim
  unfoldable pub enter : Entry
  enter = keyed (key_of (r.header (text "idempotency-key")))

  module _ {ℓ} {S : Type ℓ} (handler : S → S × Option Response) (policy : ReplayPolicy) where
    abbrev serve : S × Option Response → S × Answer
    serve (s, none) = (s, failed handler_failed)
    serve (s, some response) = (s, served response)

    -- A completion that fails is only logged.
    abbrev complete : List Record → Lease → ℕ → Option Response → List Record
    complete rows lease now none = (finish codec rows lease 500 none now).0
    complete rows lease now (some response) =
        (finish codec rows lease response.status (capture codec response policy) now).0

    unfoldable pub after_gate :
        List Record → S → ℕ → Result WorkerError Gate → (List Record × S) × Answer
    after_gate rows s done (err e) = ((rows, s), failed (database e))
    after_gate rows s done (ok (execute lease)) =
        let out = handler s in
        let (s', answer) = serve out in ((complete rows lease done out.1, s'), answer)
    after_gate rows s done (ok (replay snapshot)) =
        ((rows, s), replay_answer (into_response codec snapshot))
    after_gate rows s done (ok conflict) = (
      (rows, s),
      problem (record {
        code = text "idempotency_conflict";
        title = text "Idempotency key was used for a different request";
        status = 409;
      }),
    )
    after_gate rows s done (ok in_progress) = (
      (rows, s),
      problem_after
          (record {
            code = text "idempotency_in_progress";
            title = text "The original request is still processing";
            status = 409;
          })
          1,
    )
    after_gate rows s done (ok result_unavailable) = (
      (rows, s),
      problem (record {
        code = text "idempotency_result_unavailable";
        title = text "The one-time result cannot be replayed";
        status = 409;
      }),
    )

    -- With the new record's identifier, the time of the claim and the time of the completion.
    abbrev entered : List Record → S → Text → ℕ → ℕ → Entry → (List Record × S) × Answer
    entered rows s record_id now done (answered a) = ((rows, s), a)
    entered rows s record_id now done deferred = let (s', a) = serve (handler s) in ((rows, s'), a)
    entered rows s record_id now done (claiming c d) =
        let (rows', gate) = begin codec rows record_id c d now in after_gate rows' s done gate

    unfoldable pub run : List Record → S → Text → ℕ → ℕ → (List Record × S) × Answer
    run rows s record_id now done = entered rows s record_id now done enter
