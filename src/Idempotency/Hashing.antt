-- ===== src/Idempotency/Hashing.antt =====
-- crates/identity-worker/src/idempotency.rs: the digest of a request, and the fingerprint of its caller. A
-- body is the list of the chunks that the stream gives; a chunk that cannot be read is `none`. `usize` has 32
-- bits on the platform's WebAssembly.
pub mod Framing
use moesegfault_indentity.Base.{
  ℕ, zero, suc, ◌+◌, ◌/◌, ◌%◌, ◌^◌, Bool, true, false, Option, none, some, List, [], ◌∷◌, ◌++◌, ltb,
  length, if◌then◌else◌, Result, ok, err,
}
use moesegfault_indentity.Base.Text.{Text, text, bytes, trim, to_ascii_lowercase}
use moesegfault_indentity.Secret.{Crypto, Digest, to_base64url}
use moesegfault_indentity.Guard.{
  Headers, Env, cookie, session_cookie_name, browser_cookie_name, or_else,
}
use moesegfault_indentity.Oauth.Issue.{parse_number, peppered}

abbrev pub max_request_bytes : ℕ
max_request_bytes = 65536

-- `b"moesegfault-idempotency-request-v1\0"`
abbrev pub digest_domain : List ℕ
digest_domain = text "moesegfault-idempotency-request-v1" ++ 0 ∷ []

pub data DigestError : Type 0 where
  too_large unreadable : DigestError

-- The last `k` bytes of a number, the highest first.
unfoldable pub be_bytes : ℕ → ℕ → List ℕ
be_bytes zero n = []
be_bytes (suc k) n = be_bytes k (n / 256) ++ n % 256 ∷ []

-- `u64::to_be_bytes`
abbrev pub to_be_bytes : ℕ → List ℕ
to_be_bytes n = be_bytes 8 n

-- What `update_frame` feeds to the hasher.
unfoldable pub frame : List ℕ → List ℕ
frame value = to_be_bytes (length value) ++ value

-- What `request_hasher` has fed to the hasher.
unfoldable pub request_frames : (method resource content_type : Text) → List ℕ
request_frames method resource content_type =
    digest_domain
    ++ frame (bytes method)
    ++ frame (bytes resource)
    ++ frame (bytes (to_ascii_lowercase (trim content_type)))

-- The loop over the chunks, with what was fed so far and the count of the body's bytes.
unfoldable pub feed : List ℕ → ℕ → List (Option (List ℕ)) → Result DigestError (List ℕ)
feed fed total [] = ok fed
feed fed total (none ∷ chunks) = err unreadable
feed fed total (some c ∷ chunks) =
    let rest = feed (fed ++ c) (total + length c) chunks in
    if ltb max_request_bytes (total + length c) then err too_large else rest

abbrev in_usize : Option ℕ → Option ℕ
in_usize none = none
in_usize (some n) = if ltb n 4294967296 then some n else none

abbrev pub declared_length : Option Text → Option ℕ
declared_length none = none
declared_length (some v) = in_usize (parse_number v)

abbrev pub is_declared_large : Option ℕ → Bool
is_declared_large none = false
is_declared_large (some n) = ltb max_request_bytes n

-- `url.path()`, with the query if there is one
abbrev pub resource_of : Text → Option Text → Text
resource_of path none = path
resource_of path (some query) = path ++ b'?' ∷ query

-- What is read of a request.
pub record Incoming : Type 0 where
  pub method : Text
  pub path : Text
  pub query : Option Text
  pub header : Headers
  pub chunks : List (Option (List ℕ))

abbrev pub hashed : Crypto → Result DigestError (List ℕ) → Result DigestError Digest
hashed crypto (ok fed) = ok (crypto.sha256 fed)
hashed crypto (err e) = err e

unfoldable pub digest_request : Crypto → Incoming → Result DigestError Digest
digest_request crypto r =
    if is_declared_large (declared_length (r.header (text "content-length")))
    then err too_large
    else hashed crypto (
        feed
          (request_frames r.method (resource_of r.path r.query)
            (or_else (r.header (text "content-type")) []))
          0 r.chunks)

pub data Caller : Type 0 where
  browser session : Caller

abbrev caller_cookie : Caller → Text
caller_cookie browser = browser_cookie_name
caller_cookie session = session_cookie_name

abbrev caller_pepper : Caller → Text
caller_pepper browser = text "TRANSACTION_PEPPER"
caller_pepper session = text "SESSION_PEPPER"

abbrev pub caller_prefix : Caller → Text
caller_prefix browser = text "browser"
caller_prefix session = text "session"

module _ (crypto : Crypto) (env : Env) (header : Headers) where
  abbrev pub print_fingerprint : Caller → Option Digest → Option (Option Text)
  print_fingerprint caller none = none
  print_fingerprint caller (some d) =
      some (some (caller_prefix caller ++ b':' ∷ to_base64url crypto d))

  abbrev pub fingerprint_of : Caller → Option Text → Option (Option Text)
  fingerprint_of caller none = some none
  fingerprint_of caller (some wire) = print_fingerprint caller (
      peppered crypto env (caller_pepper caller)
        (bytes (text "idempotency/" ++ caller_prefix caller ++ b'/' ∷ wire)))

  -- `none` when the pepper is missing; `some none` when the cookie is.
  unfoldable pub caller_fingerprint : Caller → Option (Option Text)
  caller_fingerprint caller = fingerprint_of caller (cookie header (caller_cookie caller))
