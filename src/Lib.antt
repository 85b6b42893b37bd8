-- ===== src/Lib.antt =====
-- moeSegFault Identity: a verification library for the Rust crates of the identity service.
--
-- The service is a Cloudflare worker over a D1 (SQLite) database. crates/identity-domain holds the pure
-- rules; crates/identity-worker holds the HTTP handlers and their statements. Policies and the guard
-- check a request before a handler runs; handlers read and write the tables by statements; a batch of
-- statements is one transaction.
--
--   Base        shared names: Boolean tests, lists, results, texts as lists of code points with the parts
--               of `str` that the code calls, decimal digits
--   Policy      crates/identity-domain/src/policy.rs: `normalize_username`, `validate_password`,
--               `normalize_email`, `normalize_mobile`, `LoginIdentifier::parse` (`parse_login`),
--               `validate_pkce_s256`, `redirect_uri_matches`
--   Principal   crates/identity-domain/src/model.rs: `transition`, `consumption_state`,
--               `ensure_may_revoke_authenticator` and the enumerations
--   Secret      crates/identity-domain/src/secret.rs: digests and their wire form
--   Session     of crates/identity-worker/src/repository.rs, the browser session: `current_session` and its
--               touch (Session/Touch)
--   Guard       crates/identity-worker/src/guard.rs: origins, cookies, CSRF, transaction secrets
--   Store       the D1 tables that OAuth uses, and statements as operations on lists of rows (Store/Sql)
--   Device      crates/identity-worker/src/device_repository.rs, one function per repository function
--               (Device/Repository), and of device.rs the user codes (Device/Codes) and the consent page's
--               handlers `lookup` and `decide` (Device/Handlers), and the handler `start` (Device/Start)
--   Oauth       crates/identity-worker/src/oauth_repository.rs and oauth.rs. Oauth/Refresh: refresh tokens;
--               Oauth/Issue: subjects and session claims; Oauth/Exchange: the device-code and refresh-token
--               grants; Oauth/Codes: authorization transactions and codes, with the consumption and its
--               triggers (Oauth/Codes/Consume) and `exchange_code` (Oauth/Codes/Exchange); Oauth/Jwt and
--               Oauth/Clients: claims of a JWT and client authentication; Oauth/Token: `token` and `revoke`;
--               Oauth/Authorize: `authorize` and `resume`; Oauth/Logout: `logout` and `userinfo`;
--               Oauth/Syntax: forms, scopes, verifiers and redirects
--   Password    crates/identity-worker/src/password.rs: the attempt throttle
--   Idempotency crates/identity-worker/src/idempotency.rs: claims by key (`begin`, `decide_record`,
--               `finish`), the snapshot that is replayed (`capture`, `is_safe`), the digest of a request
--               (Idempotency/Hashing), `run` around a handler (Idempotency/Run) and
--               `purge_expired` (Idempotency/Purge)
--
-- A table is a list of rows; enumerated text columns are data types; NULL is `none`; BLOB digests are lists
-- of bytes. `INSERT OR IGNORE`, guarded updates and EXISTS subqueries are written out; a batch that a
-- constraint makes fail is `none` and changes nothing. Times and counters are natural numbers: Unix seconds
-- are far below 2^63, so that no i64 of these modules wraps, and a subtraction stops at 0 only for times
-- before the epoch. Loops of the source are structural recursion over a list; none runs on fuel, except
-- printing a number in decimal, whose fuel is the number plus one.
--
-- Parameters of the model: HMAC, SHA-256 and base64url (`Crypto`), the JWT signer and the JSON syntax check
-- (`Signer`), the JSON and UTF-8 codecs (`Codec`), the URL parser, the deployment's variables and secrets
-- (`Env`), and what one request draws from the random source and the clock (`Draw`, `Readings`); the database's own
-- clock, which triggers read, is an argument `clock`. Random
-- identifiers are assumed new only where a theorem says so.
-- Comparison in constant time is equality.
--
-- Not modelled: discovery and the key set, network failures of D1, audit and console logging, the vendored WebAuthn library, the
-- handlers of account management, bindings and passkeys, mail delivery, and the TypeScript applications.
pub mod Base
pub mod Policy
pub mod Principal
pub mod Secret
pub mod Guard
pub mod Store
pub mod Device
pub mod Oauth
pub mod Password
pub mod Idempotency
pub mod Session
