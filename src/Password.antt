-- ===== src/Password.antt =====
-- crates/identity-worker/src/password.rs: the throttle of password authentication.
pub mod Throttle
pub mod Tests
use moesegfault_indentity.Base.{
  ℕ, ◌+◌, ◌-◌, ◌^◌, Bool, true, false, ◌&&◌, ◌||◌, Option, none, some, List, [], ◌∷◌, ◌++◌, any,
  find, keep, take, ltb, leb, min, max, if◌then◌else◌,
}
use moesegfault_indentity.Base.Text.{Text, text, eq_text, bytes}
use moesegfault_indentity.Secret.{Crypto, Digest, ct_eq, hmac}
use moesegfault_indentity.Store.Sql.{update, delete, order_by}
use moesegfault_indentity.Policy.{LoginIdentifier, kind_name}
use moesegfault_indentity.Guard.{Env}

-- `password_auth_attempts`
pub record PasswordAttempt : Type 0 where
  pub bucket_digest : Digest
  pub attempt_count : ℕ
  pub last_attempt_at : ℕ
  pub next_allowed_at : ℕ
  pub expires_at : ℕ

abbrev pub attempt_ttl_seconds : ℕ
attempt_ttl_seconds = 86400

-- The principal of a known alias, or else what was typed.
unfoldable pub password_attempt_scope : Option Text → Option LoginIdentifier → Text → Text
password_attempt_scope (some principal_id) normalized raw_login =
    text "password-auth:principal:" ++ principal_id
password_attempt_scope none (some login) raw_login =
    text "password-auth:unknown:" ++ kind_name login.kind ++ b':' ∷ login.value
password_attempt_scope none none raw_login = text "password-auth:invalid:" ++ raw_login

-- `none` when the pepper is missing.
unfoldable pub password_attempt_bucket :
    Crypto → Env → Option Text → Option LoginIdentifier → Text → Option Digest
password_attempt_bucket c env identity normalized raw_login =
    elim (env.secret (text "SESSION_PEPPER")) [
      | none ↦ none
      | some pepper ↦
          some
            (hmac c (bytes pepper) (bytes (password_attempt_scope identity normalized raw_login)))
    ]

-- the WHERE clause of the UPSERT
unfoldable pub may_attempt : ℕ → PasswordAttempt → Bool
may_attempt now r = leb r.expires_at now || (ltb r.attempt_count 100 && leb r.next_allowed_at now)

-- `min(3600, 1 << min(12, attempt_count-4))`
unfoldable pub backoff : ℕ → ℕ
backoff count = min 3600 (2 ^ min 12 (count - 4))

-- its SET clause
unfoldable pub attempted : ℕ → PasswordAttempt → PasswordAttempt
attempted now r = record r {
  attempt_count = if leb r.expires_at now then 1 else r.attempt_count + 1;
  last_attempt_at = now;
  next_allowed_at =
      if leb r.expires_at now || ltb r.attempt_count 4 then now else now + backoff r.attempt_count;
  expires_at = now + attempt_ttl_seconds;
}

abbrev pub first_attempt : Digest → ℕ → PasswordAttempt
first_attempt bucket now = record {
  bucket_digest = bucket;
  attempt_count = 1;
  last_attempt_at = now;
  next_allowed_at = now;
  expires_at = now + attempt_ttl_seconds;
}

-- `PasswordAttemptWait::retry_after`; a negative difference is raised to 1 by its caller.
unfoldable pub retry_after : PasswordAttempt → ℕ → ℕ
retry_after r now = if leb 100 r.attempt_count then r.expires_at - now else r.next_allowed_at - now

abbrev pub is_bucket_row : Digest → PasswordAttempt → Bool
is_bucket_row bucket r = ct_eq r.bucket_digest bucket

-- `none` when the attempt is reserved, or else the seconds to wait.
unfoldable pub reserve_password_attempt :
    List PasswordAttempt → Digest → ℕ → List PasswordAttempt × Option ℕ
reserve_password_attempt rows bucket now = elim (find (is_bucket_row bucket) rows) [
  | none ↦ (rows ++ first_attempt bucket now ∷ [], none)
  | some r ↦
      if may_attempt now r
      then (update (λ a. is_bucket_row bucket a && may_attempt now a) (attempted now) rows, none)
      else (rows, some (max 1 (retry_after r now)))
]

unfoldable pub purge_expired_attempts : List PasswordAttempt → ℕ → ℕ → List PasswordAttempt
purge_expired_attempts rows now limit =
    let oldest =
      take (min limit 500) (order_by (λ r. r.expires_at) (keep (λ r. leb r.expires_at now) rows)) in
    delete (λ r. any (λ o. ct_eq o.bucket_digest r.bucket_digest) oldest) rows
