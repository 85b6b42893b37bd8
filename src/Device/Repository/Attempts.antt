-- ===== src/Device/Repository/Attempts.antt =====
-- crates/identity-worker/src/device_repository.rs: reserve_attempt and purge_expired.
use moesegfault_indentity.Base.{
  ℕ, ◌+◌, ◌-◌, ◌*◌, ◌/◌, Bool, true, false, ◌&&◌, none, some, List, [], ◌∷◌, ◌++◌, ltb, leb, ◌==◌,
  if◌then◌else◌, take, any, find, keep,
}
use moesegfault_indentity.Base.Text.{eq_text}
use moesegfault_indentity.Secret.{Digest, ct_eq}
use moesegfault_indentity.Store.{DeviceAttempt, Db}
use moesegfault_indentity.Store.Sql.{update, delete, order_by}

-- `INSERT ... ON CONFLICT(bucket_digest,bucket_start) DO UPDATE ... WHERE attempt_count<limit`
unfoldable pub is_bucket : Digest → ℕ → DeviceAttempt → Bool
is_bucket bucket start a = ct_eq a.bucket_digest bucket && a.bucket_start == start

unfoldable pub count_attempt : List DeviceAttempt → Digest → ℕ → ℕ → List DeviceAttempt × Bool
count_attempt rows bucket start limit = elim (find (is_bucket bucket start) rows) [
  | none ↦ (
    rows ++ record { bucket_digest = bucket; bucket_start = start; attempt_count = 1 } ∷ [],
    true,
  )
  | some a ↦
      if ltb a.attempt_count limit
      then (
        update (is_bucket bucket start) (λ r. record r { attempt_count = r.attempt_count + 1 })
            rows,
        true,
      )
      else (rows, false)
]

unfoldable pub reserve_attempt : Db → Digest → ℕ → ℕ → ℕ → Db × Bool
reserve_attempt db bucket now window limit =
    let (rows, reserved) = count_attempt db.attempts bucket (now / window * window) limit in
    (record db { attempts = rows }, reserved)

unfoldable pub purge_expired : Db → ℕ → ℕ → Db
purge_expired db now limit =
    let oldest =
      take limit
        (order_by (λ d. d.expires_at) (keep (λ d. leb d.expires_at (now - 86400)) db.devices)) in
    let stale = take limit (keep (λ a. ltb a.bucket_start (now - 3600)) db.attempts) in
    record db {
      devices = delete (λ d. any (λ o. eq_text o.id d.id) oldest) db.devices;
      attempts = delete (λ a. any (is_bucket a.bucket_digest a.bucket_start) stale) db.attempts;
    }
