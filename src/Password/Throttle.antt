-- ===== src/Password/Throttle.antt =====
-- What the throttle admits, and how long it has a client wait.
use moesegfault_indentity.Base.{
  ℕ, ◌+◌, ◌-◌, ◌^◌, ◌≤◌, ◌<◌, ◌≡◌, refl, Bool, true, ◌&&◌, none, some, List, [], ◌∷◌, ◌++◌, find,
  min, is_some, arith, Bool-cases, Option-cases, inl, inr,
}
use native.Mathlib.Nat.{le_trans, pow-le-pow_right}
use moesegfault_indentity.Secret.{Digest}
use moesegfault_indentity.Store.Sql.{update}
use moesegfault_indentity.Password.{
  PasswordAttempt, may_attempt, backoff, attempted, first_attempt, retry_after, is_bucket_row,
  reserve_password_attempt,
}

-- What the columns of a row satisfy: the counter is in its range, and the next attempt is allowed
-- within the hour after the last one, before the row expires.
pub record IsAttempt (r : PasswordAttempt) : Type 0 where
  pub counted : 1 ≤ r.attempt_count
  pub capped : r.attempt_count ≤ 100
  pub after_last : r.last_attempt_at ≤ r.next_allowed_at
  pub within_hour : r.next_allowed_at ≤ r.last_attempt_at + 3600
  pub expiry : r.expires_at ≡ r.last_attempt_at + 86400

abbrev pub AllAttempts : List PasswordAttempt → Type 0
AllAttempts [] = Unit
AllAttempts (r ∷ rs) = IsAttempt r × AllAttempts rs

backoff_short : (n : ℕ) → backoff n ≤ 3600
unfolding backoff
backoff_short n = ground arith

attempted-IsAttempt :
    (now : ℕ) (r : PasswordAttempt)
    → IsAttempt r
    → may_attempt now r ≡ true
    → IsAttempt (attempted now r)
unfolding attempted may_attempt
attempted-IsAttempt now r v h = record {
  counted = ground (arith, v.counted);
  capped = ground (arith, v.capped);
  after_last = ground arith;
  within_hour = ground (arith, backoff_short r.attempt_count);
  expiry = refl;
}

AllAttempts-append :
    (rows : List PasswordAttempt) (r : PasswordAttempt)
    → AllAttempts rows
    → IsAttempt r
    → AllAttempts (rows ++ r ∷ [])
AllAttempts-append [] r vs v = (v, tt)
AllAttempts-append (x ∷ rows) r (w, vs) v = (w, AllAttempts-append rows r vs v)

found-IsAttempt :
    (p : PasswordAttempt → Bool) (rows : List PasswordAttempt) (r : PasswordAttempt)
    → AllAttempts rows
    → find p rows ≡ some r
    → IsAttempt r
found-IsAttempt p [] r vs h = cc
found-IsAttempt p (x ∷ rows) r (v, vs) h = elim (Bool-cases (p x)) [
  | inl e ↦ let same : x ≡ r = ground arith in rw (← same) v
  | inr e ↦ found-IsAttempt p rows r vs (ground arith)
]

-- With valid rows, a refused attempt changes no row, and the wait that it reports is exact: until
-- the seconds have passed every attempt on the bucket is refused, and after them an attempt is
-- reserved.
pub retry_after_lem :
    (rows : List PasswordAttempt) (bucket : Digest) (now wait : ℕ)
    → AllAttempts rows
    → (reserve_password_attempt rows bucket now).1 ≡ some wait
    → ((reserve_password_attempt rows bucket now).0 ≡ rows)
      × ((later : ℕ)
          → now ≤ later
          → later < now + wait
          → is_some (reserve_password_attempt rows bucket later).1 ≡ true)
      × ((reserve_password_attempt rows bucket (now + wait)).1 ≡ none)
unfolding reserve_password_attempt may_attempt retry_after
retry_after_lem rows bucket now wait vs h = elim (Option-cases (find (is_bucket_row bucket) rows)) [
  | inl e ↦ absurd (ground (arith, e))
  | inr (r, e) ↦
      let v = found-IsAttempt (is_bucket_row bucket) rows r vs e in
      (
        ground (arith, e),
        λ later le lt. ground (arith, e, v.within_hour, v.expiry, v.capped),
        ground (arith, e, v.within_hour, v.expiry, v.capped),
      )
]

power_small : (n : ℕ) → n ≤ 11 → 2 ^ n ≤ 3600
power_small n h = le_trans (pow-le-pow_right {n = 2} (omega arith) {i = n} {j = 11} h) (omega arith)

-- On a row that has not expired: a reserved attempt leaves no wait while fewer than four were
-- counted before it; from then on the wait doubles with each, from one second, and from the
-- sixteenth on it is an hour.
pub backoff_lem :
    (r : PasswordAttempt) (now : ℕ)
    → now < r.expires_at
    → (r.attempt_count < 4 → (attempted now r).next_allowed_at ≡ now)
      × (4 ≤ r.attempt_count
          → r.attempt_count ≤ 15
          → (attempted now r).next_allowed_at ≡ now + 2 ^ (r.attempt_count - 4))
      × (16 ≤ r.attempt_count → (attempted now r).next_allowed_at ≡ now + 3600)
unfolding attempted backoff
backoff_lem r now h = (
  λ few. ground arith,
  λ more most.
      let steps : min 12 (r.attempt_count - 4) ≡ r.attempt_count - 4 = omega arith in
      let small : 2 ^ (r.attempt_count - 4) ≤ 3600 =
        power_small (r.attempt_count - 4) (omega arith) in
      ground (arith, steps, small),
  λ many. let steps : min 12 (r.attempt_count - 4) ≡ 12 = omega arith in ground (arith, steps),
)

AllAttempts-update :
    (p : PasswordAttempt → Bool) (now : ℕ) (rows : List PasswordAttempt)
    → ((r : PasswordAttempt) → p r ≡ true → may_attempt now r ≡ true)
    → AllAttempts rows
    → AllAttempts (update p (attempted now) rows)
unfolding update
AllAttempts-update p now [] h vs = tt
AllAttempts-update p now (r ∷ rows) h (v, vs) = elim (Bool-cases (p r)) [
  | inl e ↦ rw e (attempted-IsAttempt now r v (h r e), AllAttempts-update p now rows h vs)
  | inr e ↦ rw e (v, AllAttempts-update p now rows h vs)
]

-- Whether an attempt is reserved or not, valid rows stay valid: in particular no counter passes
-- 100.
pub reserve_password_attempt-AllAttempts :
    (rows : List PasswordAttempt) (bucket : Digest) (now : ℕ)
    → AllAttempts rows
    → AllAttempts (reserve_password_attempt rows bucket now).0
unfolding reserve_password_attempt
reserve_password_attempt-AllAttempts rows bucket now vs =
    elim (Option-cases (find (is_bucket_row bucket) rows)) [
      | inl e ↦
          rw (reserve_password_attempt, e)
            (AllAttempts-append rows (first_attempt bucket now) vs (record {
              counted = omega arith;
              capped = omega arith;
              after_last = omega arith;
              within_hour = omega arith;
              expiry = refl;
            }))
      | inr (r, e) ↦ elim (Bool-cases (may_attempt now r)) [
        | inl k ↦
            rw (reserve_password_attempt, e, k)
              (AllAttempts-update (λ a. is_bucket_row bucket a && may_attempt now a) now rows
                (λ a q. ground arith) vs)
        | inr k ↦ rw (reserve_password_attempt, e, k) vs
      ]
    ]
