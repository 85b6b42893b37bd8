-- ===== src/Password/Tests.antt =====
-- Runs of the throttle on a sample bucket.
use moesegfault_indentity.Store.Sql.{update}
use moesegfault_indentity.Base.{◌≡◌, refl, some, none, List, [], ◌∷◌, map, arith}
use moesegfault_indentity.Base.Text.{text}
use moesegfault_indentity.Password.{
  PasswordAttempt, reserve_password_attempt, may_attempt, retry_after, attempted,
}
use moesegfault_indentity.Password.Throttle.{
  AllAttempts, retry_after_lem, reserve_password_attempt-AllAttempts,
}

abbrev tired : PasswordAttempt
tired = record {
  bucket_digest = text "b";
  attempt_count = 6;
  last_attempt_at = 1000;
  next_allowed_at = 1002;
  expires_at = 87400;
}

sample_wait : (reserve_password_attempt (tired ∷ []) (text "b") 1000).1 ≡ some 2
unfolding reserve_password_attempt may_attempt retry_after
sample_wait = refl

retry_after_lem_example : (reserve_password_attempt (tired ∷ []) (text "b") 1002).1 ≡ none
retry_after_lem_example =
    (retry_after_lem (tired ∷ []) (text "b") 1000 2
      (
        record {
          counted = omega arith;
          capped = omega arith;
          after_last = omega arith;
          within_hour = omega arith;
          expiry = refl;
        },
        tt,
      )
      sample_wait).2

-- One attempt below the cap.
abbrev nearly : PasswordAttempt
nearly = record {
  bucket_digest = text "c";
  attempt_count = 99;
  last_attempt_at = 1000;
  next_allowed_at = 4600;
  expires_at = 87400;
}

abbrev sample_rows : List PasswordAttempt
sample_rows = tired ∷ nearly ∷ []

sample_rows-AllAttempts : AllAttempts sample_rows
sample_rows-AllAttempts = (
  record {
    counted = omega arith;
    capped = omega arith;
    after_last = omega arith;
    within_hour = omega arith;
    expiry = refl;
  },
  (
    record {
      counted = omega arith;
      capped = omega arith;
      after_last = omega arith;
      within_hour = omega arith;
      expiry = refl;
    },
    tt,
  ),
)

-- The row reaches the cap, and refuses the next attempt.
sample_capped :
    map (λ r. r.attempt_count) (reserve_password_attempt sample_rows (text "c") 4600).0
    ≡ 6 ∷ 100 ∷ []
unfolding reserve_password_attempt may_attempt update attempted retry_after
sample_capped = refl

sample_shut :
    (reserve_password_attempt
      (reserve_password_attempt sample_rows (text "c") 4600).0
      (text "c")
      8200).1
    ≡ some 82800
unfolding reserve_password_attempt may_attempt update attempted retry_after
sample_shut = refl

reserve_password_attempt-AllAttempts_example :
    AllAttempts (reserve_password_attempt sample_rows (text "c") 4600).0
reserve_password_attempt-AllAttempts_example =
    reserve_password_attempt-AllAttempts sample_rows (text "c") 4600 sample_rows-AllAttempts
