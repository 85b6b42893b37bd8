-- ===== src/Principal/Tests.antt =====
-- Runs of the life cycle and of the transactions.
use moesegfault_indentity.Base.{◌≡◌, refl, false, none}
use moesegfault_indentity.Base.Text.{text}
use moesegfault_indentity.Principal.{
  pending_deletion, deleted, transition, may_authenticate, Transaction, pending, authentication,
}
use moesegfault_indentity.Principal.Lifecycle.{step, here, next, doomed_never_authenticates}

doomed_never_authenticates_example : may_authenticate deleted ≡ false
unfolding transition
doomed_never_authenticates_example =
    doomed_never_authenticates tt (next here (step {s = pending_deletion} {t = deleted} refl))

abbrev ceremony : Transaction
ceremony = record {
  transaction_id = text "t";
  kind = authentication;
  principal_id = none;
  state = pending;
  created_at = 100;
  expires_at = 200;
}
