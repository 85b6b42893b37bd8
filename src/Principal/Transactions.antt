-- ===== src/Principal/Transactions.antt =====
-- One-shot transactions, and the last authenticator.
use moesegfault_indentity.Base.{
  ℕ, ◌+◌, ◌-◌, ◌≤◌, ◌<◌, ◌≡◌, refl, ◌↔◌, inl, inr, Bool, true, false, ok, err, arith, Bool-cases,
  ltb, List, [], ◌∷◌, any, ◌&&◌,
}
use moesegfault_indentity.Principal.{
  Transaction, pending, consumed, is_pending, consumption_state, ensure_may_revoke_authenticator,
}

-- A transaction can be consumed exactly while it is pending and before its expiry.
pub consumption_state-eq-ok_iff :
    (t : Transaction) (now : ℕ)
    → (consumption_state t now ≡ ok consumed) ↔ ((t.state ≡ pending) × (now < t.expires_at))
unfolding consumption_state
consumption_state-eq-ok_iff t now = ground arith

-- The caller stores the state that it was given; a failed attempt leaves the transaction.
attempt : Transaction → ℕ → Transaction × Bool
attempt t now = elim (consumption_state t now) [
  | ok s ↦ (record t { state = s }, true)
  | err e ↦ (t, false)
]

abbrev one_if : Bool → ℕ
one_if true = 1
one_if false = 0

-- How many of a sequence of attempts, at the given times, succeed.
pub successes : Transaction → List ℕ → ℕ
successes t [] = 0
successes t (now ∷ later) = let (t', won) = attempt t now in one_if won + successes t' later

attempt_won :
    (t : Transaction) (now : ℕ)
    → is_pending t.state ≡ true
    → now < t.expires_at
    → attempt t now ≡ (record t { state = consumed }, true)
unfolding attempt consumption_state
attempt_won t now p h = ground arith

attempt_lost :
    (t : Transaction) (now : ℕ)
    → (is_pending t.state && ltb now t.expires_at) ≡ false
    → attempt t now ≡ (t, false)
unfolding attempt consumption_state
attempt_lost t now h = ground arith

successes_spent :
    (t : Transaction) (times : List ℕ) → is_pending t.state ≡ false → successes t times ≡ 0
unfolding successes
successes_spent t [] h = refl
successes_spent t (now ∷ later) h =
    ground (arith, attempt_lost t now (ground arith), successes_spent t later h)

-- Of all attempts on a pending transaction exactly one succeeds if any comes before its expiry, and
-- none otherwise; on any other transaction none succeeds.
pub successes_lem :
    (t : Transaction) (times : List ℕ)
    → successes t times ≡ one_if (is_pending t.state && any (λ now. ltb now t.expires_at) times)
unfolding successes
successes_lem t [] = ground arith
successes_lem t (now ∷ later) = elim (Bool-cases (is_pending t.state && ltb now t.expires_at)) [
  | inl e ↦
      rw (attempt_won t now (ground arith) (ground arith))
        (ground (arith, successes_spent (record t { state = consumed }) later refl))
  | inr e ↦ rw (attempt_lost t now e) (ground (arith, successes_lem t later))
]

-- One revocation request, with or without recent authentication, at a count of authenticators.
revoke : ℕ → Bool → ℕ
revoke count recent = elim (ensure_may_revoke_authenticator count recent) [
  | ok _ ↦ count - 1
  | err _ ↦ count
]

-- A sequence of them.
pub revoke_all : ℕ → List Bool → ℕ
unfolding revoke
revoke_all count [] = count
revoke_all count (recent ∷ later) = revoke_all (revoke count recent) later

revoke-keeps_one : (count : ℕ) (recent : Bool) → 1 ≤ count → 1 ≤ revoke count recent
unfolding revoke ensure_may_revoke_authenticator
revoke-keeps_one count recent h = ground arith

-- No sequence of revocations removes the last authenticator of an account that has one.
pub revoke_all-keeps_one :
    (count : ℕ) (requests : List Bool) → 1 ≤ count → 1 ≤ revoke_all count requests
unfolding revoke_all
revoke_all-keeps_one count [] h = h
revoke_all-keeps_one count (recent ∷ later) h =
    revoke_all-keeps_one (revoke count recent) later (revoke-keeps_one count recent h)
