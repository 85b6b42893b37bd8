-- ===== src/Session/Touch.antt =====
-- What the use of a session does to it.
use moesegfault_indentity.Base.{
  ℕ, ◌≤◌, ◌≡◌, refl, true, ◌&&◌, some, List, [], ◌∷◌, find, inl, inr, arith, Bool-cases,
  Option-cases,
}
use moesegfault_indentity.Base.Text.{Text, eq_text}
use moesegfault_indentity.Base.Text.Ascii.{eq_text_refl}
use moesegfault_indentity.Secret.{Digest}
use moesegfault_indentity.Store.{Db, Session, is_live, has_authority}
use moesegfault_indentity.Store.Sql.{update, found, any-found, any-update_if}
use moesegfault_indentity.Session.{
  may_touch, touched, touch_session, is_current_session, session_touch_due, current_session,
  CurrentSession,
}

-- Every session whose idle deadline is within its absolute one.
abbrev pub Bounded : List Session → Type 0
Bounded [] = Unit {0}
Bounded (s ∷ ss) = (s.idle_expires_at ≤ s.absolute_expires_at) × Bounded ss

touch-Bounded :
    (id : Text) (now : ℕ) (ss : List Session)
    → Bounded ss
    → Bounded (update (may_touch id now) (touched now) ss)
unfolding update touched
touch-Bounded id now [] b = tt
touch-Bounded id now (s ∷ ss) b = elim (Bool-cases (may_touch id now s)) [
  | inl e ↦ rw e (omega arith, touch-Bounded id now ss b.1)
  | inr e ↦ rw e (b.0, touch-Bounded id now ss b.1)
]

touched-live :
    (id : Text) (now : ℕ) (s : Session)
    → may_touch id now s ≡ true
    → is_live now (touched now s) ≡ true
unfolding may_touch touched
touched-live id now s h = ground arith

-- Using a session never moves its idle deadline past its absolute one.
pub current_session-Bounded :
    (db : Db) (digest : Digest) (now : ℕ)
    → Bounded db.sessions
    → Bounded (current_session db digest now).0.sessions
unfolding current_session touch_session
current_session-Bounded db digest now b =
    elim (Option-cases (find (is_current_session db digest now) db.sessions)) [
      | inl e ↦ rw e b
      | inr (s, e) ↦ elim (Bool-cases (session_touch_due s.last_seen_at now)) [
        | inl k ↦ rw (e, k) (touch-Bounded s.session_id now db.sessions b)
        | inr k ↦ rw (e, k) b
      ]
    ]

touch_session-has_authority :
    (db : Db) (id p s : Text) (now : ℕ)
    → has_authority (touch_session db id now) p s now ≡ has_authority db p s now
unfolding has_authority touch_session
touch_session-has_authority db id p s now =
    let same =
      any-update_if (may_touch id now) (touched now)
        (λ (r : Session). eq_text r.session_id s && eq_text r.principal_id p && is_live now r)
        db.sessions (λ r e. unfold may_touch touched in ground (arith, e)) in
    rw same refl

-- Using a session neither gives nor takes authority: at the time of the use each session of each principal is
-- in force exactly when it was.
pub current_session-has_authority :
    (db : Db) (digest : Digest) (p s : Text) (now : ℕ)
    → has_authority (current_session db digest now).0 p s now ≡ has_authority db p s now
unfolding current_session
current_session-has_authority db digest p s now =
    elim (Option-cases (find (is_current_session db digest now) db.sessions)) [
      | inl e ↦ rw e refl
      | inr (r, e) ↦ elim (Bool-cases (session_touch_due r.last_seen_at now)) [
        | inl k ↦ rw (e, k) (touch_session-has_authority db r.session_id p s now)
        | inr k ↦ rw (e, k) refl
      ]
    ]

-- The session that a request's cookie resolves to is in force, and its principal is active.
pub current_session-has_authority_found :
    (db : Db) (digest : Digest) (now : ℕ) (c : CurrentSession)
    → (current_session db digest now).1 ≡ some c
    → has_authority db c.principal_id c.session_id now ≡ true
unfolding current_session
current_session-has_authority_found db digest now c h =
    elim (Option-cases (find (is_current_session db digest now) db.sessions)) [
      | inl e ↦ absurd (ground (arith, e))
      | inr (r, e) ↦
          let now_found = found (is_current_session db digest now) db.sessions r e in
          let me : c ≡ record { principal_id = r.principal_id; session_id = r.session_id } =
            ground (arith, e) in
          rw me (
            unfold has_authority is_current_session in
            ground (
              arith,
              now_found,
              eq_text_refl r.session_id,
              eq_text_refl r.principal_id,
              any-found
                  (λ (x : Session).
                    eq_text x.session_id r.session_id
                    && eq_text x.principal_id r.principal_id
                    && is_live now x)
                  (is_current_session db digest now) db.sessions r e
                  (ground
                    (arith, now_found, eq_text_refl r.session_id, eq_text_refl r.principal_id)),
            ))
    ]
