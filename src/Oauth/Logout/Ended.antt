-- ===== src/Oauth/Logout/Ended.antt =====
-- A session that is logged out backs no token any more.
use moesegfault_indentity.Base.{
  ℕ, ◌≡◌, refl, sym, ap, ◌∙◌, Bool, true, false, not, ◌&&◌, Option, none, some, List, any, find,
  is_some, inl, inr, arith, Option-cases,
}
use moesegfault_indentity.Base.Text.{Text, text, eq_text}
use moesegfault_indentity.Secret.{Crypto, Digest, ct_eq}
use moesegfault_indentity.Store.{Db, Session, Profile, Username, Client, Family, RefreshToken}
use moesegfault_indentity.Store.Codes.{Code}
use moesegfault_indentity.Store.Sql.{found, any-find, any-update-false}
use moesegfault_indentity.Guard.{Env}
use moesegfault_indentity.Oauth.Issue.{OauthClient, Issuance, Signer, Draw, refresh_digest}
use moesegfault_indentity.Oauth.Refresh.{
  RefreshGrant, join_refresh, refresh_of, refresh_grant, coalesce,
}
use moesegfault_indentity.Oauth.Codes.{
  CodeGrant, join_code, is_presented, code_grant, authorization_code,
}
use moesegfault_indentity.Oauth.Codes.Exchange.{
  Presented, presented_code, code_digest, is_code_refused, exchange_code,
}
use moesegfault_indentity.Oauth.Codes.Runs.{exchange_code-cases}
use moesegfault_indentity.Oauth.Exchange.{get, is_refresh_stale, use_refresh, exchange_refresh}
use moesegfault_indentity.Oauth.Exchange.Runs.{is_issued}
use moesegfault_indentity.Oauth.Logout.{logout_session}

abbrev open_session : Text → Session → Bool
open_session sid s = eq_text s.session_id sid && not (is_some s.revoked_at)

no_open_session :
    (db : Db) (sid : Text) (t : ℕ)
    → any (open_session sid) (logout_session db sid t).sessions ≡ false
unfolding logout_session
no_open_session db sid t =
    any-update-false (λ (s : Session). eq_text s.session_id sid)
      (λ s. record s { revoked_at = coalesce s.revoked_at t }) (open_session sid) db.sessions
      (λ s e. ground arith) (λ s e. ground arith)

-- The row that a join finds for the session is revoked.
found_revoked :
    (db : Db) (sid id : Text) (t : ℕ) (s : Session)
    → find (λ r. eq_text r.session_id id) (logout_session db sid t).sessions ≡ some s
    → id ≡ sid
    → is_some s.revoked_at ≡ true
found_revoked db sid id t s h e =
    let shut =
      any-find (open_session sid) (λ r. eq_text r.session_id id) (logout_session db sid t).sessions
        s (no_open_session db sid t) h in
    let mine : eq_text s.session_id sid ≡ true =
      ap (eq_text s.session_id) (sym e)
      ∙ found (λ r. eq_text r.session_id id) (logout_session db sid t).sessions s h in
    ground (arith, shut, mine)

join_code_session :
    (c : Code) (s : Option Session) (p : Option Profile) (u : Option Username) (o : Option Client)
    (g : CodeGrant)
    → join_code c s p u o ≡ some g
    → (r : Session) × (s ≡ some r)
      × (g.session_revoked_at ≡ r.revoked_at)
      × (c.session_id ≡ g.session_id)
join_code_session c (some s) (some p) (some u) (some o) g h = (s, refl, ground arith, ground arith)
join_code_session c none p u o g h = cc
join_code_session c (some s) none u o g h = cc
join_code_session c (some s) (some p) none o g h = cc
join_code_session c (some s) (some p) (some u) none g h = cc

code_grant-revoked :
    (db : Db) (sid : Text) (t : ℕ) (c : Code) (g : CodeGrant)
    → code_grant (logout_session db sid t) c ≡ some g
    → g.session_id ≡ sid
    → is_some g.session_revoked_at ≡ true
unfolding code_grant
code_grant-revoked db sid t c g h e =
    let (r, at, revoked, same) = join_code_session c _ _ _ _ g h in
    ap is_some revoked ∙ found_revoked db sid c.session_id t r at (same ∙ e)

authorization_code-revoked :
    (db : Db) (sid : Text) (t : ℕ) (d : Digest) (g : CodeGrant)
    → authorization_code (logout_session db sid t) d ≡ some g
    → g.session_id ≡ sid
    → is_some g.session_revoked_at ≡ true
unfolding authorization_code
authorization_code-revoked db sid t d g h e =
    elim (Option-cases (find (is_presented d) (logout_session db sid t).codes)) [
      | inl n ↦ absurd (ground (arith, n))
      | inr (c, n) ↦ code_grant-revoked db sid t c g (ground (arith, n)) e
    ]

join_refresh_session :
    (k : RefreshToken) (f : Option Family) (s : Option Session) (p : Option Profile)
    (u : Option Username) (o : Option Client) (g : RefreshGrant)
    → join_refresh k f s p u o ≡ some g
    → (q : Family) × (f ≡ some q)
      × (r : Session) × (s ≡ some r)
      × (g.session_revoked_at ≡ r.revoked_at)
      × (q.session_id ≡ g.session_id)
join_refresh_session k (some f) (some s) (some p) (some u) (some o) g h =
    (f, refl, s, refl, ground arith, ground arith)
join_refresh_session k none s p u o g h = cc
join_refresh_session k (some f) none p u o g h = cc
join_refresh_session k (some f) (some s) none u o g h = cc
join_refresh_session k (some f) (some s) (some p) none o g h = cc
join_refresh_session k (some f) (some s) (some p) (some u) none g h = cc

refresh_of-revoked :
    (db : Db) (sid : Text) (t : ℕ) (k : RefreshToken) (f : Option Family) (g : RefreshGrant)
    → refresh_of (logout_session db sid t) k f ≡ some g
    → g.session_id ≡ sid
    → is_some g.session_revoked_at ≡ true
unfolding refresh_of
refresh_of-revoked db sid t k none g h e = cc
refresh_of-revoked db sid t k (some f) g h e =
    let (q, mine, r, at, revoked, same) = join_refresh_session k (some f) _ _ _ _ g h in
    let q_is : f ≡ q = ground (arith, mine) in
    ap is_some revoked
    ∙ found_revoked db sid f.session_id t r at (ap (λ (x : Family). x.session_id) q_is ∙ same ∙ e)

refresh_grant-revoked :
    (db : Db) (sid : Text) (t : ℕ) (d : Digest) (g : RefreshGrant)
    → refresh_grant (logout_session db sid t) d ≡ some g
    → g.session_id ≡ sid
    → is_some g.session_revoked_at ≡ true
unfolding refresh_grant
refresh_grant-revoked db sid t d g h e =
    elim (Option-cases (find (λ k. ct_eq k.digest d) (logout_session db sid t).tokens)) [
      | inl n ↦ absurd (ground (arith, n))
      | inr (k, n) ↦
          refresh_of-revoked db sid t k
            (find (λ f. eq_text f.family_id k.family_id) (logout_session db sid t).families) g
            (ground (arith, n)) e
    ]

module _ (crypto : Crypto) (env : Env) (i : Issuance) (signer : Signer) (client : OauthClient)
    (draw : Draw) (clock : ℕ) (db : Db) (sid : Text) (t : ℕ) (fields : List (Text × Text))
    (now : ℕ) where
  -- After the logout of a session, no code of that session is exchanged for tokens.
  pub logout_stops_code :
      (p : Presented) (d : Digest) (g : CodeGrant)
      → presented_code fields ≡ some p
      → code_digest crypto env p.code ≡ some d
      → authorization_code (logout_session db sid t) d ≡ some g
      → g.session_id ≡ sid
      → is_issued
          (exchange_code crypto env i signer client draw clock
            (logout_session db sid t)
            fields
            now).1
        ≡ false
  logout_stops_code p d g form hashed found e =
      elim (exchange_code-cases crypto env i signer client draw clock (logout_session db sid t)
        fields now) [
          | inl u ↦ u.kept
          | inr x ↦
              let one : x.p ≡ p = ground (arith, x.form, form) in
              let digests : some x.digest ≡ some d =
                sym x.hashed ∙ ap (λ (q : Presented). code_digest crypto env q.code) one ∙ hashed in
              let same : x.digest ≡ d = ground (arith, digests) in
              let grants : some x.g ≡ some g =
                sym x.found ∙ ap (authorization_code (logout_session db sid t)) same ∙ found in
              let mine : x.g ≡ g = ground (arith, grants) in
              let revoked = authorization_code-revoked db sid t d g found e in
              absurd (
                unfold is_code_refused in
                ground (
                  arith,
                  x.accepted,
                  ap (λ (q : CodeGrant). is_some q.session_revoked_at) mine,
                  revoked,
                ))
        ]

  -- After the logout of a session, no refresh token of that session is exchanged for tokens.
  pub logout_stops_refresh :
      (wire : Text) (d : Digest) (g : RefreshGrant)
      → get (text "refresh_token") fields ≡ some wire
      → refresh_digest crypto env wire ≡ some d
      → refresh_grant (logout_session db sid t) d ≡ some g
      → g.session_id ≡ sid
      → is_issued
          (exchange_refresh crypto env i signer client draw (logout_session db sid t) fields now).1
        ≡ false
  unfolding exchange_refresh use_refresh is_refresh_stale
  logout_stops_refresh wire d g form hashed found e =
      ground (arith, form, hashed, found, refresh_grant-revoked db sid t d g found e)
