-- ===== src/Oauth/Exchange/Replay.antt =====
-- A refresh token that is presented a second time.
use moesegfault_indentity.Base.{
  ℕ, ◌≡◌, refl, sym, ap, ◌∙◌, true, false, Option, none, some, List, find, arith, Option-cases, inl,
  inr,
}
use moesegfault_indentity.Base.Text.{Text, text, eq_text}
use moesegfault_indentity.Base.Text.Ascii.{eq_text_refl}
use moesegfault_indentity.Secret.{Crypto, Digest, ct_eq}
use moesegfault_indentity.Store.{
  Db, Client, Session, Profile, Username, Family, RefreshToken, active,
}
use moesegfault_indentity.Store.Sql.{any-find}
use moesegfault_indentity.Guard.{Env}
use moesegfault_indentity.Oauth.Issue.{OauthClient, Issuance, Signer, Draw, refresh_digest}
use moesegfault_indentity.Oauth.Refresh.{
  RefreshGrant, is_token_state, join_refresh, refresh_of, refresh_grant, revoke_family_for_reuse,
  rotate_refresh,
}
use moesegfault_indentity.Oauth.Rotation.{
  is_unused, is_active_token, found_after, rotate_refresh_tokens, rotate_refresh_swaps,
}
use moesegfault_indentity.Oauth.Exchange.{
  Reply, refused, refresh_reuse, get, classify_refresh_use, use_refresh, exchange_refresh,
}
use moesegfault_indentity.Oauth.Exchange.Runs.{is_issued, Same, use_refresh-Exchanged}

-- The grant of another token of the same family.
abbrev pub with_token : RefreshToken → RefreshGrant → RefreshGrant
with_token t g = record g {
  token_id = t.token_id;
  family_id = t.family_id;
  generation = t.generation;
  token_state = t.state;
  token_expires_at = t.expires_at;
}

join_refresh-token :
    (t t' : RefreshToken) (f : Option Family) (s : Option Session) (p : Option Profile)
    (u : Option Username) (c : Option Client) (g : RefreshGrant)
    → join_refresh t f s p u c ≡ some g
    → (join_refresh t' f s p u c ≡ some (with_token t' g))
      × (g.token_id ≡ t.token_id)
      × (g.family_id ≡ t.family_id)
join_refresh-token t t' (some f) (some s) (some p) (some u) (some c) g h = ground arith
join_refresh-token t t' none s p u c g h = cc
join_refresh-token t t' (some f) none p u c g h = cc
join_refresh-token t t' (some f) (some s) none u c g h = cc
join_refresh-token t t' (some f) (some s) (some p) none c g h = cc
join_refresh-token t t' (some f) (some s) (some p) (some u) none g h = cc

refresh_of-token :
    (db : Db) (t t' : RefreshToken) (f : Option Family) (g : RefreshGrant)
    → refresh_of db t f ≡ some g
    → (refresh_of db t' f ≡ some (with_token t' g))
      × (g.token_id ≡ t.token_id)
      × (g.family_id ≡ t.family_id)
unfolding refresh_of
refresh_of-token db t t' none g h = cc
refresh_of-token db t t' (some f) g h = join_refresh-token t t' (some f) _ _ _ _ g h

refresh_of-Same :
    (db mid : Db) (t : RefreshToken) (f : Option Family)
    → Same db mid
    → refresh_of mid t f ≡ refresh_of db t f
unfolding refresh_of
refresh_of-Same db mid t none s = refl
refresh_of-Same db mid t (some f) s = ground (arith, s.sessions, s.profiles, s.usernames, s.clients)

refresh_of-tokens :
    (db : Db) (rows : List RefreshToken) (t : RefreshToken) (f : Option Family)
    → refresh_of (record db { tokens = rows }) t f ≡ refresh_of db t f
unfolding refresh_of
refresh_of-tokens db rows t none = refl
refresh_of-tokens db rows t (some f) = refl

abbrev family_in : Db → Text → Option Family
family_in db id = find (λ f. eq_text f.family_id id) db.families

refresh_grant-found :
    (db : Db) (d : Digest) (g : RefreshGrant)
    → refresh_grant db d ≡ some g
    → (t : RefreshToken) × (find (λ t. ct_eq t.digest d) db.tokens ≡ some t)
      × (refresh_of db t (family_in db t.family_id) ≡ some g)
unfolding refresh_grant
refresh_grant-found db d g h = elim (Option-cases (find (λ t. ct_eq t.digest d) db.tokens)) [
  | inl e ↦ absurd (ground (arith, e))
  | inr (t, e) ↦ (t, e, ground (arith, e))
]

refresh_grant_of :
    (db : Db) (d : Digest) (t : RefreshToken)
    → find (λ t. ct_eq t.digest d) db.tokens ≡ some t
    → refresh_grant db d ≡ refresh_of db t (family_in db t.family_id)
unfolding refresh_grant
refresh_grant_of db d t e = ground (arith, e)

-- After a rotation the digest still finds the token's row, which is no longer active.
spent_grant :
    (db mid db' : Db) (d nd : Digest) (g : RefreshGrant) (id : Text) (now expires : ℕ)
    → Same db mid
    → is_unused id db.tokens ≡ true
    → refresh_grant db d ≡ some g
    → rotate_refresh mid g id nd now expires ≡ some db'
    → (t : RefreshToken) × (refresh_grant db' d ≡ some (with_token t g))
      × (is_token_state t.state active ≡ false)
      × (t.family_id ≡ g.family_id)
spent_grant db mid db' d nd g id now expires s unused found run =
    let (t, there, joined) = refresh_grant-found db d g found in
    let (may, gone, _) =
      rotate_refresh_swaps mid db' g id nd now expires (ap (is_unused id) s.tokens ∙ unused) run in
    let (tokens, rest) = rotate_refresh_tokens mid db' g id nd now expires run in
    let (t', there', same_id, same_family) =
      found_after g id nd now expires mid.tokens db'.tokens d t (rw (← may) tokens)
        (rw s.tokens there) in
    let (next, g_id, g_family) = refresh_of-token db t t' (family_in db t.family_id) g joined in
    let families : db'.families ≡ db.families = ap (λ (x : Db). x.families) rest ∙ s.families in
    let family : family_in db' t'.family_id ≡ family_in db t.family_id =
      ap (find (λ f. eq_text f.family_id t'.family_id)) families ∙ ap (family_in db) same_family in
    let moved =
      ap (λ (x : Db). refresh_of x t' (family_in db t.family_id)) rest
      ∙ refresh_of-tokens mid db'.tokens t' (family_in db t.family_id)
      ∙ refresh_of-Same db mid t' (family_in db t.family_id) s in
    let inactive =
      any-find (is_active_token g.token_id g.family_id) (λ r. ct_eq r.digest d) db'.tokens t' gone
        there' in
    (
      t',
      refresh_grant_of db' d t' there' ∙ ap (refresh_of db' t') family ∙ moved ∙ next,
      ground (
        arith,
        inactive,
        same_id,
        same_family,
        g_id,
        g_family,
        eq_text_refl t'.token_id,
        eq_text_refl t'.family_id,
      ),
      same_family ∙ sym g_family,
    )

module _ (crypto : Crypto) (env : Env) where
  -- The grant of the refresh token that a form presents.
  abbrev pub presented : Db → List (Text × Text) → Option RefreshGrant
  presented db fields = elim (get (text "refresh_token") fields) [
    | none ↦ none
    | some wire ↦ elim (refresh_digest crypto env wire) [
      | none ↦ none
      | some d ↦ refresh_grant db d
    ]
  ]

module _ (crypto : Crypto) (env : Env) (i : Issuance) (signer : Signer) (client : OauthClient) where
  use_refresh-reuse :
      (draw : Draw) (db : Db) (d : Digest) (g : RefreshGrant) (now : ℕ)
      → eq_text g.client_id client.client_id ≡ true
      → is_token_state g.token_state active ≡ false
      → use_refresh crypto env i signer client draw db d (some g) now
        ≡ (revoke_family_for_reuse db g.family_id now, refused refresh_reuse)
  unfolding use_refresh classify_refresh_use
  use_refresh-reuse draw db d g now own spent = ground (arith, own, spent)

  -- The digest that the form presents, of which an exchange with tokens has one.
  presented_digest :
      (draw : Draw) (db : Db) (fields : List (Text × Text)) (now : ℕ)
      → is_issued (exchange_refresh crypto env i signer client draw db fields now).1 ≡ true
      → (wire : Text) × (d : Digest) × (get (text "refresh_token") fields ≡ some wire)
        × (refresh_digest crypto env wire ≡ some d)
  unfolding exchange_refresh
  presented_digest draw db fields now h = elim (Option-cases (get (text "refresh_token") fields)) [
    | inl e ↦ absurd (ground (arith, e))
    | inr (wire, e) ↦ elim (Option-cases (refresh_digest crypto env wire)) [
      | inl k ↦ absurd (ground (arith, e, k))
      | inr (d, k) ↦ (wire, d, e, k)
    ]
  ]

  exchange_refresh_of :
      (draw : Draw) (db : Db) (fields : List (Text × Text)) (now : ℕ) (wire : Text) (d : Digest)
      → get (text "refresh_token") fields ≡ some wire
      → refresh_digest crypto env wire ≡ some d
      → exchange_refresh crypto env i signer client draw db fields now
        ≡ use_refresh crypto env i signer client draw db d (refresh_grant db d) now
  unfolding exchange_refresh
  exchange_refresh_of draw db fields now wire d e k = ground (arith, e, k)

  -- A refresh token works once. If presenting it issued tokens under a new token identifier, then
  -- presenting it to the resulting state again, at whatever time, is refused as a reuse and revokes the
  -- family that the token belongs to.
  pub replay_detected :
      (draw draw' : Draw) (db : Db) (fields : List (Text × Text)) (now now' : ℕ)
      → is_unused draw.token_id db.tokens ≡ true
      → is_issued (exchange_refresh crypto env i signer client draw db fields now).1 ≡ true
      → (g : RefreshGrant) × (presented crypto env db fields ≡ some g)
        × (exchange_refresh crypto env i signer client draw'
              (exchange_refresh crypto env i signer client draw db fields now).0
              fields
              now'
            ≡ (
              revoke_family_for_reuse
                  (exchange_refresh crypto env i signer client draw db fields now).0
                  g.family_id
                  now',
              refused refresh_reuse,
            ))
  replay_detected draw draw' db fields now now' unused h =
      let (wire, d, e, k) = presented_digest draw db fields now h in
      let first = exchange_refresh_of draw db fields now wire d e k in
      let after = (exchange_refresh crypto env i signer client draw db fields now).0 in
      let x =
        use_refresh-Exchanged crypto env i signer client draw db d now
          (ap (λ (r : Db × Reply). is_issued r.1) (sym first) ∙ h) in
      let (t, found, spent, family) =
        spent_grant db x.run.mid after d x.run.new_digest x.g draw.token_id now
          x.g.absolute_expires_at x.run.same unused x.found
          (x.run.ran ∙ ap (λ (r : Db × Reply). some r.0) (sym first)) in
      (
        x.g,
        ground (arith, e, k, x.found),
        exchange_refresh_of draw' after fields now' wire d e k
            ∙ ap
                (λ (o : Option RefreshGrant).
                  use_refresh crypto env i signer client draw' after d o now')
                found
            ∙ use_refresh-reuse draw' after d (with_token t x.g) now' x.own spent
            ∙ ap (λ (f : Text). (revoke_family_for_reuse after f now', refused refresh_reuse))
                family,
      )
