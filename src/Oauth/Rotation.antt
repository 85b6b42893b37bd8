-- ===== src/Oauth/Rotation.antt =====
-- One rotation per refresh token.
pub mod Once
use moesegfault_indentity.Base.{
  ℕ, ◌≡◌, refl, sym, ap, ◌∙◌, Bool, true, false, not, ◌&&◌, none, some, List, [], ◌∷◌, ◌++◌, any,
  find, ltb, if◌then◌else◌, arith, Bool-cases, Option-cases, inl, inr,
}
use moesegfault_indentity.Base.Text.{Text, text, eq_text}
use moesegfault_indentity.Base.Text.Ascii.{eq_text_refl, eq_of_eq_text, eq_text_iff}
use moesegfault_indentity.Secret.{Digest, ct_eq}
use moesegfault_indentity.Store.{Db, RefreshToken, active, revoked}
use moesegfault_indentity.Store.Sql.{
  update, any-update-false, any-update_none, any-update_same, any_narrow, any_imp, any-append_one,
  find-update, find-append_some,
}
use moesegfault_indentity.Oauth.Refresh.{
  RefreshGrant, is_token_state, coalesce, revoke_family_for_reuse, is_live_family, is_token_of,
  may_rotate, new_token, clashes, may_retire, retire, may_promote, promote, is_active_of, promoted,
  rotated_tokens, rotate_refresh,
}

-- A token identifier that no row has.
abbrev pub is_unused : Text → List RefreshToken → Bool
is_unused id rows = not (any (λ t. eq_text t.token_id id) rows)

abbrev pub is_active_token : Text → Text → RefreshToken → Bool
is_active_token token_id family_id t =
    is_token_of token_id family_id t && is_token_state t.state active

pub promoted_rows :
    (g : RefreshGrant) (new_id : Text) (rows rows' : List RefreshToken)
    → promoted g new_id rows ≡ some rows'
    → (rows' ≡ update (may_promote g new_id rows) promote rows)
      × (any (is_active_token new_id g.family_id) rows' ≡ true)
unfolding promoted
promoted_rows g new_id rows rows' h =
    elim (Bool-cases
      (any (may_promote g new_id rows) rows && any (is_active_of g.family_id) rows)) [
        | inl e ↦ absurd (ground arith)
        | inr e ↦
            elim (Bool-cases (
              any (is_active_token new_id g.family_id)
                (update (may_promote g new_id rows) promote rows))) [
                  | inl k ↦
                      let same : update (may_promote g new_id rows) promote rows ≡ rows' =
                        ground arith in
                      (sym same, rw (← same) k)
                  | inr k ↦ absurd (ground arith)
                ]
      ]

module _ (g : RefreshGrant) (new_id : Text) (digest : Digest) (now expires : ℕ) where
  abbrev pub fresh : RefreshToken
  fresh = new_token g new_id digest now expires

  abbrev old_active : RefreshToken → Bool
  old_active = is_active_token g.token_id g.family_id

  promoted_none :
      (rows rows' : List RefreshToken)
      → promoted g new_id rows ≡ some rows'
      → eq_text g.token_id new_id ≡ false
      → any old_active rows ≡ false
      → any old_active rows' ≡ false
  unfolding may_promote
  promoted_none rows rows' h differs none_active = rw (promoted_rows g new_id rows rows' h).0 (
      any-update_none (may_promote g new_id rows) promote old_active rows
        (λ r e. ground (
          arith,
          eq_of_eq_text r.token_id new_id,
          eq_of_eq_text r.token_id g.token_id,
          eq_text_iff g.token_id new_id,
        ))
        none_active)

  retired_none :
      (rows : List RefreshToken)
      → any old_active (
          update
            (may_retire g new_id (rows ++ fresh ∷ []))
            (retire now new_id)
            (rows ++ fresh ∷ []))
        ≡ false
  unfolding may_retire
  retired_none rows =
      let there =
        any-append_one (λ r. is_token_of new_id g.family_id r && is_token_state r.state revoked)
          rows fresh (ground (arith, eq_text_refl new_id, eq_text_refl g.family_id)) in
      any-update-false (may_retire g new_id (rows ++ fresh ∷ [])) (retire now new_id) old_active
        (rows ++ fresh ∷ []) (λ r e. ground arith) (λ r e. ground (arith, there))

  closed_unused :
      (rows rows' : List RefreshToken)
      → promoted g new_id (update (may_retire g new_id rows) (retire now new_id) rows) ≡ some rows'
      → any (λ t. eq_text t.token_id new_id) rows' ≡ any (λ t. eq_text t.token_id new_id) rows
  closed_unused rows rows' h = rw (promoted_rows g new_id _ rows' h).0 (
      any-update_same (may_promote g new_id _) promote (λ t. eq_text t.token_id new_id) _
        (λ r. refl)
      ∙ any-update_same (may_retire g new_id rows) (retire now new_id)
          (λ t. eq_text t.token_id new_id) rows (λ r. refl))

  rotated_closed :
      (rows : List RefreshToken)
      → is_unused new_id rows ≡ true
      → rotated_tokens false g new_id digest now expires rows ≡ none
  unfolding rotated_tokens
  rotated_closed rows unused =
      elim (Option-cases
        (promoted g new_id (update (may_retire g new_id rows) (retire now new_id) rows))) [
          | inl e ↦ e
          | inr (rows', e) ↦
              let still : any (λ t. eq_text t.token_id new_id) rows' ≡ false =
                closed_unused rows rows' e ∙ ground arith in
              let never =
                any_narrow (is_active_token new_id g.family_id) (λ t. eq_text t.token_id new_id)
                  rows' (λ r k. ground arith) still in
              absurd (ground (arith, never, (promoted_rows g new_id _ rows' e).1))
        ]

  pub rotated_open :
      (rows rows' : List RefreshToken)
      → rotated_tokens true g new_id digest now expires rows ≡ some rows'
      → promoted g new_id (
          update
            (may_retire g new_id (rows ++ fresh ∷ []))
            (retire now new_id)
            (rows ++ fresh ∷ []))
        ≡ some rows'
  unfolding rotated_tokens
  rotated_open rows rows' h = elim (Bool-cases (any (clashes fresh) rows)) [
    | inl e ↦ absurd (ground arith)
    | inr e ↦ ground arith
  ]

  -- A row is found by its digest as before, and keeps its identifier and its family.
  pub found_after :
      (rows rows' : List RefreshToken) (d : Digest) (t : RefreshToken)
      → rotated_tokens true g new_id digest now expires rows ≡ some rows'
      → find (λ r. ct_eq r.digest d) rows ≡ some t
      → (t' : RefreshToken) × (find (λ r. ct_eq r.digest d) rows' ≡ some t')
        × (t'.token_id ≡ t.token_id)
        × (t'.family_id ≡ t.family_id)
  found_after rows rows' d t h found =
      let all_rows = rows ++ fresh ∷ [] in
      let there = find-append_some (λ r. ct_eq r.digest d) rows fresh t found in
      let retired = update (may_retire g new_id all_rows) (retire now new_id) all_rows in
      let t1 = if may_retire g new_id all_rows t then retire now new_id t else t in
      let t2 = if may_promote g new_id retired t1 then promote t1 else t1 in
      let step1 =
        find-update (may_retire g new_id all_rows) (retire now new_id) (λ r. ct_eq r.digest d)
          all_rows (λ r. refl) in
      let step2 =
        find-update (may_promote g new_id retired) promote (λ r. ct_eq r.digest d) retired
          (λ r. refl) in
      let rows_eq = (promoted_rows g new_id retired rows' (rotated_open rows rows' h)).0 in
      (t2, rw rows_eq (ground (arith, step1, step2, there)), ground arith, ground arith)

pub may_rotate_token :
    (db : Db) (g : RefreshGrant) (now : ℕ)
    → may_rotate db g now ≡ true
    → any (λ t. eq_text t.token_id g.token_id) db.tokens ≡ true
unfolding may_rotate
may_rotate_token db g now h =
    any_imp
      (λ t.
        is_token_of g.token_id g.family_id t
        && is_token_state t.state active
        && ltb now t.expires_at)
      (λ t. eq_text t.token_id g.token_id) db.tokens (λ t k. ground arith) (ground arith)

pub rotate_refresh_tokens :
    (db db' : Db) (g : RefreshGrant) (new_id : Text) (digest : Digest) (now expires : ℕ)
    → rotate_refresh db g new_id digest now expires ≡ some db'
    → (rotated_tokens (may_rotate db g now) g new_id digest now expires db.tokens ≡ some db'.tokens)
      × (db' ≡ record db { tokens = db'.tokens })
unfolding rotate_refresh
rotate_refresh_tokens db db' g new_id digest now expires h =
    elim (Option-cases
      (rotated_tokens (may_rotate db g now) g new_id digest now expires db.tokens)) [
        | inl e ↦ absurd (ground arith)
        | inr (rows, e) ↦
            let same : record db { tokens = rows } ≡ db' = ground arith in
            (rw (← same) e, rw (← same) refl)
      ]

-- A rotation with a new identifier is refused unless the family, its session, its principal and its
-- client are in force and the token is active.
pub rotate_refresh-may :
    (db : Db) (g : RefreshGrant) (new_id : Text) (digest : Digest) (now expires : ℕ)
    → is_unused new_id db.tokens ≡ true
    → may_rotate db g now ≡ false
    → rotate_refresh db g new_id digest now expires ≡ none
unfolding rotate_refresh
rotate_refresh-may db g new_id digest now expires unused h =
    ground (arith, rotated_closed g new_id digest now expires db.tokens unused)

-- A rotation with a new identifier happens only while the token, its family, session, principal and
-- client are in force; after it, the old token is not active and the new one is.
pub rotate_refresh_swaps :
    (db db' : Db) (g : RefreshGrant) (new_id : Text) (digest : Digest) (now expires : ℕ)
    → is_unused new_id db.tokens ≡ true
    → rotate_refresh db g new_id digest now expires ≡ some db'
    → (may_rotate db g now ≡ true)
      × (any (is_active_token g.token_id g.family_id) db'.tokens ≡ false)
      × (any (is_active_token new_id g.family_id) db'.tokens ≡ true)
rotate_refresh_swaps db db' g new_id digest now expires unused h =
    let (tokens, _) = rotate_refresh_tokens db db' g new_id digest now expires h in
    elim (Bool-cases (may_rotate db g now)) [
      | inr e ↦ absurd (ground (arith, rotate_refresh-may db g new_id digest now expires unused e))
      | inl e ↦
          let run = rotated_open g new_id digest now expires db.tokens db'.tokens (ground arith) in
          let differs : eq_text g.token_id new_id ≡ false = ground (
            arith,
            may_rotate_token db g now e,
            ap (λ (v : Text). any (λ t. eq_text t.token_id v) db.tokens) {x = g.token_id}
                {y = new_id},
            eq_of_eq_text g.token_id new_id,
          ) in
          (
            e,
            promoted_none g new_id digest now expires _ db'.tokens run differs
                (retired_none g new_id digest now expires db.tokens),
            (promoted_rows g new_id _ db'.tokens run).1,
          )
    ]

-- Once reuse of a family is recorded, at whatever time, no rotation of a grant of that family to
-- a new identifier succeeds.
pub revoked_family_stops :
    (db : Db) (g : RefreshGrant) (new_id : Text) (digest : Digest) (seen now expires : ℕ)
    → is_unused new_id db.tokens ≡ true
    → rotate_refresh (revoke_family_for_reuse db g.family_id seen) g new_id digest now expires
      ≡ none
unfolding revoke_family_for_reuse may_rotate is_live_family
revoked_family_stops db g new_id digest seen now expires unused =
    let revoked_db = revoke_family_for_reuse db g.family_id seen in
    let closed =
      any-update-false (λ f. eq_text f.family_id g.family_id)
        (λ f. record f {
          revoked_at = coalesce f.revoked_at seen;
          revocation_reason = coalesce f.revocation_reason (text "refresh_token_reuse");
          reuse_detected_at = coalesce f.reuse_detected_at seen;
        })
        (is_live_family g now) db.families (λ f k. ground arith) (λ f k. ground arith) in
    rotate_refresh-may revoked_db g new_id digest now expires unused (ground (arith, closed))
