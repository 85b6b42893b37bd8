-- ===== src/Oauth/Rotation/Once.antt =====
-- One rotation of a refresh token, whatever comes between.
use moesegfault_indentity.Base.{
  ℕ, ◌≡◌, refl, ap, ◌∙◌, Bool, true, false, ◌&&◌, Option, none, some, List, [], ◌∷◌, ◌++◌, any, ltb,
  arith, any-append, Bool-cases, Option-cases, inl, inr,
}
use moesegfault_indentity.Base.Text.{Text, eq_text}
use moesegfault_indentity.Base.Text.Ascii.{eq_text_iff, eq_of_eq_text}
use moesegfault_indentity.Secret.{Digest}
use moesegfault_indentity.Store.{Db, RefreshToken, active}
use moesegfault_indentity.Store.Sql.{update, any-update_none, any-update_same, any_narrow}
use moesegfault_indentity.Oauth.Refresh.{
  RefreshGrant, revoke_family_for_reuse, is_token_state, is_token_of, may_rotate, may_retire,
  retire, may_promote, promote, rotate_refresh,
}
use moesegfault_indentity.Oauth.Rotation.{
  is_unused, is_active_token, fresh, promoted_rows, rotated_open, rotate_refresh-may,
  rotate_refresh_tokens, rotate_refresh_swaps, may_rotate_token,
}

-- A statement on the refresh tokens: a rotation of any grant, or the revocation of a family.
pub data Step : Type 0 where
  rotates : RefreshGrant → (new_id : Text) → Digest → (now expires : ℕ) → Step
  revokes : (family_id : Text) → ℕ → Step

-- A batch that fails leaves the state as it was.
abbrev committed : Db → Option Db → Db
committed db none = db
committed db (some db') = db'

unfoldable pub step : Step → Db → Db
step (rotates g new_id digest now expires) db =
    committed db (rotate_refresh db g new_id digest now expires)
step (revokes family_id now) db = revoke_family_for_reuse db family_id now

unfoldable pub steps : List Step → Db → Db
steps [] db = db
steps (x ∷ xs) db = steps xs (step x db)

-- A rotation draws an identifier that no row has.
abbrev pub IsFresh : Step → Db → Type 0
IsFresh (rotates g new_id digest now expires) db = is_unused new_id db.tokens ≡ true
IsFresh (revokes family_id now) db = Unit {0}

abbrev pub AllFresh : List Step → Db → Type 0
AllFresh [] db = Unit {0}
AllFresh (x ∷ xs) db = IsFresh x db × AllFresh xs (step x db)

module _ (token_id family_id : Text) where
  abbrev has_id : RefreshToken → Bool
  has_id t = eq_text t.token_id token_id

  -- The token is there, and is not active.
  record Rotated (rows : List RefreshToken) : Type 0 where
    there : any has_id rows ≡ true
    inactive : any (is_active_token token_id family_id) rows ≡ false

  Rotated-rows :
      (g : RefreshGrant) (new_id : Text) (digest : Digest) (now expires : ℕ) (db db' : Db)
      → is_unused new_id db.tokens ≡ true
      → rotate_refresh db g new_id digest now expires ≡ some db'
      → Rotated db.tokens
      → Rotated db'.tokens
  Rotated-rows g new_id digest now expires db db' unused h r =
      let gate = (rotate_refresh_swaps db db' g new_id digest now expires unused h).0 in
      let run =
        rotated_open g new_id digest now expires db.tokens db'.tokens
          (rw gate at (rotate_refresh_tokens db db' g new_id digest now expires h).0) in
      let new = fresh g new_id digest now expires in
      let rows1 = db.tokens ++ new ∷ [] in
      let rows2 = update (may_retire g new_id rows1) (retire now new_id) rows1 in
      let out = (promoted_rows g new_id rows2 db'.tokens run).0 in
      let differs : eq_text new_id token_id ≡ false = elim (Bool-cases (eq_text new_id token_id)) [
        | inr e ↦ e
        | inl e ↦
            let same = (eq_text_iff new_id token_id).0 e in
            absurd (
              ground (
                arith,
                unused,
                r.there,
                ap (λ (v : Text). any (λ (t : RefreshToken). eq_text t.token_id v) db.tokens) same,
              ))
      ] in
      let start : any (is_active_token token_id family_id) rows1 ≡ false =
        any-append (is_active_token token_id family_id) db.tokens (new ∷ [])
        ∙ ground (arith, r.inactive, differs) in
      let retired : any (is_active_token token_id family_id) rows2 ≡ false =
        any-update_none (may_retire g new_id rows1) (retire now new_id) _ rows1
          (λ t e. ground arith) start in
      rw out (record {
        there =
            any-update_same (may_promote g new_id rows2) promote has_id rows2 (λ t. refl)
            ∙ any-update_same (may_retire g new_id rows1) (retire now new_id) has_id rows1
                (λ t. refl)
            ∙ any-append has_id db.tokens (new ∷ [])
            ∙ ground (arith, r.there);
        inactive =
            any-update_none (may_promote g new_id rows2) promote _ rows2
              (λ t e.
                unfold may_promote in
                ground (
                  arith,
                  differs,
                  eq_of_eq_text t.token_id new_id,
                  eq_of_eq_text t.token_id token_id,
                  eq_text_iff new_id token_id,
                ))
              retired;
      })

  steps-Rotated :
      (xs : List Step) (db : Db) → AllFresh xs db → Rotated db.tokens → Rotated (steps xs db).tokens
  unfolding steps step revoke_family_for_reuse
  steps-Rotated [] db f r = r
  steps-Rotated (revokes family now ∷ xs) db (f, fs) r =
      steps-Rotated xs (step (revokes family now) db) fs r
  steps-Rotated (rotates g new_id digest now expires ∷ xs) db (f, fs) r =
      steps-Rotated xs (step (rotates g new_id digest now expires) db) fs
        (elim (Option-cases (rotate_refresh db g new_id digest now expires)) [
          | inl e ↦ rw e r
          | inr (db', e) ↦ rw e (Rotated-rows g new_id digest now expires db db' f e r)
        ])

-- A token that was rotated is never rotated again: a rotation of any grant for the same token is refused,
-- whatever rotations and revocations of families come between. Each rotation must draw an identifier that no
-- row has.
pub rotate_once :
    (db db' : Db) (g g' : RefreshGrant) (new_id new_id' : Text) (digest digest' : Digest)
    (now now' expires expires' : ℕ) (xs : List Step)
    → is_unused new_id db.tokens ≡ true
    → rotate_refresh db g new_id digest now expires ≡ some db'
    → AllFresh xs db'
    → g'.token_id ≡ g.token_id
    → g'.family_id ≡ g.family_id
    → is_unused new_id' (steps xs db').tokens ≡ true
    → rotate_refresh (steps xs db') g' new_id' digest' now' expires' ≡ none
unfolding may_rotate
rotate_once db db' g g' new_id new_id' digest digest' now now' expires expires' xs unused h fs t f
      unused' =
    let (gate, gone, _) = rotate_refresh_swaps db db' g new_id digest now expires unused h in
    let there = may_rotate_token db g now gate in
    let run =
      rotated_open g new_id digest now expires db.tokens db'.tokens
        (rw gate at (rotate_refresh_tokens db db' g new_id digest now expires h).0) in
    let rows1 = db.tokens ++ fresh g new_id digest now expires ∷ [] in
    let rows2 = update (may_retire g new_id rows1) (retire now new_id) rows1 in
    let first : Rotated g.token_id g.family_id db'.tokens = record {
      there = rw (promoted_rows g new_id rows2 db'.tokens run).0 (
          any-update_same (may_promote g new_id rows2) promote _ rows2 (λ x. refl)
          ∙ any-update_same (may_retire g new_id rows1) (retire now new_id) _ rows1 (λ x. refl)
          ∙ any-append (has_id g.token_id g.family_id) db.tokens
              (fresh g new_id digest now expires ∷ [])
          ∙ ground (arith, there));
      inactive = gone;
    } in
    let last : any (is_active_token g'.token_id g'.family_id) (steps xs db').tokens ≡ false =
      rw (t, f) (steps-Rotated g.token_id g.family_id xs db' fs first).inactive in
    let closed =
      any_narrow
        (λ x.
          is_token_of g'.token_id g'.family_id x
          && is_token_state x.state active
          && ltb now' x.expires_at)
        (is_active_token g'.token_id g'.family_id) (steps xs db').tokens (λ x k. ground arith)
        last in
    rotate_refresh-may (steps xs db') g' new_id' digest' now' expires' unused'
      (ground (arith, closed))
