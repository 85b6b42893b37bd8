-- ===== src/Oauth/Codes/Once.antt =====
-- Two batches of `consume_code` for one code.
use moesegfault_indentity.Base.{
  ℕ, ◌≡◌, refl, ap, ◌∙◌, Bool, true, false, not, ◌++◌, ltb, Bool-cases, ◌&&◌, ◌||◌, Option, none,
  some, List, [], ◌∷◌, any, inl, inr, arith, any-append,
}
use moesegfault_indentity.Base.Text.{Text, eq_text, split_ascii_whitespace}
use moesegfault_indentity.Base.Text.Ascii.{eq_text_refl, eq_text_iff}
use moesegfault_indentity.Secret.{Digest}
use moesegfault_indentity.Store.{Db, Authorization, Family, RefreshToken}
use moesegfault_indentity.Store.Codes.{Code}
use moesegfault_indentity.Store.Sql.{
  any_narrow, any-append_one, any-update-false, any-update_same, insert_if,
}
use moesegfault_indentity.Device.Repository.{
  NewFamily, is_current, authorize, authorize_fails, first_token,
}
use moesegfault_indentity.Oauth.Refresh.{clashes}
use moesegfault_indentity.Oauth.Codes.{CodeGrant, is_unspent}
use moesegfault_indentity.Oauth.Codes.Consume.{
  is_redeemable, may_redeem, use_fails, spend, insert_use, is_use, start_family, settle_use,
  consume_code, code_family,
}
use moesegfault_indentity.Oauth.Codes.Batch.{
  Redeemed, use_row, with_authorization, consume_code-cases,
}

-- No unspent row has the id of a code that was spent.
pub none_unspent :
    (id : Text) (now : ℕ) (cs : List Code)
    → any (λ c. eq_text c.id id && is_unspent c) (spend id now cs) ≡ false
unfolding spend
none_unspent id now cs = any-update-false _ _ _ cs (λ r e. ground arith) (λ r e. ground arith)

may_redeem_spent :
    (db db' : Db) (g : CodeGrant) (now later : ℕ)
    → db'.codes ≡ spend g.id now db.codes
    → may_redeem db' g later ≡ false
unfolding may_redeem is_redeemable
may_redeem_spent db db' g now later e =
    let gone : any (is_redeemable g later) db'.codes ≡ false =
      any_narrow _ (λ c. eq_text c.id g.id && is_unspent c) db'.codes (λ r k. ground arith)
        (rw e (none_unspent g.id now db.codes)) in
    ground (arith, gone)

pub no_use_before :
    (db : Db) (g : CodeGrant) (rd : Digest) (now clock t : ℕ)
    → use_fails db g.id now clock ≡ false
    → any (is_use g.id rd t) db.code_uses ≡ false
unfolding use_fails is_use
no_use_before db g rd now clock t h =
    any_narrow _ (λ u. eq_text u.code_id g.id) db.code_uses (λ r k. ground arith) (ground arith)

pub won :
    (db db' : Db) (g : CodeGrant) (rd : Digest) (f : Option NewFamily) (aid : Text)
    (now clock expires : ℕ)
    → may_redeem db g now ≡ true
    → consume_code db g rd f aid now clock expires ≡ some db'
    → Redeemed db g rd now clock db'
won db db' g rd f aid now clock expires gate h =
    elim (consume_code-cases db g rd f aid now clock expires db' h) [
      | inl r ↦ r
      | inr r ↦ absurd (ground (arith, gate, r.gate))
    ]

-- After a batch has redeemed a code, a second batch for the same grant commits only if it carries the same
-- request digest and runs in the same second.
pub consume_code_twice :
    (db db' db'' : Db) (g : CodeGrant) (rd rd' : Digest) (f f' : Option NewFamily) (aid aid' : Text)
    (now now' clock clock' expires expires' : ℕ)
    → may_redeem db g now ≡ true
    → consume_code db g rd f aid now clock expires ≡ some db'
    → consume_code db' g rd' f' aid' now' clock' expires' ≡ some db''
    → (rd ≡ rd') × (now ≡ now')
consume_code_twice db db' db'' g rd rd' f f' aid aid' now now' clock clock' expires expires' gate h
      k =
    let r = won db db' g rd f aid now clock expires gate h in
    elim (consume_code-cases db' g rd' f' aid' now' clock' expires' db'' k) [
      | inl s ↦ absurd (ground (arith, s.gate, may_redeem_spent db db' g now now' r.codes))
      | inr s ↦
          let split : (any (is_use g.id rd' now') db.code_uses
                || is_use g.id rd' now' (use_row g rd now))
              ≡ true =
            ground (
              arith,
              s.there,
              ap (any (is_use g.id rd' now')) r.uses,
              any-append (is_use g.id rd' now') db.code_uses (use_row g rd now ∷ []),
            ) in
          let mine : is_use g.id rd' now' (use_row g rd now) ≡ true =
            ground (arith, split, no_use_before db g rd' now clock now' r.applied) in
          unfold is_use in ((eq_text_iff rd rd').0 (ground (arith, mine)), ground (arith, mine))
    ]

-- After its statements ran, the CHECK of the authorizations holds again at that time.
authorize-passes :
    (aid p c : Text) (scopes : List Text) (now : ℕ) (rows : List Authorization)
    → authorize_fails true p c now rows ≡ false
    → authorize_fails true p c now (authorize true aid p c scopes now rows) ≡ false
unfolding authorize authorize_fails
authorize-passes aid p c scopes now rows h =
    let early : Authorization → Bool = λ a. is_current p c a && ltb now a.granted_at in
    let row : Authorization = record {
      authorization_id = aid;
      principal_id = p;
      client_id = c;
      scopes = scopes;
      granted_at = now;
      updated_at = now;
      last_used_at = now;
      revoked_at = none;
    } in
    let gate = not (any (λ a. eq_text a.authorization_id aid || is_current p c a) rows) in
    any-update_same (is_current p c)
      (λ a. record a { scopes = scopes; updated_at = now; last_used_at = now }) early
      (insert_if gate row rows) (λ r. refl)
    ∙ elim (Bool-cases gate) [
      | inl e ↦ ground (arith, e, h, any-append early rows (row ∷ []))
      | inr e ↦ ground (arith, e, h)
    ]

-- The family of a commit, and its first token, are stored beside those that were there.
pub record Stored (g : CodeGrant) (f : NewFamily) (now expires : ℕ) (db db' : Db) : Type 0 where
  pub families : db'.families ≡ db.families ++ code_family g f.0 expires ∷ []
  pub tokens : db'.tokens ≡ db.tokens ++ first_token f.0 f.1 f.2 now expires ∷ []

start_family-Stored :
    (g : CodeGrant) (f : NewFamily) (now expires : ℕ) (db db' : Db)
    → start_family g (some f) now expires db ≡ some db'
    → Stored g f now expires db db' × (db'.authorizations ≡ db.authorizations)
unfolding start_family
start_family-Stored g f now expires db db' h =
    (record { families = ground arith; tokens = ground arith }, ground arith)

settle_use-Stored :
    (g : CodeGrant) (rd : Digest) (f : NewFamily) (aid : Text) (now expires : ℕ) (db db' : Db)
    → settle_use g rd (some f) aid now expires db ≡ some db'
    → Stored g f now expires db db'
      × (authorize_fails true g.principal_id g.client_id now db'.authorizations ≡ false)
unfolding settle_use
settle_use-Stored g rd f aid now expires db db' h =
    elim (Bool-cases (authorize_fails true g.principal_id g.client_id now db.authorizations)) [
      | inl e ↦ absurd (ground (arith, e))
      | inr e ↦
          let (begun, kept) =
            start_family-Stored g f now expires (with_authorization g aid now db) db'
              (ground (arith, e)) in
          (
            record { families = begun.families; tokens = begun.tokens },
            ap (authorize_fails true g.principal_id g.client_id now) kept
                ∙ authorize-passes aid g.principal_id g.client_id (split_ascii_whitespace g.scope)
                    now db.authorizations e,
          )
    ]

consume_code-Stored :
    (db db' : Db) (g : CodeGrant) (rd : Digest) (f : NewFamily) (aid : Text) (now clock expires : ℕ)
    → consume_code db g rd (some f) aid now clock expires ≡ some db'
    → Stored g f now expires db db'
      × (authorize_fails true g.principal_id g.client_id now db'.authorizations ≡ false)
unfolding consume_code insert_use
consume_code-Stored db db' g rd f aid now clock expires h =
    elim (Bool-cases (may_redeem db g now)) [
      | inr e ↦ settle_use-Stored g rd f aid now expires db db' (ground (arith, e))
      | inl e ↦ elim (Bool-cases (use_fails db g.id now clock)) [
        | inl k ↦ absurd (ground (arith, e, k))
        | inr k ↦
            let (begun, passes) =
              settle_use-Stored g rd f aid now expires
                (record db {
                  codes = spend g.id now db.codes;
                  code_uses = db.code_uses ++ use_row g rd now ∷ [];
                })
                db' (ground (arith, e, k)) in
            (record { families = begun.families; tokens = begun.tokens }, passes)
      ]
    ]

-- Whether a family and its token can be inserted.
abbrev pub is_new_family : NewFamily → ℕ → ℕ → Db → Bool
is_new_family f now expires db =
    not (any (λ r. eq_text r.family_id f.0) db.families)
    && not (any (clashes (first_token f.0 f.1 f.2 now expires)) db.tokens)
    && ltb now expires

-- And such a batch does commit, if its refresh family and token have new keys and expire later: the guard at
-- the end of the batch meets the use that the first one recorded. So of two requests with `offline_access` that
-- both read the code before either consumed it, with the same client, code and verifier and in the same second,
-- both commit, and each stores a refresh family and an active token of its own.
pub consume_code_again :
    (db db' : Db) (g : CodeGrant) (rd : Digest) (f f' : NewFamily) (aid aid' : Text)
    (now clock clock' expires expires' : ℕ)
    → may_redeem db g now ≡ true
    → consume_code db g rd (some f) aid now clock expires ≡ some db'
    → is_new_family f' now expires' db' ≡ true
    → (db'' : Db) × (consume_code db' g rd (some f') aid' now clock' expires' ≡ some db'')
      × (db''.families
          ≡ (db.families ++ code_family g f.0 expires ∷ []) ++ code_family g f'.0 expires' ∷ [])
      × (db''.tokens
          ≡ (db.tokens ++ first_token f.0 f.1 f.2 now expires ∷ [])
            ++ first_token f'.0 f'.1 f'.2 now expires' ∷ [])
consume_code_again db db' g rd f f' aid aid' now clock clock' expires expires' gate h fresh =
    let r = won db db' g rd (some f) aid now clock expires gate h in
    let there : any (is_use g.id rd now) db'.code_uses ≡ true =
      ap (any (is_use g.id rd now)) r.uses
      ∙ any-append_one (is_use g.id rd now) db.code_uses (use_row g rd now)
          (unfold is_use in ground (arith, eq_text_refl g.id, eq_text_refl rd)) in
    let shut = may_redeem_spent db db' g now now r.codes in
    let (first, passes) = consume_code-Stored db db' g rd f aid now clock expires h in
    let next = with_authorization g aid' now db' in
    let begun : (x : Db) × (start_family g (some f') now expires' next ≡ some x) =
      unfold start_family in
      (
        record next {
          families = next.families ++ code_family g f'.0 expires' ∷ [];
          tokens = next.tokens ++ first_token f'.0 f'.1 f'.2 now expires' ∷ [];
        },
        ground (arith, fresh),
      ) in
    let again : consume_code db' g rd (some f') aid' now clock' expires' ≡ some begun.0 =
      unfold consume_code insert_use settle_use in ground (arith, there, shut, passes, begun.1) in
    let (second, kept) = consume_code-Stored db' begun.0 g rd f' aid' now clock' expires' again in
    (
      begun.0,
      again,
      second.families
          ∙ ap (λ (x : List Family). x ++ code_family g f'.0 expires' ∷ []) first.families,
      second.tokens
          ∙ ap (λ (x : List RefreshToken). x ++ first_token f'.0 f'.1 f'.2 now expires' ∷ [])
              first.tokens,
    )
