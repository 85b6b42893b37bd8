-- ===== src/Oauth/Codes/Batch.antt =====
-- What a batch of `consume_code` that D1 commits has done.
use moesegfault_indentity.Base.{
  ℕ, ◌≡◌, true, false, Option, none, some, [], ◌∷◌, ◌++◌, any, ◌⊎◌, inl, inr, arith, Bool-cases,
}
use moesegfault_indentity.Base.Text.{Text, split_ascii_whitespace}
use moesegfault_indentity.Secret.{Digest}
use moesegfault_indentity.Store.{Db}
use moesegfault_indentity.Store.Codes.{CodeUse}
use moesegfault_indentity.Device.Repository.{NewFamily, authorize}
use moesegfault_indentity.Oauth.Codes.{CodeGrant}
use moesegfault_indentity.Oauth.Codes.Consume.{
  may_redeem, use_fails, spend, insert_use, is_use, start_family, settle_use, consume_code,
}

abbrev pub use_row : CodeGrant → Digest → ℕ → CodeUse
use_row g rd now = record { code_id = g.id; request_digest = rd; used_at = now }

start_family_rows :
    (g : CodeGrant) (f : Option NewFamily) (now expires : ℕ) (db db' : Db)
    → start_family g f now expires db ≡ some db'
    → (db'.codes ≡ db.codes) × (db'.code_uses ≡ db.code_uses) × (db'.sessions ≡ db.sessions)
unfolding start_family
start_family_rows g none now expires db db' h = ground arith
start_family_rows g (some f) now expires db db' h = ground arith

-- The state after the statements on `oauth_user_authorizations`.
abbrev pub with_authorization : CodeGrant → Text → ℕ → Db → Db
with_authorization g aid now db = record db {
  authorizations =
      authorize true aid g.principal_id g.client_id (split_ascii_whitespace g.scope) now
        db.authorizations;
}

-- The state after the first statement, with its triggers.
abbrev with_use : Db → CodeGrant → Digest → ℕ → Db
with_use db g rd now = record db {
  codes = spend g.id now db.codes;
  code_uses = db.code_uses ++ use_row g rd now ∷ [];
}

settle_use_rows :
    (g : CodeGrant) (rd : Digest) (f : Option NewFamily) (aid : Text) (now expires : ℕ)
    (db db' : Db)
    → settle_use g rd f aid now expires db ≡ some db'
    → (any (is_use g.id rd now) db.code_uses ≡ true)
      × (db'.codes ≡ db.codes)
      × (db'.code_uses ≡ db.code_uses)
      × (db'.sessions ≡ db.sessions)
unfolding settle_use
settle_use_rows g rd f aid now expires db db' h =
    elim (Bool-cases (any (is_use g.id rd now) db.code_uses)) [
      | inl e ↦
          let r =
            start_family_rows g f now expires (with_authorization g aid now db) db'
              (ground (arith, e)) in
          (e, r.0, r.1, r.2)
      | inr e ↦ absurd (ground (arith, e))
    ]

-- The batch spent the code, and recorded its use.
pub record Redeemed (db : Db) (g : CodeGrant) (rd : Digest) (now clock : ℕ) (db' : Db)
    : Type 0 where
  pub gate : may_redeem db g now ≡ true
  pub applied : use_fails db g.id now clock ≡ false
  pub codes : db'.codes ≡ spend g.id now db.codes
  pub uses : db'.code_uses ≡ db.code_uses ++ use_row g rd now ∷ []
  pub sessions : db'.sessions ≡ db.sessions

-- The gate selected no row, and the guard met a use that was there before.
pub record Repeated (db : Db) (g : CodeGrant) (rd : Digest) (now : ℕ) (db' : Db) : Type 0 where
  pub gate : may_redeem db g now ≡ false
  pub there : any (is_use g.id rd now) db.code_uses ≡ true
  pub codes : db'.codes ≡ db.codes
  pub uses : db'.code_uses ≡ db.code_uses
  pub sessions : db'.sessions ≡ db.sessions

module _ (db : Db) (g : CodeGrant) (rd : Digest) (f : Option NewFamily) (aid : Text)
    (now clock expires : ℕ) where
  pub consume_code-cases :
      (db' : Db)
      → consume_code db g rd f aid now clock expires ≡ some db'
      → Redeemed db g rd now clock db' ⊎ Repeated db g rd now db'
  unfolding consume_code insert_use
  consume_code-cases db' h = elim (Bool-cases (may_redeem db g now)) [
    | inl e ↦ elim (Bool-cases (use_fails db g.id now clock)) [
      | inl k ↦ absurd (ground (arith, e, k))
      | inr k ↦
          let r =
            settle_use_rows g rd f aid now expires (with_use db g rd now) db'
              (ground (arith, e, k)) in
          inl (record { gate = e; applied = k; codes = r.1; uses = r.2; sessions = r.3 })
    ]
    | inr e ↦
        let r = settle_use_rows g rd f aid now expires db db' (ground (arith, e)) in
        inr (record { gate = e; there = r.0; codes = r.1; uses = r.2; sessions = r.3 })
  ]
