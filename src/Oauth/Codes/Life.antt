-- ===== src/Oauth/Codes/Life.antt =====
-- The authorization-code grant against the life of a code.
use moesegfault_indentity.Base.{
  ℕ, ◌≡◌, refl, sym, ap, ◌∙◌, Bool, true, false, not, ◌&&◌, ◌||◌, Option, none, some, List, [], ◌∷◌,
  any, find, inl, inr, arith, Option-cases, any-append, ||-eq-false, &&-eq-true,
}
use moesegfault_indentity.Base.Text.{Text, eq_text}
use moesegfault_indentity.Base.Text.Ascii.{eq_text_refl, eq_text_iff}
use moesegfault_indentity.Secret.{Crypto, Digest}
use moesegfault_indentity.Store.{Db, Session, Profile, Username, Client}
use moesegfault_indentity.Store.Codes.{Code, CodeUse}
use moesegfault_indentity.Store.Sql.{found, any-found, any_imp, any_narrow, any-update_none}
use moesegfault_indentity.Guard.{Env}
use moesegfault_indentity.Oauth.Issue.{OauthClient, Issuance, Signer, Draw}
use moesegfault_indentity.Oauth.Codes.{
  CodeGrant, is_unspent, is_presented, join_code, code_grant, authorization_code,
}
use moesegfault_indentity.Oauth.Codes.Consume.{may_redeem, is_redeemable, is_use, spend}
use moesegfault_indentity.Oauth.Codes.Exchange.{
  Presented, presented_code, code_digest, request_digest, exchange_code,
}
use moesegfault_indentity.Oauth.Codes.Phase.{
  redeemable, spent, phase, holds, Spending, unmoved, Distinct, Distinct-spend, Spending-spend,
  spend-found, any-spend, is_presented-holds,
}
use moesegfault_indentity.Oauth.Codes.Batch.{Redeemed, use_row, consume_code-cases}
use moesegfault_indentity.Oauth.Codes.Once.{none_unspent}
use moesegfault_indentity.Oauth.Codes.Runs.{Exchanged, exchange_code-cases}
use moesegfault_indentity.Oauth.Exchange.{Reply}
use moesegfault_indentity.Oauth.Exchange.Runs.{is_issued}

-- A use whose code is missing or not yet spent.
unfoldable pub is_loose : List Code → CodeUse → Bool
is_loose codes u =
    not (any (λ c. eq_text c.id u.code_id) codes)
    || any (λ c. eq_text c.id u.code_id && is_unspent c) codes

-- The constraints hold among the codes, and the trigger has marked each code that was used.
pub record CodesValid (codes : List Code) (uses : List CodeUse) : Type 0 where
  pub distinct : Distinct codes
  pub applied : any (is_loose codes) uses ≡ false

join_code_id :
    (c : Code) (s : Option Session) (p : Option Profile) (u : Option Username) (o : Option Client)
    (g : CodeGrant)
    → join_code c s p u o ≡ some g
    → g.id ≡ c.id
join_code_id c (some s) (some p) (some u) (some o) g h = ground arith
join_code_id c none p u o g h = cc
join_code_id c (some s) none u o g h = cc
join_code_id c (some s) (some p) none o g h = cc
join_code_id c (some s) (some p) (some u) none g h = cc

code_grant_id : (db : Db) (c : Code) (g : CodeGrant) → code_grant db c ≡ some g → g.id ≡ c.id
unfolding code_grant
code_grant_id db c g h = join_code_id c _ _ _ _ g h

-- The row that a grant was read from.
authorization_code_row :
    (db : Db) (d : Digest) (g : CodeGrant)
    → authorization_code db d ≡ some g
    → (c : Code) × (find (is_presented d) db.codes ≡ some c) × (c.id ≡ g.id)
unfolding authorization_code
authorization_code_row db d g h = elim (Option-cases (find (is_presented d) db.codes)) [
  | inl e ↦ absurd (ground (arith, e))
  | inr (c, e) ↦ (c, e, sym (code_grant_id db c g (ground (arith, e))))
]

module _ (id : Text) (now : ℕ) where
  is_loose-spend :
      (cs : List Code) (us : List CodeUse)
      → any (is_loose cs) us ≡ false
      → any (is_loose (spend id now cs)) us ≡ false
  is_loose-spend cs [] h = refl
  is_loose-spend cs (u ∷ us) h =
      let parts = ||-eq-false (is_loose cs u) (any (is_loose cs) us) h in
      let same = any-spend id now (λ c. eq_text c.id u.code_id) cs (λ r. refl) in
      let left : any (λ c. eq_text c.id u.code_id && is_unspent c) (spend id now cs) ≡ false =
        unfold spend in
        any-update_none _ _ _ cs (λ r e. ground arith)
          (unfold is_loose in ground (arith, parts.0)) in
      let head : is_loose (spend id now cs) u ≡ false =
        unfold is_loose in ground (arith, parts.0, same, left) in
      ground (arith, head, is_loose-spend cs us parts.1)

use_row_settled :
    (db : Db) (g : CodeGrant) (rd : Digest) (now : ℕ)
    → may_redeem db g now ≡ true
    → is_loose (spend g.id now db.codes) (use_row g rd now) ≡ false
unfolding is_loose
use_row_settled db g rd now gate =
    let gated : any (is_redeemable g now) db.codes ≡ true =
      unfold may_redeem in (&&-eq-true _ _ (&&-eq-true _ _ gate).0).0 in
    let there : any (λ (c : Code). eq_text c.id g.id) db.codes ≡ true =
      any_imp (is_redeemable g now) _ db.codes (λ r e. unfold is_redeemable in ground arith)
        gated in
    ground (
      arith,
      there,
      any-spend g.id now (λ c. eq_text c.id g.id) db.codes (λ r. refl),
      none_unspent g.id now db.codes,
    )

Redeemed-CodesValid :
    (db db' : Db) (g : CodeGrant) (rd : Digest) (now clock : ℕ)
    → Redeemed db g rd now clock db'
    → CodesValid db.codes db.code_uses
    → CodesValid db'.codes db'.code_uses
Redeemed-CodesValid db db' g rd now clock r v =
    rw (r.codes, r.uses)
      (record {
        distinct = Distinct-spend g.id now db.codes v.distinct;
        applied =
            any-append _ db.code_uses (use_row g rd now ∷ [])
            ∙ ground (
              arith,
              is_loose-spend g.id now db.codes db.code_uses v.applied,
              use_row_settled db g rd now r.gate,
            );
      })

found_unspent :
    (d : Digest) (cs : List Code) (c : Code)
    → find (is_presented d) cs ≡ some c
    → any (λ r. eq_text r.id c.id && is_unspent r) cs ≡ true
found_unspent d cs c h =
    any-found _ (is_presented d) cs c h
      (unfold is_presented in ground (arith, found (is_presented d) cs c h, eq_text_refl c.id))

-- A code that is still presented has no use.
fresh_use :
    (codes : List Code) (uses : List CodeUse) (d rd : Digest) (c : Code) (now : ℕ)
    → CodesValid codes uses
    → find (is_presented d) codes ≡ some c
    → any (is_use c.id rd now) uses ≡ false
fresh_use codes uses d rd c now v h =
    any_narrow (is_use c.id rd now) (is_loose codes) uses
      (λ u e.
        let mine : u.code_id ≡ c.id =
          (eq_text_iff u.code_id c.id).0 (unfold is_use in ground (arith, e)) in
        unfold is_loose in rw mine (ground (arith, found_unspent d codes c h)))
      v.applied

-- A code that is found is redeemable, and once its row is spent it is spent.
found-phases :
    (id : Text) (now : ℕ) (d : Digest) (cs : List Code) (c : Code)
    → Distinct cs
    → find (is_presented d) cs ≡ some c
    → c.id ≡ id
    → (phase d cs ≡ redeemable) × (phase d (spend id now cs) ≡ spent)
unfolding phase
found-phases id now d cs c u h e =
    let there =
      any-found (is_presented d) (is_presented d) cs c h (found (is_presented d) cs c h) in
    let same : any (holds d) (spend id now cs) ≡ any (holds d) cs =
      unfold holds in any-spend id now (holds d) cs (λ r. refl) in
    let held : any (holds d) (spend id now cs) ≡ true =
      same ∙ any_imp _ _ cs (λ r e. is_presented-holds d r e) there in
    (rw there, rw (spend-found id now d cs c u h e, held))

module _ (crypto : Crypto) (env : Env) (i : Issuance) (signer : Signer) (client : OauthClient)
    (draw : Draw) (clock : ℕ) (db : Db) (fields : List (Text × Text)) (now : ℕ) where
  abbrev after : Db × Reply
  after = exchange_code crypto env i signer client draw clock db fields now

  -- An exchange that ran a batch has redeemed the code that it found.
  pub Exchanged-Redeemed :
      (v : CodesValid db.codes db.code_uses)
      (x : Exchanged crypto env i signer client draw clock db fields now after)
      → Redeemed x.run.mid x.g (request_digest crypto env client.client_id x.p) now clock after.0
  Exchanged-Redeemed v x =
      let rd = request_digest crypto env client.client_id x.p in
      elim (consume_code-cases x.run.mid x.g rd x.run.family draw.authorization_id now clock
        x.run.expires after.0 x.run.ran) [
          | inl r ↦ r
          | inr r ↦
              let (c, there, same) = authorization_code_row db x.digest x.g x.found in
              let unused = fresh_use db.codes db.code_uses x.digest rd c now v there in
              absurd (
                ground (
                  arith,
                  r.there,
                  ap (any (is_use x.g.id rd now)) x.run.same.code_uses,
                  ap (λ (k : Text). any (is_use k rd now) db.code_uses) same,
                  unused,
                ))
        ]

  -- An exchange keeps the codes unique, and each used code spent.
  pub exchange_code-CodesValid :
      CodesValid db.codes db.code_uses → CodesValid after.0.codes after.0.code_uses
  exchange_code-CodesValid v =
      elim (exchange_code-cases crypto env i signer client draw clock db fields now) [
        | inl u ↦ rw (u.same.codes, u.same.code_uses) v
        | inr x ↦
            Redeemed-CodesValid x.run.mid after.0 x.g
              (request_digest crypto env client.client_id x.p) now clock (Exchanged-Redeemed v x)
              (rw (x.run.same.codes, x.run.same.code_uses) v)
      ]

  -- Where the constraints on the codes and their uses hold, an exchange, whatever it is given, leaves every code
  -- where it is in its life, or takes it from redeemable to spent: it makes no code redeemable.
  pub exchange_code-Spending :
      CodesValid db.codes db.code_uses
      → (d : Digest) → Spending (phase d db.codes) (phase d after.0.codes)
  exchange_code-Spending v d =
      elim (exchange_code-cases crypto env i signer client draw clock db fields now) [
        | inl u ↦ rw u.same.codes (unmoved _)
        | inr x ↦
            rw ((Exchanged-Redeemed v x).codes, x.run.same.codes)
              (Spending-spend x.g.id now d db.codes)
      ]

  pub exchange_code_redeems :
      CodesValid db.codes db.code_uses
      → is_issued after.1 ≡ true
      → (d : Digest) × (p : Presented) × (presented_code fields ≡ some p)
        × (code_digest crypto env p.code ≡ some d)
        × (phase d db.codes ≡ redeemable)
        × (phase d after.0.codes ≡ spent)
  exchange_code_redeems v h =
      elim (exchange_code-cases crypto env i signer client draw clock db fields now) [
        | inl u ↦ absurd (ground (arith, h, u.kept))
        | inr x ↦
            let (c, there, same) = authorization_code_row db x.digest x.g x.found in
            let phases = found-phases x.g.id now x.digest db.codes c v.distinct there same in
            let moved : after.0.codes ≡ spend x.g.id now db.codes =
              (Exchanged-Redeemed v x).codes ∙ ap (spend x.g.id now) x.run.same.codes in
            (x.digest, x.p, x.form, x.hashed, phases.0, ap (phase x.digest) moved ∙ phases.1)
      ]
