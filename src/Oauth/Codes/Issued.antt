-- ===== src/Oauth/Codes/Issued.antt =====
-- `issue_authorization_code`: one code for a transaction, with what the transaction holds.
use moesegfault_indentity.Base.{
  ℕ, ◌≡◌, refl, ap, ◌∙◌, Bool, true, false, ◌&&◌, ◌||◌, Option, none, some, List, [], ◌∷◌, ◌++◌,
  any, find, leb, ◌⊎◌, inl, inr, arith, Bool-cases, Option-cases, any-append, ||-eq-false,
}
use moesegfault_indentity.Base.Text.{Text, eq_text}
use moesegfault_indentity.Base.Text.Ascii.{eq_text_iff}
use moesegfault_indentity.Secret.{Digest}
use moesegfault_indentity.Store.{Db}
use moesegfault_indentity.Store.Codes.{Transaction, Code, CodeUse}
use moesegfault_indentity.Store.Sql.{update, found, any_imp}
use moesegfault_indentity.Oauth.Codes.{
  may_complete, complete, is_completed_at, code_of, code_clashes, insert_code,
  issue_authorization_code, is_presented, is_unspent,
}
use moesegfault_indentity.Oauth.Codes.Phase.{
  phase, holds, Advance, stay, Distinct-append, Advance-append,
}
use moesegfault_indentity.Oauth.Codes.Life.{is_loose, CodesValid}

-- What an issue that returns `true` has inserted: the code of a transaction that is completed now.
pub record Inserted (db : Db) (id code_id : Text) (digest : Digest) (now expires : ℕ) (db' : Db)
    : Type 0 where
  pub t : Transaction
  pub c : Code
  pub done : is_completed_at id now t ≡ true
  pub found : find (is_completed_at id now) db'.transactions ≡ some t
  pub row : code_of code_id digest now expires t t.principal_id t.session_id ≡ some c
  pub fresh : any (code_clashes c) db.codes ≡ false
  pub codes : db'.codes ≡ db.codes ++ c ∷ []
  pub uses : db'.code_uses ≡ db.code_uses

module _ (db : Db) (id code_id : Text) (digest : Digest) (session principal : Text)
    (now expires : ℕ) where
  abbrev rows : List Transaction
  rows = update (may_complete db id session principal now) (complete now) db.transactions

  abbrev completed_db : Db
  completed_db = record db { transactions = rows }

  pub issue-cases :
      (db' : Db) (b : Bool)
      → issue_authorization_code db id code_id digest session principal now expires ≡ some (db', b)
      → ((b ≡ false) × (db'.codes ≡ db.codes) × (db'.code_uses ≡ db.code_uses))
        ⊎ ((b ≡ true) × Inserted db id code_id digest now expires db')
  unfolding issue_authorization_code insert_code
  issue-cases db' b h = elim (Option-cases (find (is_completed_at id now) rows)) [
    | inl e ↦ inl (ground (arith, e))
    | inr (t, e) ↦
        elim (Option-cases (code_of code_id digest now expires t t.principal_id t.session_id)) [
          | inl k ↦ absurd (ground (arith, e, k))
          | inr (c, k) ↦
              elim (Bool-cases (any (code_clashes c) db.codes || leb c.expires_at c.issued_at)) [
                | inl n ↦ absurd (ground (arith, e, k, n))
                | inr n ↦
                    let out : db' ≡ record completed_db { codes = db.codes ++ c ∷ [] } =
                      ground (arith, e, k, n) in
                    inr (
                      ground (arith, e, k, n),
                      record {
                        t = t;
                        c = c;
                        done = found _ rows t e;
                        found =
                            ap (λ (x : Db). find (is_completed_at id now) x.transactions) out ∙ e;
                        row = k;
                        fresh = (||-eq-false _ _ n).0;
                        codes = ap (λ (x : Db). x.codes) out;
                        uses = ap (λ (x : Db). x.code_uses) out;
                      },
                    )
              ]
        ]
  ]

pub issue-transactions :
    (db db' : Db) (id code_id : Text) (digest : Digest) (session principal : Text) (now expires : ℕ)
    (b : Bool)
    → issue_authorization_code db id code_id digest session principal now expires ≡ some (db', b)
    → db'.transactions
      ≡ update (may_complete db id session principal now) (complete now) db.transactions
unfolding issue_authorization_code insert_code
issue-transactions db db' id code_id digest session principal now expires b h =
    elim (Option-cases
      (find (is_completed_at id now) (rows db id code_id digest session principal now expires))) [
        | inl e ↦ ground (arith, e)
        | inr (t, e) ↦
            elim (Option-cases (code_of code_id digest now expires t t.principal_id t.session_id)) [
              | inl k ↦ absurd (ground (arith, e, k))
              | inr (c, k) ↦ ground (arith, e, k)
            ]
      ]

pub code_of_row :
    (code_id : Text) (digest : Digest) (now expires : ℕ) (t : Transaction) (p s : Option Text)
    (c : Code)
    → code_of code_id digest now expires t p s ≡ some c
    → (c.transaction_id ≡ t.id)
      × (c.digest ≡ digest)
      × (is_unspent c ≡ true)
      × (c.client_id ≡ t.client_id)
      × (c.redirect_uri ≡ t.redirect_uri)
      × (c.scope ≡ t.scope)
      × (c.nonce ≡ t.nonce)
      × (c.code_challenge ≡ t.code_challenge)
      × (some c.principal_id ≡ p)
      × (some c.session_id ≡ s)
code_of_row code_id digest now expires t (some p) (some s) c h = ground arith
code_of_row code_id digest now expires t none s c h = cc
code_of_row code_id digest now expires t (some p) none c h = cc

settled_other :
    (cs : List Code) (c : Code) (u : CodeUse)
    → any (code_clashes c) cs ≡ false
    → is_loose cs u ≡ false
    → eq_text c.id u.code_id ≡ false
settled_other cs c u h k = elim (Bool-cases (eq_text c.id u.code_id)) [
  | inr e ↦ e
  | inl e ↦
      let there : any (λ (r : Code). eq_text r.id u.code_id) cs ≡ true =
        unfold is_loose in ground (arith, k) in
      let same : c.id ≡ u.code_id = (eq_text_iff c.id u.code_id).0 e in
      let clash : any (code_clashes c) cs ≡ true =
        any_imp (λ (r : Code). eq_text r.id u.code_id) (code_clashes c) cs
          (λ r q. unfold code_clashes in rw same (ground (arith, q))) there in
      absurd (ground (arith, h, clash))
]

-- A row that clashes with none leaves every use settled.
is_loose-append :
    (cs : List Code) (c : Code) (us : List CodeUse)
    → any (code_clashes c) cs ≡ false
    → any (is_loose cs) us ≡ false
    → any (is_loose (cs ++ c ∷ [])) us ≡ false
is_loose-append cs c [] h k = refl
is_loose-append cs c (u ∷ us) h k =
    let parts = ||-eq-false (is_loose cs u) (any (is_loose cs) us) k in
    let other : eq_text c.id u.code_id ≡ false = settled_other cs c u h parts.0 in
    let head : is_loose (cs ++ c ∷ []) u ≡ false =
      unfold is_loose in
      ground (
        arith,
        parts.0,
        other,
        any-append (λ r. eq_text r.id u.code_id) cs (c ∷ []),
        any-append (λ r. eq_text r.id u.code_id && is_unspent r) cs (c ∷ []),
      ) in
    ground (arith, head, is_loose-append cs c us h parts.1)

Inserted-CodesValid :
    (db db' : Db) (id code_id : Text) (digest : Digest) (now expires : ℕ)
    → Inserted db id code_id digest now expires db'
    → CodesValid db.codes db.code_uses
    → CodesValid db'.codes db'.code_uses
Inserted-CodesValid db db' id code_id digest now expires r v =
    rw (r.codes, r.uses)
      (record {
        distinct = Distinct-append db.codes r.c v.distinct r.fresh;
        applied = is_loose-append db.codes r.c db.code_uses r.fresh v.applied;
      })

inserted-Advance :
    (db db' : Db) (id code_id : Text) (digest d : Digest) (now expires : ℕ)
    → Inserted db id code_id digest now expires db'
    → Advance (phase d db.codes) (phase d db'.codes)
inserted-Advance db db' id code_id digest d now expires r =
    let unused =
      (code_of_row code_id digest now expires r.t r.t.principal_id r.t.session_id r.c r.row).2 in
    rw r.codes
      (Advance-append d db.codes r.c r.fresh (unfold is_presented holds in ground (arith, unused)))

module _ (db db' : Db) (id code_id : Text) (digest : Digest) (session principal : Text)
    (now expires : ℕ) (b : Bool)
    (run : issue_authorization_code db id code_id digest session principal now expires
      ≡ some (db', b)) where
  -- An issue keeps the codes unique, and each used code spent.
  pub issue-CodesValid : CodesValid db.codes db.code_uses → CodesValid db'.codes db'.code_uses
  issue-CodesValid v =
      elim (issue-cases db id code_id digest session principal now expires db' b run) [
        | inl r ↦ rw (r.1, r.2) v
        | inr r ↦ Inserted-CodesValid db db' id code_id digest now expires r.1 v
      ]

  -- Every digest stays where it is in its life, or goes from absent to redeemable.
  pub issue-Advance : (d : Digest) → Advance (phase d db.codes) (phase d db'.codes)
  issue-Advance d =
      elim (issue-cases db id code_id digest session principal now expires db' b run) [
        | inl r ↦ rw r.1 (stay _)
        | inr r ↦ inserted-Advance db db' id code_id digest d now expires r.1
      ]

-- The code that an issue inserted belongs to the transaction.
pub Inserted-for :
    (db db' : Db) (id code_id : Text) (digest : Digest) (now expires : ℕ)
    (r : Inserted db id code_id digest now expires db')
    → r.c.transaction_id ≡ id
unfolding is_completed_at
Inserted-for db db' id code_id digest now expires r =
    (code_of_row code_id digest now expires r.t r.t.principal_id r.t.session_id r.c r.row).0
    ∙ (eq_text_iff r.t.id id).0 (ground (arith, r.done))
