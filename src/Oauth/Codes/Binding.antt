-- ===== src/Oauth/Codes/Binding.antt =====
-- A code carries what its transaction holds, for the session that resumed it.
use moesegfault_indentity.Base.{
  ℕ, ◌≡◌, refl, sym, ap, ◌∙◌, Bool, true, false, Option, none, some, List, [], ◌∷◌, any, find, inl,
  inr, arith, Bool-cases,
}
use moesegfault_indentity.Base.Text.{Text, eq_text}
use moesegfault_indentity.Base.Text.Ascii.{eq_text_iff}
use moesegfault_indentity.Secret.{Digest}
use moesegfault_indentity.Store.{Db, has_authority, is_enabled_client}
use moesegfault_indentity.Store.Codes.{
  Transaction, Code, TransactionState, awaiting_authentication, authenticated, completed, denied,
  expired, is_transaction_state,
}
use moesegfault_indentity.Store.Sql.{
  update, found, any-found, any_narrow, any-update_same, find-append_new, find-none,
}
use moesegfault_indentity.Device.Repository.{is_value}
use moesegfault_indentity.Oauth.Codes.{
  may_complete, complete, is_completed_at, code_clashes, is_presented, authorization_transaction,
  issue_authorization_code,
}
use moesegfault_indentity.Oauth.Codes.Phase.{holds-clashes, is_presented-holds}
use moesegfault_indentity.Oauth.Codes.Issued.{issue-cases, issue-transactions, code_of_row}

-- The primary key holds among the rows.
abbrev pub UniqueIds : List Transaction → Type 0
UniqueIds [] = Unit {0}
UniqueIds (t ∷ ts) = (any (λ r. eq_text r.id t.id) ts ≡ false) × UniqueIds ts

states_differ :
    (s : TransactionState)
    → is_transaction_state s authenticated ≡ true
    → is_transaction_state s completed ≡ false
states_differ awaiting_authentication h = cc
states_differ authenticated h = refl
states_differ completed h = cc
states_differ denied h = cc
states_differ expired h = cc

is_completed_at_complete :
    (id : Text) (now : ℕ) (t : Transaction)
    → eq_text t.id id ≡ true
    → is_completed_at id now (complete now t) ≡ true
unfolding is_completed_at complete
is_completed_at_complete id now t h = ground (arith, h)

authenticated-open :
    (id : Text) (now : ℕ) (t : Transaction)
    → is_transaction_state t.state authenticated ≡ true
    → is_completed_at id now t ≡ false
unfolding is_completed_at
authenticated-open id now t h = ground (arith, states_differ t.state h)

module _ (db : Db) (id session principal : Text) (now : ℕ) where
  abbrev completes : Transaction → Bool
  completes = may_complete db id session principal now

  head_only :
      (x : Transaction) (xs : List Transaction)
      → any (λ (r : Transaction). eq_text r.id x.id) xs ≡ false
      → eq_text x.id id ≡ true
      → any (is_completed_at id now) (update completes (complete now) xs) ≡ false
  head_only x xs u e =
      let same : x.id ≡ id = (eq_text_iff x.id id).0 e in
      let others : any (λ (r : Transaction). eq_text r.id id) xs ≡ false =
        ap (λ (k : Text). any (λ (r : Transaction). eq_text r.id k) xs) (sym same) ∙ u in
      any_narrow (is_completed_at id now) (λ (r : Transaction). eq_text r.id id)
        (update completes (complete now) xs) (λ r k. unfold is_completed_at in ground (arith, k))
        (any-update_same completes (complete now) (λ (r : Transaction). eq_text r.id id) xs
            (λ r. unfold complete in refl)
          ∙ others)

  -- The row that is completed now is the one that was authenticated.
  completed_row :
      (ts : List Transaction) (t r : Transaction)
      → UniqueIds ts
      → find (λ x. eq_text x.id id) ts ≡ some t
      → is_transaction_state t.state authenticated ≡ true
      → find (is_completed_at id now) (update completes (complete now) ts) ≡ some r
      → (completes t ≡ true) × (r ≡ complete now t)
  unfolding update
  completed_row [] t r u h a k = absurd (ground arith)
  completed_row (x ∷ xs) t r u h a k = elim (Bool-cases (eq_text x.id id)) [
    | inl e ↦
        let me : x ≡ t = ground (arith, e) in
        let rest = head_only x xs u.0 e in
        elim (Bool-cases (completes x)) [
          | inl c ↦ (
            ap completes (sym me) ∙ c,
            ground (arith, c, is_completed_at_complete id now x e) ∙ ap (complete now) me,
          )
          | inr c ↦
              let open_x =
                authenticated-open id now x
                  (ap (λ (y : Transaction). is_transaction_state y.state authenticated) me ∙ a) in
              let later : find (is_completed_at id now) (update completes (complete now) xs)
                  ≡ some r =
                ground (arith, c, open_x) in
              absurd (
                ground (
                  arith,
                  rest,
                  any-found (is_completed_at id now) (is_completed_at id now)
                      (update completes (complete now) xs) r later
                      (found (is_completed_at id now) (update completes (complete now) xs) r later),
                ))
        ]
    | inr e ↦
        let c : completes x ≡ false = unfold may_complete in ground (arith, e) in
        let open_x : is_completed_at id now x ≡ false =
          unfold is_completed_at in ground (arith, e) in
        completed_row xs t r u.1 (ground (arith, e)) a (ground (arith, c, open_x))
  ]

some_eq : {a b : Text} → some a ≡ some b → a ≡ b
some_eq h = ground arith

is_value-some : (o : Option Text) (v : Text) → is_value o v ≡ true → o ≡ some v
is_value-some none v h = cc
is_value-some (some w) v h = ap some ((eq_text_iff w v).0 h)

-- The code of a transaction that is authenticated carries the client, the redirect, the scope, the nonce and
-- the challenge of the transaction, belongs to the principal and the session that resumed it, whose authority
-- is in force, and is found by the digest it was issued under.
pub issue_binds :
    (db db' : Db) (id code_id : Text) (digest : Digest) (session principal : Text) (now expires : ℕ)
    (t : Transaction)
    → UniqueIds db.transactions
    → authorization_transaction db id ≡ some t
    → is_transaction_state t.state authenticated ≡ true
    → issue_authorization_code db id code_id digest session principal now expires ≡ some (db', true)
    → (c : Code) × (find (is_presented digest) db'.codes ≡ some c)
      × (c.client_id ≡ t.client_id)
      × (c.redirect_uri ≡ t.redirect_uri)
      × (c.scope ≡ t.scope)
      × (c.nonce ≡ t.nonce)
      × (c.code_challenge ≡ t.code_challenge)
      × (c.principal_id ≡ principal)
      × (c.session_id ≡ session)
      × (has_authority db principal session now ≡ true)
      × (is_enabled_client db t.client_id ≡ true)
unfolding authorization_transaction complete
issue_binds db db' id code_id digest session principal now expires t u at open_t run =
    elim (issue-cases db id code_id digest session principal now expires db' true run) [
      | inl r ↦ absurd (ground (arith, r.0))
      | inr r ↦
          let x = r.1 in
          let c = x.c in
          let row =
            code_of_row code_id digest now expires x.t x.t.principal_id x.t.session_id c x.row in
          let done : find (is_completed_at id now)
                (update (may_complete db id session principal now) (complete now) db.transactions)
              ≡ some x.t =
            ap (find (is_completed_at id now)) (
              sym (
                issue-transactions db db' id code_id digest session principal now expires true run))
            ∙ x.found in
          let (may, same) =
            completed_row db id session principal now db.transactions t x.t u at open_t done in
          let mine : is_presented digest c ≡ true =
            unfold is_presented in ground (arith, row.2, (eq_text_iff c.digest digest).1 row.1) in
          let unseen : any (is_presented digest) db.codes ≡ false =
            any_narrow (is_presented digest) (code_clashes c) db.codes
              (λ k q.
                holds-clashes digest c k (is_presented-holds digest c mine)
                  (is_presented-holds digest k q))
              x.fresh in
          let parts : (is_value t.session_id session ≡ true)
              × (is_value t.principal_id principal ≡ true)
              × (has_authority db principal session now ≡ true)
              × (is_enabled_client db t.client_id ≡ true) =
            unfold may_complete in
            (ground (arith, may), ground (arith, may), ground (arith, may), ground (arith, may)) in
          (
            c,
            ap (find (is_presented digest)) x.codes
                ∙ find-append_new (is_presented digest) db.codes c
                    (find-none (is_presented digest) db.codes unseen) mine,
            row.3 ∙ ap (λ (k : Transaction). k.client_id) same,
            row.4 ∙ ap (λ (k : Transaction). k.redirect_uri) same,
            row.5 ∙ ap (λ (k : Transaction). k.scope) same,
            row.6 ∙ ap (λ (k : Transaction). k.nonce) same,
            row.7 ∙ ap (λ (k : Transaction). k.code_challenge) same,
            some_eq (
                row.8
                ∙ ap (λ (k : Transaction). k.principal_id) same
                ∙ is_value-some t.principal_id principal parts.1),
            some_eq (
                row.9
                ∙ ap (λ (k : Transaction). k.session_id) same
                ∙ is_value-some t.session_id session parts.0),
            parts.2,
            parts.3,
          )
    ]
