-- ===== src/Oauth/Codes/Single.antt =====
-- One code for each transaction, whatever comes between.
use moesegfault_indentity.Base.{
  ℕ, ◌≡◌, refl, sym, ◌∙◌, Bool, true, false, some, List, [], ◌∷◌, any, any-append, inl, inr, arith,
  Option-cases,
}
use moesegfault_indentity.Base.Text.{Text, eq_text}
use moesegfault_indentity.Base.Text.Ascii.{eq_text_iff}
use moesegfault_indentity.Secret.{Crypto, Digest}
use moesegfault_indentity.Store.{Db}
use moesegfault_indentity.Store.Codes.{Code}
use moesegfault_indentity.Store.Sql.{any_imp, any-append_one}
use moesegfault_indentity.Guard.{Env}
use moesegfault_indentity.Oauth.Issue.{Issuance, Signer}
use moesegfault_indentity.Oauth.Logout.{logout_session}
use moesegfault_indentity.Oauth.Codes.{issue_authorization_code, code_clashes}
use moesegfault_indentity.Oauth.Codes.Phase.{any-spend}
use moesegfault_indentity.Oauth.Codes.Exchange.{request_digest}
use moesegfault_indentity.Oauth.Codes.Batch.{consume_code-cases}
use moesegfault_indentity.Oauth.Codes.Runs.{exchange_code-cases}
use moesegfault_indentity.Oauth.Codes.Issued.{issue-cases, Inserted-for}
use moesegfault_indentity.Oauth.Codes.Trace.{
  Request, exchange, complete_transaction, log_out, handle, serve,
}

abbrev is_code_for : Text → Code → Bool
is_code_for id c = eq_text c.transaction_id id

module _ (crypto : Crypto) (env : Env) (i : Issuance) (signer : Signer) (id : Text) where
  handle_keeps :
      (r : Request) (db : Db)
      → any (is_code_for id) db.codes ≡ true
      → any (is_code_for id) (handle crypto env i signer r db).codes ≡ true
  unfolding handle logout_session
  handle_keeps (exchange client draw clock fields now) db h =
      elim (exchange_code-cases crypto env i signer client draw clock db fields now) [
        | inl u ↦ rw u.same.codes h
        | inr x ↦
            elim (consume_code-cases x.run.mid x.g (request_digest crypto env client.client_id x.p)
              x.run.family draw.authorization_id now clock x.run.expires _ x.run.ran) [
                | inl r ↦
                    rw (r.codes, x.run.same.codes)
                      (any-spend x.g.id now (is_code_for id) db.codes (λ c. refl) ∙ h)
                | inr r ↦ rw (r.codes, x.run.same.codes) h
              ]
      ]
  handle_keeps (complete_transaction t code_id digest session principal now expires) db h =
      elim (Option-cases
        (issue_authorization_code db t code_id digest session principal now expires)) [
          | inl e ↦ rw e h
          | inr ((db', b), e) ↦
              rw e (elim (issue-cases db t code_id digest session principal now expires db' b e) [
                | inl r ↦ rw r.1 h
                | inr r ↦
                    rw r.1.codes
                      (any-append (is_code_for id) db.codes (r.1.c ∷ []) ∙ ground (arith, h))
              ])
        ]
  handle_keeps (log_out session_id now) db h = h

  serve_keeps :
      (rs : List Request) (db : Db)
      → any (is_code_for id) db.codes ≡ true
      → any (is_code_for id) (serve crypto env i signer rs db).codes ≡ true
  unfolding serve
  serve_keeps [] db h = h
  serve_keeps (r ∷ rs) db h = serve_keeps rs (handle crypto env i signer r db) (handle_keeps r db h)

  -- No transaction gets a second code: after an issue has returned `true`, no issue for the same transaction
  -- does, whatever the session, the code and the time, and whatever issues, exchanges and logouts come between.
  pub issue_twice :
      (db db' db'' : Db) (code_id code_id' : Text) (digest digest' : Digest)
      (session session' principal principal' : Text) (now now' expires expires' : ℕ)
      (rs : List Request) (b : Bool)
      → issue_authorization_code db id code_id digest session principal now expires
        ≡ some (db', true)
      → issue_authorization_code
          (serve crypto env i signer rs db')
          id
          code_id'
          digest'
          session'
          principal'
          now'
          expires'
        ≡ some (db'', b)
      → b ≡ false
  issue_twice db db' db'' code_id code_id' digest digest' session session' principal principal' now
        now' expires expires' rs b h k =
      let mid = serve crypto env i signer rs db' in
      elim (issue-cases mid id code_id' digest' session' principal' now' expires' db'' b k) [
        | inl r ↦ r.0
        | inr s ↦ elim (issue-cases db id code_id digest session principal now expires db' true h) [
          | inl r ↦ absurd (ground (arith, r.0))
          | inr r ↦
              let mine = Inserted-for db db' id code_id digest now expires r.1 in
              let yours = Inserted-for mid db'' id code_id' digest' now' expires' s.1 in
              let there : any (is_code_for id) db'.codes ≡ true = rw r.1.codes (
                any-append_one (is_code_for id) db.codes r.1.c
                  ((eq_text_iff r.1.c.transaction_id id).1 mine)) in
              let clash : any (code_clashes s.1.c) mid.codes ≡ true =
                any_imp (is_code_for id) (code_clashes s.1.c) mid.codes
                  (λ c e.
                    unfold code_clashes in
                    ground (
                      arith,
                      (eq_text_iff c.transaction_id s.1.c.transaction_id).1
                          ((eq_text_iff c.transaction_id id).0 e ∙ sym yours),
                    ))
                  (serve_keeps rs db' there) in
              absurd (ground (arith, s.1.fresh, clash))
        ]
      ]
