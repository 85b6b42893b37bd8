-- ===== src/Oauth/Codes/Trace.antt =====
-- Any number of issues, exchanges and logouts after one another.
use moesegfault_indentity.Base.{
  ℕ, ◌≡◌, refl, sym, ap, ◌∙◌, Bool, true, false, Option, none, some, List, [], ◌∷◌, inl, inr, arith,
  Bool-cases, Option-cases,
}
use moesegfault_indentity.Base.Text.{Text}
use moesegfault_indentity.Secret.{Crypto, Digest}
use moesegfault_indentity.Store.{Db}
use moesegfault_indentity.Guard.{Env}
use moesegfault_indentity.Oauth.Issue.{OauthClient, Issuance, Signer, Draw}
use moesegfault_indentity.Oauth.Logout.{logout_session}
use moesegfault_indentity.Oauth.Codes.{issue_authorization_code}
use moesegfault_indentity.Oauth.Codes.Exchange.{
  Presented, presented_code, code_digest, exchange_code,
}
use moesegfault_indentity.Oauth.Codes.Phase.{
  Phase, redeemable, spent, phase, Advance, stay, issue, redeem, Spending-Advance,
}
use moesegfault_indentity.Oauth.Codes.Issued.{issue-CodesValid, issue-Advance}
use moesegfault_indentity.Oauth.Codes.Life.{
  CodesValid, exchange_code-CodesValid, exchange_code-Spending, exchange_code_redeems,
}
use moesegfault_indentity.Oauth.Exchange.Runs.{is_issued}

pub data Request : Type 0 where
  exchange : OauthClient → Draw → (clock : ℕ) → List (Text × Text) → (now : ℕ) → Request
  complete_transaction :
      (id code_id : Text) → Digest → (session_id principal_id : Text) → (now expires : ℕ) → Request
  log_out : (session_id : Text) → (now : ℕ) → Request

-- A batch that fails leaves the state as it was.
abbrev committed : Db → Option (Db × Bool) → Db
committed db none = db
committed db (some r) = r.0

spent-Advance : {p q : Phase} → Advance p q → p ≡ spent → q ≡ spent
spent-Advance (stay p) e = e
spent-Advance issue e = cc
spent-Advance redeem e = refl

module _ (crypto : Crypto) (env : Env) (i : Issuance) (signer : Signer) where
  unfoldable pub handle : Request → Db → Db
  handle (exchange client draw clock fields now) db =
      (exchange_code crypto env i signer client draw clock db fields now).0
  handle (complete_transaction id code_id digest session principal now expires) db =
      committed db (issue_authorization_code db id code_id digest session principal now expires)
  handle (log_out session_id now) db = logout_session db session_id now

  unfoldable pub serve : List Request → Db → Db
  serve [] db = db
  serve (r ∷ rs) db = serve rs (handle r db)

  handle-CodesValid :
      (r : Request) (db : Db)
      → CodesValid db.codes db.code_uses
      → CodesValid (handle r db).codes (handle r db).code_uses
  unfolding handle logout_session
  handle-CodesValid (exchange client draw clock fields now) db v =
      exchange_code-CodesValid crypto env i signer client draw clock db fields now v
  handle-CodesValid (complete_transaction id code_id digest session principal now expires) db v =
      elim (Option-cases
        (issue_authorization_code db id code_id digest session principal now expires)) [
          | inl e ↦ rw e v
          | inr ((db', b), e) ↦
              rw e (issue-CodesValid db db' id code_id digest session principal now expires b e v)
        ]
  handle-CodesValid (log_out session_id now) db v = v

  handle-Advance :
      (r : Request) (db : Db) (d : Digest)
      → CodesValid db.codes db.code_uses
      → Advance (phase d db.codes) (phase d (handle r db).codes)
  unfolding handle logout_session
  handle-Advance (exchange client draw clock fields now) db d v =
      Spending-Advance
        (exchange_code-Spending crypto env i signer client draw clock db fields now v d)
  handle-Advance (complete_transaction id code_id digest session principal now expires) db d v =
      elim (Option-cases
        (issue_authorization_code db id code_id digest session principal now expires)) [
          | inl e ↦ rw e (stay _)
          | inr ((db', b), e) ↦
              rw e (issue-Advance db db' id code_id digest session principal now expires b e d)
        ]
  handle-Advance (log_out session_id now) db d v = stay _

  serve_spent :
      (rs : List Request) (db : Db) (d : Digest)
      → CodesValid db.codes db.code_uses
      → phase d db.codes ≡ spent
      → (phase d (serve rs db).codes ≡ spent)
        × CodesValid (serve rs db).codes (serve rs db).code_uses
  unfolding serve
  serve_spent [] db d v e = (e, v)
  serve_spent (r ∷ rs) db d v e =
      serve_spent rs (handle r db) d (handle-CodesValid r db v)
        (spent-Advance (handle-Advance r db d v) e)

  -- Once an exchange has issued tokens for a code, no later exchange that presents the same code issues tokens,
  -- whichever client makes it, whatever else the form holds, and whatever issues, exchanges and logouts come
  -- between.
  pub code_redeemed_once :
      (db : Db) (client client' : OauthClient) (draw draw' : Draw) (clock clock' now now' : ℕ)
      (fields fields' : List (Text × Text)) (p p' : Presented) (rs : List Request)
      → CodesValid db.codes db.code_uses
      → presented_code fields ≡ some p
      → presented_code fields' ≡ some p'
      → p'.code ≡ p.code
      → is_issued (exchange_code crypto env i signer client draw clock db fields now).1 ≡ true
      → is_issued
          (exchange_code crypto env i signer client' draw' clock'
            (serve rs (exchange_code crypto env i signer client draw clock db fields now).0)
            fields'
            now').1
        ≡ false
  code_redeemed_once db client client' draw draw' clock clock' now now' fields fields' p p' rs v f
        f' same h =
      let first = exchange_code_redeems crypto env i signer client draw clock db fields now v h in
      let mid = (exchange_code crypto env i signer client draw clock db fields now).0 in
      let kept =
        serve_spent rs mid first.0
          (exchange_code-CodesValid crypto env i signer client draw clock db fields now v)
          first.5 in
      elim (Bool-cases (
        is_issued
          (exchange_code crypto env i signer client' draw' clock' (serve rs mid) fields' now').1)) [
            | inr e ↦ e
            | inl e ↦
                let second =
                  exchange_code_redeems crypto env i signer client' draw' clock' (serve rs mid)
                    fields' now' kept.1 e in
                let one : first.1 ≡ p = ground (arith, first.2, f) in
                let two : second.1 ≡ p' = ground (arith, second.2, f') in
                let code : second.1.code ≡ first.1.code =
                  ap (λ (x : Presented). x.code) two
                  ∙ same
                  ∙ sym (ap (λ (x : Presented). x.code) one) in
                let digests : some second.0 ≡ some first.0 =
                  sym second.3 ∙ ap (code_digest crypto env) code ∙ first.3 in
                let phases : redeemable ≡ spent =
                  sym second.4
                  ∙ ap (λ (d : Digest). phase d (serve rs mid).codes) (ground (arith, digests))
                  ∙ kept.0 in
                absurd (ground (arith, phases))
          ]
