-- ===== src/Oauth/Codes/Authority.antt =====
-- What an exchange of a code that issues tokens has checked.
use moesegfault_indentity.Base.{
  ℕ, ◌<◌, ◌≡◌, refl, sym, ap, ◌∙◌, true, none, some, List, inl, inr, arith,
}
use moesegfault_indentity.Base.Text.{Text}
use moesegfault_indentity.Base.Text.Ascii.{eq_text_iff}
use moesegfault_indentity.Secret.{Crypto, Digest}
use moesegfault_indentity.Store.{Db, has_authority, is_enabled_client}
use moesegfault_indentity.Guard.{Env}
use moesegfault_indentity.Oauth.Issue.{OauthClient, Issuance, Signer, Draw}
use moesegfault_indentity.Oauth.Syntax.{valid_verifier}
use moesegfault_indentity.Oauth.Codes.{CodeGrant, authorization_code}
use moesegfault_indentity.Oauth.Codes.Consume.{may_redeem}
use moesegfault_indentity.Oauth.Codes.Exchange.{
  Presented, presented_code, code_digest, pkce_challenge, is_code_refused, exchange_code,
}
use moesegfault_indentity.Oauth.Codes.Life.{CodesValid, Exchanged-Redeemed}
use moesegfault_indentity.Oauth.Codes.Runs.{exchange_code-cases, is_refused}
use moesegfault_indentity.Oauth.Exchange.{Refusal, refused}
use moesegfault_indentity.Oauth.Exchange.Runs.{Same, is_issued}

-- What the form and the store have to show for a code.
pub record Entitled (crypto : Crypto) (env : Env) (client : Text) (db : Db)
    (fields : List (Text × Text)) (now : ℕ) : Type 0 where
  pub p : Presented
  pub form : presented_code fields ≡ some p
  pub digest : Digest
  pub hashed : code_digest crypto env p.code ≡ some digest
  pub g : CodeGrant
  pub found : authorization_code db digest ≡ some g
  pub own : g.client_id ≡ client
  pub redirect : g.redirect_uri ≡ p.redirect
  pub shaped : valid_verifier p.verifier ≡ true
  pub proof_key : pkce_challenge crypto env p.verifier ≡ g.code_challenge
  pub live : now < g.expires_at
  pub kept_session : g.session_revoked_at ≡ none
  pub authority : has_authority db g.principal_id g.session_id now ≡ true
  pub enabled : is_enabled_client db client ≡ true

Same-authority :
    (db mid : Db) (p s c : Text) (now : ℕ)
    → Same db mid
    → (has_authority mid p s now ≡ has_authority db p s now)
      × (is_enabled_client mid c ≡ is_enabled_client db c)
unfolding has_authority is_enabled_client
Same-authority db mid p s c now same =
    (rw (same.sessions, same.principals) refl, rw same.clients refl)

module _ (crypto : Crypto) (env : Env) (i : Issuance) (signer : Signer) (client : OauthClient)
    (draw : Draw) (clock : ℕ) (db : Db) (fields : List (Text × Text)) (now : ℕ) where
  -- Tokens are issued for a code only to the client that it was issued to, at the redirect that it was issued
  -- for, against the verifier of its challenge, before it expires, and while the session is live, the principal
  -- active and the client enabled.
  pub exchange_code-Entitled :
      CodesValid db.codes db.code_uses
      → is_issued (exchange_code crypto env i signer client draw clock db fields now).1 ≡ true
      → Entitled crypto env client.client_id db fields now
  unfolding is_code_refused may_redeem
  exchange_code-Entitled v h =
      elim (exchange_code-cases crypto env i signer client draw clock db fields now) [
        | inl u ↦ absurd (ground (arith, h, u.kept))
        | inr x ↦
            let r = Exchanged-Redeemed crypto env i signer client draw clock db fields now v x in
            let own : x.g.client_id ≡ client.client_id =
              (eq_text_iff x.g.client_id client.client_id).0 (ground (arith, x.accepted)) in
            let same =
              Same-authority db x.run.mid x.g.principal_id x.g.session_id x.g.client_id now
                x.run.same in
            record {
              p = x.p;
              form = x.form;
              digest = x.digest;
              hashed = x.hashed;
              g = x.g;
              found = x.found;
              own = own;
              redirect = (eq_text_iff x.g.redirect_uri x.p.redirect).0 (ground (arith, x.accepted));
              shaped = x.shaped;
              proof_key =
                  (eq_text_iff (pkce_challenge crypto env x.p.verifier) x.g.code_challenge).0
                    (ground (arith, x.accepted));
              live = ground (arith, x.accepted);
              kept_session = ground (arith, x.accepted);
              authority = ground (arith, r.gate, same.0);
              enabled = ap (is_enabled_client db) (sym own) ∙ ground (arith, r.gate, same.1);
            }
      ]

  -- A refused exchange leaves every table as it was but those of subjects and session claims.
  pub exchange_code-refused :
      (r : Refusal)
      → (exchange_code crypto env i signer client draw clock db fields now).1 ≡ refused r
      → Same db (exchange_code crypto env i signer client draw clock db fields now).0
  exchange_code-refused r h =
      elim (exchange_code-cases crypto env i signer client draw clock db fields now) [
        | inl u ↦ u.same
        | inr x ↦ absurd (ground (arith, ap is_refused h, x.run.kept))
      ]
