-- ===== src/Oauth/Codes/Runs.antt =====
-- What an exchange of an authorization code has run.
use moesegfault_indentity.Base.{
  ℕ, ◌+◌, ◌≡◌, refl, Bool, true, false, Option, none, some, List, ◌⊎◌, inl, inr, Bool-cases,
  Option-cases,
}
use moesegfault_indentity.Base.Text.{Text, text}
use moesegfault_indentity.Secret.{Crypto, Digest}
use moesegfault_indentity.Store.{Db}
use moesegfault_indentity.Guard.{Env}
use moesegfault_indentity.Device.Repository.{NewFamily}
use moesegfault_indentity.Oauth.Issue.{
  OauthClient, Issuance, Signer, Draw, ensure_client_session_id, pairwise, config_seconds,
}
use moesegfault_indentity.Oauth.Syntax.{valid_verifier}
use moesegfault_indentity.Oauth.Codes.{CodeGrant, authorization_code}
use moesegfault_indentity.Oauth.Codes.Consume.{consume_code}
use moesegfault_indentity.Oauth.Codes.Exchange.{
  Presented, presented_code, code_digest, request_digest, is_code_refused, lost_code, redeem,
  claim_code, issue_code, use_code, exchange_code, code_tokens,
}
use moesegfault_indentity.Oauth.Exchange.{Reply, refused, issued, failed, offline_family}
use moesegfault_indentity.Oauth.Exchange.Runs.{
  Same, Same-refl, Same-trans, ensure_client_session_id-Same, pairwise-Same, is_issued,
}

abbrev pub is_refused : Reply → Bool
is_refused (refused r) = true
is_refused (issued t w) = false
is_refused failed = false

-- No batch ran: at most a subject and a session claim are new.
pub record Untouched (db : Db) (result : Db × Reply) : Type 0 where
  pub same : Same db result.0
  pub kept : is_issued result.1 ≡ false

module _ (crypto : Crypto) (env : Env) (i : Issuance) (signer : Signer) (client : OauthClient)
    (draw : Draw) (clock : ℕ) where
  -- A batch of `consume_code` committed.
  pub record RanCode (db : Db) (p : Presented) (g : CodeGrant) (now : ℕ) (result : Db × Reply)
      : Type 0 where
    pub mid : Db
    pub same : Same db mid
    pub family : Option NewFamily
    pub expires : ℕ
    pub ran :
        consume_code mid g
          (request_digest crypto env client.client_id p)
          family
          draw.authorization_id
          now
          clock
          expires
        ≡ some result.0
    pub kept : is_refused result.1 ≡ false

  Outcome : Db → Presented → CodeGrant → ℕ → Db × Reply → Type 0
  Outcome db p g now result = Untouched db result ⊎ RanCode db p g now result

  later_Outcome :
      (db mid : Db) (p : Presented) (g : CodeGrant) (now : ℕ) (result : Db × Reply)
      → Same db mid
      → Outcome mid p g now result
      → Outcome db p g now result
  unfolding Outcome
  later_Outcome db mid p g now result s (inl u) =
      inl (record { same = Same-trans db mid result.0 s u.same; kept = u.kept })
  later_Outcome db mid p g now result s (inr r) = inr (record {
    mid = r.mid;
    same = Same-trans db mid r.mid s r.same;
    family = r.family;
    expires = r.expires;
    ran = r.ran;
    kept = r.kept;
  })

  abbrev expiry : ℕ → ℕ
  expiry now = now + config_seconds env (text "REFRESH_TOKEN_TTL_SECONDS") 2592000 31536000

  lost_code-Untouched :
      (db : Db) (d : Digest) → Untouched db (lost_code crypto env i signer client draw clock db d)
  unfolding lost_code
  lost_code-Untouched db d = elim (Option-cases (authorization_code db d)) [
    | inl e ↦ rw (lost_code, e) (record { same = Same-refl db; kept = refl })
    | inr (g, e) ↦ rw (lost_code, e) (record { same = Same-refl db; kept = refl })
  ]

  redeem-Outcome :
      (db : Db) (d : Digest) (p : Presented) (g : CodeGrant) (now : ℕ) (subject sid : Text)
      (family : Option NewFamily)
      → Outcome db p g now
          (redeem crypto env i signer client draw clock db d p g now subject sid family)
  unfolding redeem Outcome
  redeem-Outcome db d p g now subject sid family =
      elim (Option-cases (
        consume_code db g (request_digest crypto env client.client_id p) family
          draw.authorization_id now clock (expiry now))) [
            | inl e ↦ rw (redeem, e) (inl (lost_code-Untouched db d))
            | inr (db', e) ↦
                elim (Option-cases
                  (code_tokens crypto env i signer client draw clock g now subject sid)) [
                    | inl k ↦
                        rw (redeem, e, k)
                          (inr (record {
                            mid = db;
                            same = Same-refl db;
                            family = family;
                            expires = expiry now;
                            ran = e;
                            kept = refl;
                          }))
                    | inr (tokens, k) ↦
                        rw (redeem, e, k)
                          (inr (record {
                            mid = db;
                            same = Same-refl db;
                            family = family;
                            expires = expiry now;
                            ran = e;
                            kept = refl;
                          }))
                  ]
          ]

  claim_code-Outcome :
      (db : Db) (d : Digest) (p : Presented) (g : CodeGrant) (now : ℕ) (subject : Text)
      → Outcome db p g now (claim_code crypto env i signer client draw clock db d p g now subject)
  unfolding claim_code
  claim_code-Outcome db d p g now subject =
      let step = ensure_client_session_id db g.client_id g.session_id draw.public_sid now in
      let same = ensure_client_session_id-Same db g.client_id g.session_id draw.public_sid now in
      elim (Option-cases step.1) [
        | inl e ↦ rw (claim_code, e) (unfold Outcome in inl (record { same = same; kept = refl }))
        | inr (sid, e) ↦
            elim (Option-cases (offline_family crypto env i signer client draw g.scope)) [
              | inl k ↦
                  rw (claim_code, e, k)
                    (unfold Outcome in inl (record { same = same; kept = refl }))
              | inr (family, k) ↦
                  rw (claim_code, e, k)
                    (later_Outcome db step.0 p g now _ same
                      (redeem-Outcome step.0 d p g now subject sid family))
            ]
      ]

  issue_code-Outcome :
      (db : Db) (d : Digest) (p : Presented) (g : CodeGrant) (now : ℕ)
      → Outcome db p g now (issue_code crypto env i signer client draw clock db d p g now)
  unfolding issue_code
  issue_code-Outcome db d p g now =
      let step =
        pairwise crypto env db g.sector_identifier g.principal_id g.subject_salt_revision now in
      let same =
        pairwise-Same crypto env db g.sector_identifier g.principal_id g.subject_salt_revision
          now in
      elim (Option-cases step.1) [
        | inl e ↦ rw (issue_code, e) (unfold Outcome in inl (record { same = same; kept = refl }))
        | inr (subject, e) ↦
            rw (issue_code, e)
              (later_Outcome db step.0 p g now _ same (claim_code-Outcome step.0 d p g now subject))
      ]

  -- The whole exchange: the code that it accepted, and the batch that it ran.
  pub record Exchanged (db : Db) (fields : List (Text × Text)) (now : ℕ) (result : Db × Reply)
      : Type 0 where
    pub p : Presented
    pub form : presented_code fields ≡ some p
    pub shaped : valid_verifier p.verifier ≡ true
    pub digest : Digest
    pub hashed : code_digest crypto env p.code ≡ some digest
    pub g : CodeGrant
    pub found : authorization_code db digest ≡ some g
    pub accepted : is_code_refused crypto env client.client_id p now g ≡ false
    pub run : RanCode db p g now result

  module _ (db : Db) (fields : List (Text × Text)) (now : ℕ) where
    from_code :
        (p : Presented) (digest : Digest)
        → presented_code fields ≡ some p
        → valid_verifier p.verifier ≡ true
        → code_digest crypto env p.code ≡ some digest
        → (o : Option CodeGrant) → authorization_code db digest ≡ o
        → Untouched db (use_code crypto env i signer client draw clock db digest p o now)
          ⊎ Exchanged db fields now
              (use_code crypto env i signer client draw clock db digest p o now)
    unfolding use_code Outcome
    from_code p digest form shaped hashed none found =
        inl (record { same = Same-refl db; kept = refl })
    from_code p digest form shaped hashed (some g) found =
        elim (Bool-cases (is_code_refused crypto env client.client_id p now g)) [
          | inl e ↦ rw e (inl (record { same = Same-refl db; kept = refl }))
          | inr e ↦ rw e (elim (issue_code-Outcome db digest p g now) [
            | inl u ↦ inl u
            | inr r ↦ inr (record {
              p = p;
              form = form;
              shaped = shaped;
              digest = digest;
              hashed = hashed;
              g = g;
              found = found;
              accepted = e;
              run = r;
            })
          ])
        ]

    pub exchange_code-cases :
        Untouched db (exchange_code crypto env i signer client draw clock db fields now)
        ⊎ Exchanged db fields now
            (exchange_code crypto env i signer client draw clock db fields now)
    unfolding exchange_code
    exchange_code-cases = elim (Option-cases (presented_code fields)) [
      | inl e ↦ rw (exchange_code, e) (inl (record { same = Same-refl db; kept = refl }))
      | inr (p, e) ↦ elim (Bool-cases (valid_verifier p.verifier)) [
        | inr v ↦ rw (exchange_code, e, v) (inl (record { same = Same-refl db; kept = refl }))
        | inl v ↦ elim (Option-cases (code_digest crypto env p.code)) [
          | inl k ↦ rw (exchange_code, e, v, k) (inl (record { same = Same-refl db; kept = refl }))
          | inr (digest, k) ↦
              rw (exchange_code, e, v, k)
                (from_code p digest e v k (authorization_code db digest) refl)
        ]
      ]
    ]
