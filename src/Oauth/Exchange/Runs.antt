-- ===== src/Oauth/Exchange/Runs.antt =====
-- What an exchange that issues tokens for a refresh token has run.
use moesegfault_indentity.Base.{
  ℕ, ◌≡◌, refl, sym, ap, ◌∙◌, Bool, true, false, not, ◌&&◌, some, arith, Bool-cases, Option-cases,
  inl, inr,
}
use moesegfault_indentity.Base.Text.{Text, text, eq_text, bytes}
use moesegfault_indentity.Secret.{Crypto, Digest, to_base64url}
use moesegfault_indentity.Store.{Db, active}
use moesegfault_indentity.Guard.{Env}
use moesegfault_indentity.Oauth.Issue.{
  OauthClient, Issuance, Signer, Draw, ensure_client_session_id, ensure_pairwise_subject, peppered,
  pairwise, refresh_digest, pairwise_input,
}
use moesegfault_indentity.Oauth.Refresh.{
  RefreshGrant, is_token_state, refresh_grant, rotate_refresh,
}
use moesegfault_indentity.Oauth.Exchange.{
  Reply, refused, issued, failed, classify_refresh_use, is_refresh_stale, lost_rotation, rotate,
  claim_refresh, issue_refresh, use_refresh,
}

abbrev pub is_issued : Reply → Bool
is_issued (issued t w) = true
is_issued (refused r) = false
is_issued failed = false

-- Every table but those of the subjects and the session claims is the same.
pub record Same (db mid : Db) : Type 0 where
  pub tokens : mid.tokens ≡ db.tokens
  pub families : mid.families ≡ db.families
  pub sessions : mid.sessions ≡ db.sessions
  pub profiles : mid.profiles ≡ db.profiles
  pub usernames : mid.usernames ≡ db.usernames
  pub clients : mid.clients ≡ db.clients
  pub principals : mid.principals ≡ db.principals
  pub codes : mid.codes ≡ db.codes
  pub code_uses : mid.code_uses ≡ db.code_uses
  pub authorizations : mid.authorizations ≡ db.authorizations
  pub devices : mid.devices ≡ db.devices
  pub attempts : mid.attempts ≡ db.attempts
  pub transactions : mid.transactions ≡ db.transactions
  pub links : mid.links ≡ db.links
  pub client_scopes : mid.client_scopes ≡ db.client_scopes
  pub redirects : mid.redirects ≡ db.redirects
  pub logout_redirects : mid.logout_redirects ≡ db.logout_redirects
  pub client_keys : mid.client_keys ≡ db.client_keys
  pub assertions : mid.assertions ≡ db.assertions

pub Same-trans : (a b c : Db) → Same a b → Same b c → Same a c
Same-trans a b c h k = record {
  tokens = k.tokens ∙ h.tokens;
  families = k.families ∙ h.families;
  sessions = k.sessions ∙ h.sessions;
  profiles = k.profiles ∙ h.profiles;
  usernames = k.usernames ∙ h.usernames;
  clients = k.clients ∙ h.clients;
  principals = k.principals ∙ h.principals;
  codes = k.codes ∙ h.codes;
  code_uses = k.code_uses ∙ h.code_uses;
  authorizations = k.authorizations ∙ h.authorizations;
  devices = k.devices ∙ h.devices;
  attempts = k.attempts ∙ h.attempts;
  transactions = k.transactions ∙ h.transactions;
  links = k.links ∙ h.links;
  client_scopes = k.client_scopes ∙ h.client_scopes;
  redirects = k.redirects ∙ h.redirects;
  logout_redirects = k.logout_redirects ∙ h.logout_redirects;
  client_keys = k.client_keys ∙ h.client_keys;
  assertions = k.assertions ∙ h.assertions;
}

pub Same-refl : (db : Db) → Same db db
Same-refl db = record {
  tokens = refl;
  families = refl;
  sessions = refl;
  profiles = refl;
  usernames = refl;
  clients = refl;
  principals = refl;
  codes = refl;
  code_uses = refl;
  authorizations = refl;
  devices = refl;
  attempts = refl;
  transactions = refl;
  links = refl;
  client_scopes = refl;
  redirects = refl;
  logout_redirects = refl;
  client_keys = refl;
  assertions = refl;
}

pub ensure_client_session_id-Same :
    (db : Db) (c s sid : Text) (now : ℕ) → Same db (ensure_client_session_id db c s sid now).0
unfolding ensure_client_session_id
ensure_client_session_id-Same db c s sid now = record {
  tokens = refl;
  families = refl;
  sessions = refl;
  profiles = refl;
  usernames = refl;
  clients = refl;
  principals = refl;
  codes = refl;
  code_uses = refl;
  authorizations = refl;
  devices = refl;
  attempts = refl;
  transactions = refl;
  links = refl;
  client_scopes = refl;
  redirects = refl;
  logout_redirects = refl;
  client_keys = refl;
  assertions = refl;
}

pub ensure_pairwise_subject-Same :
    (db : Db) (sector p s : Text) (revision now : ℕ)
    → Same db (ensure_pairwise_subject db sector p s revision now).0
unfolding ensure_pairwise_subject
ensure_pairwise_subject-Same db sector p s revision now = record {
  tokens = refl;
  families = refl;
  sessions = refl;
  profiles = refl;
  usernames = refl;
  clients = refl;
  principals = refl;
  codes = refl;
  code_uses = refl;
  authorizations = refl;
  devices = refl;
  attempts = refl;
  transactions = refl;
  links = refl;
  client_scopes = refl;
  redirects = refl;
  logout_redirects = refl;
  client_keys = refl;
  assertions = refl;
}

module _ (crypto : Crypto) (env : Env) where
  pub pairwise-Same :
      (db : Db) (sector p : Text) (revision now : ℕ)
      → Same db (pairwise crypto env db sector p revision now).0
  unfolding pairwise
  pairwise-Same db sector p revision now =
      elim (Option-cases (
        peppered crypto env (text "PAIRWISE_SUBJECT_KEY")
          (bytes (pairwise_input crypto env revision sector p)))) [
            | inl e ↦ rw (pairwise, e) (Same-refl db)
            | inr (digest, e) ↦
                rw (pairwise, e)
                  (ensure_pairwise_subject-Same db sector p (to_base64url crypto digest) revision
                    now)
          ]

-- A rotation that an exchange ran: on which state, and with what result.
pub record Ran (db : Db) (g : RefreshGrant) (draw : Draw) (now : ℕ) (db' : Db) : Type 0 where
  pub mid : Db
  pub same : Same db mid
  pub new_digest : Digest
  pub ran : rotate_refresh mid g draw.token_id new_digest now g.absolute_expires_at ≡ some db'

module _ (crypto : Crypto) (env : Env) (i : Issuance) (signer : Signer) (client : OauthClient)
    (draw : Draw) where
  rotate-Ran :
      (db : Db) (d nd : Digest) (g : RefreshGrant) (now : ℕ) (subject sid : Text)
      → is_issued (rotate crypto env i signer client draw db d nd g now subject sid).1 ≡ true
      → rotate_refresh db g draw.token_id nd now g.absolute_expires_at
        ≡ some (rotate crypto env i signer client draw db d nd g now subject sid).0
  unfolding rotate lost_rotation
  rotate-Ran db d nd g now subject sid h = ground arith

  claim_refresh-Ran :
      (db : Db) (d : Digest) (g : RefreshGrant) (now : ℕ) (subject : Text)
      → is_issued (claim_refresh crypto env i signer client draw db d g now subject).1 ≡ true
      → Ran db g draw now (claim_refresh crypto env i signer client draw db d g now subject).0
  unfolding claim_refresh
  claim_refresh-Ran db d g now subject h =
      let mid = (ensure_client_session_id db g.client_id g.session_id draw.public_sid now).0 in
      elim (Option-cases
        (ensure_client_session_id db g.client_id g.session_id draw.public_sid now).1) [
          | inl e ↦ absurd (ground (arith, e))
          | inr (sid, e) ↦ elim (Option-cases (refresh_digest crypto env draw.wire)) [
            | inl k ↦ absurd (ground (arith, e, k))
            | inr (nd, k) ↦
                let out : claim_refresh crypto env i signer client draw db d g now subject
                    ≡ rotate crypto env i signer client draw mid d nd g now subject sid =
                  ground (arith, e, k) in
                record {
                  mid = mid;
                  same =
                      ensure_client_session_id-Same db g.client_id g.session_id draw.public_sid now;
                  new_digest = nd;
                  ran =
                      rotate-Ran mid d nd g now subject sid
                        (ap (λ (r : Db × Reply). is_issued r.1) (sym out) ∙ h)
                      ∙ ap (λ (r : Db × Reply). some r.0) (sym out);
                }
          ]
        ]

  issue_refresh-Ran :
      (db : Db) (d : Digest) (g : RefreshGrant) (now : ℕ)
      → is_issued (issue_refresh crypto env i signer client draw db d g now).1 ≡ true
      → Ran db g draw now (issue_refresh crypto env i signer client draw db d g now).0
  unfolding issue_refresh
  issue_refresh-Ran db d g now h =
      let step =
        pairwise crypto env db g.sector_identifier g.principal_id g.subject_salt_revision now in
      elim (Option-cases step.1) [
        | inl e ↦ absurd (ground (arith, e))
        | inr (subject, e) ↦
            let out : issue_refresh crypto env i signer client draw db d g now
                ≡ claim_refresh crypto env i signer client draw step.0 d g now subject =
              ground (arith, e) in
            let r =
              claim_refresh-Ran step.0 d g now subject
                (ap (λ (r : Db × Reply). is_issued r.1) (sym out) ∙ h) in
            record {
              mid = r.mid;
              same =
                  Same-trans db step.0 r.mid
                    (pairwise-Same crypto env db g.sector_identifier g.principal_id
                      g.subject_salt_revision now)
                    r.same;
              new_digest = r.new_digest;
              ran = r.ran ∙ ap (λ (r : Db × Reply). some r.0) (sym out);
            }
      ]

  -- An exchange that issued tokens rotated the token that its grant was read from.
  pub record Exchanged (db : Db) (d : Digest) (now : ℕ) (db' : Db) : Type 0 where
    pub g : RefreshGrant
    pub found : refresh_grant db d ≡ some g
    pub own : eq_text g.client_id client.client_id ≡ true
    pub run : Ran db g draw now db'

  pub use_refresh-Exchanged :
      (db : Db) (d : Digest) (now : ℕ)
      → is_issued (use_refresh crypto env i signer client draw db d (refresh_grant db d) now).1
        ≡ true
      → Exchanged db d now
          (use_refresh crypto env i signer client draw db d (refresh_grant db d) now).0
  unfolding use_refresh classify_refresh_use
  use_refresh-Exchanged db d now h = elim (Option-cases (refresh_grant db d)) [
    | inl e ↦ absurd (ground (arith, e))
    | inr (g, e) ↦
        elim (Bool-cases (
          eq_text g.client_id client.client_id
          && is_token_state g.token_state active
          && not (is_refresh_stale now g))) [
            | inr k ↦ absurd (ground (arith, e, k))
            | inl k ↦
                let out : use_refresh crypto env i signer client draw db d (refresh_grant db d) now
                    ≡ issue_refresh crypto env i signer client draw db d g now =
                  ground (arith, e, k) in
                let r =
                  issue_refresh-Ran db d g now
                    (ap (λ (r : Db × Reply). is_issued r.1) (sym out) ∙ h) in
                record {
                  g = g;
                  found = e;
                  own = ground (arith, k);
                  run = record {
                    mid = r.mid;
                    same = r.same;
                    new_digest = r.new_digest;
                    ran = r.ran ∙ ap (λ (r : Db × Reply). some r.0) (sym out);
                  };
                }
          ]
  ]
