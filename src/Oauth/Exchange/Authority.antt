-- ===== src/Oauth/Exchange/Authority.antt =====
-- The authority behind the tokens of a device code.
use moesegfault_indentity.Base.{
  ℕ, ◌+◌, ◌≡◌, refl, sym, ap, ◌∙◌, Bool, true, ◌&&◌, Option, find, none, some, List, any, arith,
  Bool-cases, Option-cases, inl, inr, min,
}
use moesegfault_indentity.Base.Text.{Text, text, bytes, is_empty, eq_text}
use moesegfault_indentity.Base.Text.Ascii.{eq_of_eq_text, eq_text_iff}
use moesegfault_indentity.Secret.{Crypto, Digest, ct_eq, to_base64url}
use moesegfault_indentity.Store.{
  Db, Device, Session, Profile, Username, Client, approved, has_authority, is_device_client,
}
use moesegfault_indentity.Store.Sql.{any-update_same, any-found, found}
use moesegfault_indentity.Guard.{Env}
use moesegfault_indentity.Device.Repository.{
  DevicePoll, DeviceGrant, NewFamily, poll, grant, consume, is_state, is_value, polled, is_polled,
  join_grant, grant_of,
}
use moesegfault_indentity.Device.Consume.{holds_consumed, consume_won}
use moesegfault_indentity.Oauth.Issue.{
  config_seconds, OauthClient, Issuance, Signer, SignedTokens, Draw, ensure_client_session_id,
  ensure_pairwise_subject, peppered, pairwise, pairwise_input,
}
use moesegfault_indentity.Oauth.Exchange.{
  Reply, issued, new_wire, get, refuse_poll, is_device_stale, offline_family, finish_device,
  device_tokens, sign_device, claim_device, issue_device, grant_device, answer_poll, device_digest,
  poll_device, exchange_device,
}
use moesegfault_indentity.Oauth.Exchange.Runs.{is_issued}

-- The same sessions, principals and clients.
record SameAuthority (db mid : Db) : Type 0 where
  sessions : mid.sessions ≡ db.sessions
  principals : mid.principals ≡ db.principals
  clients : mid.clients ≡ db.clients

SameAuthority-trans : (a b c : Db) → SameAuthority a b → SameAuthority b c → SameAuthority a c
SameAuthority-trans a b c h k = record {
  sessions = k.sessions ∙ h.sessions;
  principals = k.principals ∙ h.principals;
  clients = k.clients ∙ h.clients;
}

SameAuthority-refl : (db : Db) → SameAuthority db db
SameAuthority-refl db = record { sessions = refl; principals = refl; clients = refl }

has_authority_same :
    (db mid : Db) (p s : Text) (t : ℕ)
    → SameAuthority db mid
    → has_authority mid p s t ≡ has_authority db p s t
unfolding has_authority
has_authority_same db mid p s t h = ground (arith, h.sessions, h.principals)

is_device_client_same :
    (db mid : Db) (c : Text) → SameAuthority db mid → is_device_client mid c ≡ is_device_client db c
unfolding is_device_client
is_device_client_same db mid c h = ground (arith, h.clients)

ensure_client_session_id-SameAuthority :
    (db : Db) (c s sid : Text) (now : ℕ)
    → SameAuthority db (ensure_client_session_id db c s sid now).0
unfolding ensure_client_session_id
ensure_client_session_id-SameAuthority db c s sid now = record {
  sessions = refl;
  principals = refl;
  clients = refl;
}

ensure_pairwise_subject-SameAuthority :
    (db : Db) (sector p s : Text) (revision now : ℕ)
    → SameAuthority db (ensure_pairwise_subject db sector p s revision now).0
unfolding ensure_pairwise_subject
ensure_pairwise_subject-SameAuthority db sector p s revision now = record {
  sessions = refl;
  principals = refl;
  clients = refl;
}

poll-SameAuthority :
    (db : Db) (d : Digest) (c : Text) (now : ℕ) → SameAuthority db (poll db d c now).0
unfolding poll
poll-SameAuthority db d c now = record { sessions = refl; principals = refl; clients = refl }

pairwise-SameAuthority :
    (crypto : Crypto) (env : Env) (db : Db) (sector p : Text) (revision now : ℕ)
    → SameAuthority db (pairwise crypto env db sector p revision now).0
unfolding pairwise
pairwise-SameAuthority crypto env db sector p revision now =
    elim (Option-cases (
      peppered crypto env (text "PAIRWISE_SUBJECT_KEY")
        (bytes (pairwise_input crypto env revision sector p)))) [
          | inl e ↦ rw (pairwise, e) (SameAuthority-refl db)
          | inr (digest, e) ↦
              rw (pairwise, e)
                (ensure_pairwise_subject-SameAuthority db sector p (to_base64url crypto digest)
                  revision now)
        ]

-- A consumption that an exchange ran: on which state, and that it won.
record Consumed (db : Db) (g : DeviceGrant) (draw : Draw) (db' : Db) : Type 0 where
  mid : Db
  same : SameAuthority db mid
  family : Option NewFamily
  expires : ℕ
  won : consume mid g family draw.marker draw.authorization_id draw.later expires ≡ some (db', true)

-- Carried back along an equation of runs.
Consumed-of :
    (db step : Db) (g : DeviceGrant) (draw : Draw) (run run' : Db × Reply)
    → SameAuthority db step
    → run ≡ run'
    → (is_issued run'.1 ≡ true → Consumed step g draw run'.0)
    → is_issued run.1 ≡ true
    → Consumed db g draw run.0
Consumed-of db step g draw run run' s e k h =
    let c = k (ap (λ (r : Db × Reply). is_issued r.1) (sym e) ∙ h) in
    record {
      mid = c.mid;
      same = SameAuthority-trans db step c.mid s c.same;
      family = c.family;
      expires = c.expires;
      won = c.won ∙ ap (λ (x : Db). some (x, true)) (sym (ap (λ (r : Db × Reply). r.0) e));
    }

-- A request of a client under a device code's digest.
abbrev pub asks : Digest → Text → Text → Device → Bool
asks digest client_id id d =
    ct_eq d.device_code_digest digest && eq_text d.client_id client_id && eq_text d.id id

-- An approved request of the principal and the session that a grant names.
abbrev pub stands : DeviceGrant → Device → Bool
stands g d =
    eq_text d.id g.id
    && is_state d.state approved
    && is_value d.principal_id g.principal_id
    && is_value d.session_id g.session_id

stands-poll :
    (db : Db) (digest : Digest) (client_id : Text) (now : ℕ) (g : DeviceGrant)
    → any (stands g) (poll db digest client_id now).0.devices ≡ any (stands g) db.devices
unfolding poll
stands-poll db digest client_id now g =
    any-update_same (is_polled digest client_id) (polled now) (stands g) db.devices
      (λ d. unfold polled in refl)

poll_row :
    (db : Db) (digest : Digest) (client_id : Text) (now : ℕ) (p : DevicePoll)
    → (poll db digest client_id now).1 ≡ some p
    → any (asks digest client_id p.id) db.devices ≡ true
unfolding poll
poll_row db digest client_id now p h =
    elim (Option-cases (find (is_polled digest client_id) db.devices)) [
      | inl e ↦ absurd (ground (arith, e))
      | inr (d, e) ↦
          let same : d.id ≡ p.id = unfold polled in ground (arith, e) in
          any-found (asks digest client_id p.id) (is_polled digest client_id) db.devices d e (
            ground (
              arith,
              found (is_polled digest client_id) db.devices d e,
              (eq_text_iff d.id p.id).1 same,
            ))
    ]

join_row :
    (d : Device) (p s : Text) (session : Option Session) (profile : Option Profile)
    (name : Option Username) (client : Option Client) (g : DeviceGrant)
    → join_grant d p s session profile name client ≡ some g
    → (g.id ≡ d.id) × (eq_text p g.principal_id ≡ true) × (eq_text s g.session_id ≡ true)
join_row d p s (some session) (some profile) (some name) (some client) g h =
    let of_p : p ≡ g.principal_id = ground arith in
    let of_s : s ≡ g.session_id = ground arith in
    (ground arith, (eq_text_iff p g.principal_id).1 of_p, (eq_text_iff s g.session_id).1 of_s)
join_row d p s none profile name client g h = cc
join_row d p s (some session) none name client g h = cc
join_row d p s (some session) (some profile) none client g h = cc
join_row d p s (some session) (some profile) (some name) none g h = cc

grant_of_row :
    (db : Db) (d : Device) (p s : Option Text) (g : DeviceGrant)
    → grant_of db d p s ≡ some g
    → (g.id ≡ d.id) × (is_value p g.principal_id ≡ true) × (is_value s g.session_id ≡ true)
grant_of_row db d none s g h = cc
grant_of_row db d (some p) none g h = cc
grant_of_row db d (some p) (some s) g h =
    join_row d p s (find (λ r. eq_text r.session_id s) db.sessions)
      (find (λ r. eq_text r.principal_id p) db.profiles)
      (find (λ r. eq_text r.principal_id p) db.usernames)
      (find (λ r. eq_text r.client_id d.client_id) db.clients) g h

-- The row that a grant was read from.
grant_row :
    (db : Db) (id : Text) (g : DeviceGrant)
    → grant db id ≡ some g
    → (g.id ≡ id) × (any (stands g) db.devices ≡ true)
unfolding grant
grant_row db id g h =
    let approves : Device → Bool = λ d. eq_text d.id id && is_state d.state approved in
    elim (Option-cases (find approves db.devices)) [
      | inl e ↦ absurd (ground (arith, e))
      | inr (d, e) ↦
          let r = grant_of_row db d d.principal_id d.session_id g (ground (arith, e)) in
          let chosen = found approves db.devices d e in
          let mine : g.id ≡ id = r.0 ∙ (eq_text_iff d.id id).0 (ground (arith, chosen)) in
          (
            mine,
            any-found (stands g) approves db.devices d e
                (ground (arith, chosen, (eq_text_iff d.id g.id).1 (sym r.0), r.1, r.2)),
          )
    ]

module _ (crypto : Crypto) (env : Env) (i : Issuance) (signer : Signer) (client : OauthClient)
    (draw : Draw) where
  finish_device-Consumed :
      (db : Db) (g : DeviceGrant) (family : Option NewFamily) (now : ℕ) (tokens : SignedTokens)
      → is_issued (finish_device crypto env i signer client draw db g family now tokens).1 ≡ true
      → Consumed db g draw (finish_device crypto env i signer client draw db g family now tokens).0
  unfolding finish_device
  finish_device-Consumed db g family now tokens h =
      let expires =
        min (now + config_seconds env (text "REFRESH_TOKEN_TTL_SECONDS") 2592000 31536000)
          g.session_absolute_expires_at in
      elim (Option-cases
        (consume db g family draw.marker draw.authorization_id draw.later expires)) [
          | inl e ↦ absurd (ground (arith, e))
          | inr ((x, b), e) ↦ elim (Bool-cases b) [
            | inr k ↦ absurd (ground (arith, e, k))
            | inl k ↦
                let out : finish_device crypto env i signer client draw db g family now tokens
                    ≡ (x, issued tokens (new_wire family draw.wire)) =
                  ground (arith, e, k) in
                record {
                  mid = db;
                  same = SameAuthority-refl db;
                  family = family;
                  expires = expires;
                  won = e ∙ ap some (ground (arith, k, ap (λ (r : Db × Reply). r.0) out));
                }
          ]
        ]

  sign_device-Consumed :
      (db : Db) (g : DeviceGrant) (now : ℕ) (subject sid : Text)
      → is_issued (sign_device crypto env i signer client draw db g now subject sid).1 ≡ true
      → Consumed db g draw (sign_device crypto env i signer client draw db g now subject sid).0
  unfolding sign_device
  sign_device-Consumed db g now subject sid h =
      elim (Option-cases (offline_family crypto env i signer client draw g.scope)) [
        | inl e ↦ absurd (ground (arith, e))
        | inr (family, e) ↦
            elim (Option-cases (device_tokens crypto env i signer client draw g now subject sid)) [
              | inl k ↦ absurd (ground (arith, e, k))
              | inr (tokens, k) ↦
                  Consumed-of db db g draw
                    (sign_device crypto env i signer client draw db g now subject sid)
                    (finish_device crypto env i signer client draw db g family now tokens)
                    (SameAuthority-refl db) (ground (arith, e, k))
                    (finish_device-Consumed db g family now tokens) h
            ]
      ]

  claim_device-Consumed :
      (db : Db) (g : DeviceGrant) (now : ℕ) (subject : Text)
      → is_issued (claim_device crypto env i signer client draw db g now subject).1 ≡ true
      → Consumed db g draw (claim_device crypto env i signer client draw db g now subject).0
  unfolding claim_device
  claim_device-Consumed db g now subject h =
      let step = ensure_client_session_id db g.client_id g.session_id draw.public_sid now in
      elim (Option-cases step.1) [
        | inl e ↦ absurd (ground (arith, e))
        | inr (sid, e) ↦
            Consumed-of db step.0 g draw
              (claim_device crypto env i signer client draw db g now subject)
              (sign_device crypto env i signer client draw step.0 g now subject sid)
              (ensure_client_session_id-SameAuthority db g.client_id g.session_id draw.public_sid
                now)
              (ground (arith, e)) (sign_device-Consumed step.0 g now subject sid) h
      ]

  issue_device-Consumed :
      (db : Db) (g : DeviceGrant) (now : ℕ)
      → is_issued (issue_device crypto env i signer client draw db g now).1 ≡ true
      → Consumed db g draw (issue_device crypto env i signer client draw db g now).0
  unfolding issue_device
  issue_device-Consumed db g now h =
      let step =
        pairwise crypto env db g.sector_identifier g.principal_id g.subject_salt_revision now in
      elim (Option-cases step.1) [
        | inl e ↦ absurd (ground (arith, e))
        | inr (subject, e) ↦
            Consumed-of db step.0 g draw (issue_device crypto env i signer client draw db g now)
              (claim_device crypto env i signer client draw step.0 g now subject)
              (pairwise-SameAuthority crypto env db g.sector_identifier g.principal_id
                g.subject_salt_revision now)
              (ground (arith, e)) (claim_device-Consumed step.0 g now subject) h
      ]

  -- The grant behind an exchange with tokens, of a request, and its consumption.
  record Backed (id : Text) (db db' : Db) : Type 0 where
    g : DeviceGrant
    own : g.client_id ≡ client.client_id
    mine : g.id ≡ id
    stood : any (stands g) db.devices ≡ true
    taken : Consumed db g draw db'

  Backed-of :
      (id : Text) (db step : Db) (run run' : Db × Reply)
      → SameAuthority db step
      → ((g : DeviceGrant) → any (stands g) step.devices ≡ any (stands g) db.devices)
      → run ≡ run'
      → (is_issued run'.1 ≡ true → Backed id step run'.0)
      → is_issued run.1 ≡ true
      → Backed id db run.0
  Backed-of id db step run run' s still e k h =
      let b = k (ap (λ (r : Db × Reply). is_issued r.1) (sym e) ∙ h) in
      record {
        g = b.g;
        own = b.own;
        mine = b.mine;
        stood = sym (still b.g) ∙ b.stood;
        taken = Consumed-of db step b.g draw run run' s e (λ _. b.taken) h;
      }

  grant_device-Backed :
      (db : Db) (id : Text) (now : ℕ)
      → is_issued (grant_device crypto env i signer client draw db id now).1 ≡ true
      → Backed id db (grant_device crypto env i signer client draw db id now).0
  unfolding grant_device is_device_stale
  grant_device-Backed db id now h = elim (Option-cases (grant db id)) [
    | inl e ↦ absurd (ground (arith, e))
    | inr (g, e) ↦ elim (Bool-cases (is_device_stale client.client_id now g)) [
      | inl k ↦ absurd (ground (arith, e, k))
      | inr k ↦ record {
        g = g;
        own = eq_of_eq_text g.client_id client.client_id (ground (arith, k));
        mine = (grant_row db id g e).0;
        stood = (grant_row db id g e).1;
        taken =
            Consumed-of db db g draw (grant_device crypto env i signer client draw db id now)
              (issue_device crypto env i signer client draw db g now) (SameAuthority-refl db)
              (ground (arith, e, k)) (issue_device-Consumed db g now) h;
      }
    ]
  ]

  answer_poll-Backed :
      (db : Db) (p : DevicePoll) (now : ℕ)
      → is_issued (answer_poll crypto env i signer client draw db (some p) now).1 ≡ true
      → Backed p.id db (answer_poll crypto env i signer client draw db (some p) now).0
  unfolding answer_poll
  answer_poll-Backed db p now h = elim (Option-cases (refuse_poll now p)) [
    | inr (r, e) ↦ absurd (ground (arith, e))
    | inl e ↦
        let out : answer_poll crypto env i signer client draw db (some p) now
            ≡ grant_device crypto env i signer client draw db p.id now =
          rw (answer_poll, e) refl in
        Backed-of p.id db db (answer_poll crypto env i signer client draw db (some p) now)
          (grant_device crypto env i signer client draw db p.id now) (SameAuthority-refl db)
          (λ g. refl) out (grant_device-Backed db p.id now) h
  ]

  -- The request that a device code presents, and what stands behind the tokens for it.
  record Presented (wire : Text) (db db' : Db) : Type 0 where
    digest : Digest
    hashed : device_digest crypto env i signer client draw wire ≡ some digest
    id : Text
    asked : any (asks digest client.client_id id) db.devices ≡ true
    backed : Backed id db db'

  poll_device-Presented :
      (db : Db) (wire : Text) (now : ℕ)
      → is_issued (poll_device crypto env i signer client draw db wire now).1 ≡ true
      → Presented wire db (poll_device crypto env i signer client draw db wire now).0
  unfolding poll_device
  poll_device-Presented db wire now h =
      elim (Option-cases (device_digest crypto env i signer client draw wire)) [
        | inl e ↦ absurd (ground (arith, e))
        | inr (d, e) ↦
            let step = poll db d client.client_id now in
            elim (Option-cases step.1) [
              | inl k ↦ absurd (unfold answer_poll in ground (arith, e, k))
              | inr (p, k) ↦ record {
                digest = d;
                hashed = e;
                id = p.id;
                asked = poll_row db d client.client_id now p k;
                backed =
                    Backed-of p.id db step.0
                      (poll_device crypto env i signer client draw db wire now)
                      (answer_poll crypto env i signer client draw step.0 (some p) now)
                      (poll-SameAuthority db d client.client_id now)
                      (λ g. stands-poll db d client.client_id now g) (ground (arith, e, k))
                      (answer_poll-Backed step.0 p now) h;
              }
            ]
      ]

  -- The device code of the form is that of a request of the client, which is approved for the principal and the
  -- session of the grant; both are in force, and the client is enabled, at the moment of consumption; and the
  -- exchange has consumed the request.
  pub record Authorized (db : Db) (fields : List (Text × Text)) (db' : Db) : Type 0 where
    pub allowed : client.device_authorization_enabled ≡ true
    pub wire : Text
    pub form : get (text "device_code") fields ≡ some wire
    pub digest : Digest
    pub hashed : device_digest crypto env i signer client draw wire ≡ some digest
    pub g : DeviceGrant
    pub own : g.client_id ≡ client.client_id
    pub asked : any (asks digest client.client_id g.id) db.devices ≡ true
    pub stood : any (stands g) db.devices ≡ true
    pub authority : has_authority db g.principal_id g.session_id draw.later ≡ true
    pub enabled : is_device_client db g.client_id ≡ true
    pub marked : any (holds_consumed g.id draw.marker) db'.devices ≡ true

  Presented-Authorized :
      (db db' : Db) (fields : List (Text × Text)) (wire : Text)
      → client.device_authorization_enabled ≡ true
      → get (text "device_code") fields ≡ some wire
      → Presented wire db db'
      → Authorized db fields db'
  Presented-Authorized db db' fields wire on form p =
      let b = p.backed in
      let c = b.taken in
      let (live, enabled, marked, _) =
        consume_won c.mid db' b.g c.family draw.marker draw.authorization_id draw.later c.expires
          c.won in
      record {
        allowed = on;
        wire = wire;
        form = form;
        digest = p.digest;
        hashed = p.hashed;
        g = b.g;
        own = b.own;
        asked = rw b.mine p.asked;
        stood = b.stood;
        authority =
            sym (has_authority_same db c.mid b.g.principal_id b.g.session_id draw.later c.same)
            ∙ live;
        enabled = sym (is_device_client_same db c.mid b.g.client_id c.same) ∙ enabled;
        marked = marked;
      }

  -- Tokens are issued for a device code only to a client that may use the flow, whose request holds the digest
  -- of the code that the form presents, and by an exchange that marks that request as consumed. A request of
  -- its identifier is approved for the principal and the session of the grant, both of which are in force, and
  -- the client enabled, at the moment of consumption.
  pub issued_by_authority :
      (db : Db) (fields : List (Text × Text)) (now : ℕ)
      → is_issued (exchange_device crypto env i signer client draw db fields now).1 ≡ true
      → Authorized db fields (exchange_device crypto env i signer client draw db fields now).0
  unfolding exchange_device
  issued_by_authority db fields now h = elim (Bool-cases client.device_authorization_enabled) [
    | inr off ↦ absurd (ground (arith, off))
    | inl on ↦ elim (Option-cases (get (text "device_code") fields)) [
      | inl e ↦ absurd (ground (arith, on, e))
      | inr (wire, e) ↦ elim (Bool-cases (is_empty wire)) [
        | inl k ↦ absurd (ground (arith, on, e, k))
        | inr k ↦
            let out : exchange_device crypto env i signer client draw db fields now
                ≡ poll_device crypto env i signer client draw db wire now =
              ground (arith, on, e, k) in
            Presented-Authorized db _ fields wire on e (
              rw out (
                poll_device-Presented db wire now
                  (ap (λ (r : Db × Reply). is_issued r.1) (sym out) ∙ h)))
      ]
    ]
  ]
