-- ===== src/Device/Consume.antt =====
-- The one-shot consumption of an approved request.
use moesegfault_indentity.Base.{
  ℕ, ◌≡◌, leb, ◌||◌, [], ◌∷◌, ◌++◌, refl, sym, ap, ◌∙◌, Bool, true, ◌&&◌, Option, none, some, List,
  any, &&-eq-true, arith, Bool-cases, Option-cases, inl, inr,
}
use moesegfault_indentity.Base.Text.{Text, eq_text, split_ascii_whitespace}
use moesegfault_indentity.Base.Text.Ascii.{eq_text_refl}
use moesegfault_indentity.Secret.{ct_eq}
use moesegfault_indentity.Oauth.Refresh.{clashes}
use moesegfault_indentity.Store.{Db, Device, consumed, has_authority, is_device_client}
use moesegfault_indentity.Store.Sql.{update, any-update-true, any_imp, any_elim, any-append_one}
use moesegfault_indentity.Device.Repository.{
  is_state, DeviceGrant, NewFamily, may_consume, set_consumed, holds_marker, authorize, add_family,
  consume, new_family, first_token, authorize_fails, marker_fails,
}

-- The last two statements write families and tokens, and nothing else.
add_family_rows :
    (gate : Bool) (g : DeviceGrant) (f : Option NewFamily) (now expires : ℕ) (db db' : Db)
    → add_family gate g f now expires db ≡ some db'
    → (db'.devices ≡ db.devices)
      × (db'.sessions ≡ db.sessions)
      × (db'.principals ≡ db.principals)
      × (db'.clients ≡ db.clients)
unfolding add_family
add_family_rows gate g none now expires db db' h = ground arith
add_family_rows gate g (some f) now expires db db' h =
    let token = first_token f.0 f.1 f.2 now expires in
    let there = any (λ r. eq_text r.family_id f.0) db.families in
    elim (Bool-cases (gate && (there || leb expires now))) [
      | inl e ↦ absurd (ground (arith, e))
      | inr e ↦ elim (Bool-cases (gate || there)) [
        | inr k ↦ ground (arith, e, k)
        | inl k ↦ elim (Bool-cases (any (clashes token) db.tokens || leb expires now)) [
          | inl m ↦ absurd (ground (arith, e, k, m))
          | inr m ↦ ground (arith, e, k, m)
        ]
      ]
    ]

module _ (g : DeviceGrant) (family : Option NewFamily) (marker authorization_id : Text)
    (now expires : ℕ) (db : Db) where
  abbrev pub taken_rows : List Device
  taken_rows = update (may_consume db g now) (set_consumed marker) db.devices

  abbrev pub gate : Bool
  gate = any (holds_marker g.id marker) taken_rows

  -- The state before the last two statements.
  abbrev pub authorized : Db
  authorized = record db {
    devices = taken_rows;
    authorizations =
        authorize gate authorization_id g.principal_id g.client_id (split_ascii_whitespace g.scope)
          now db.authorizations;
  }

  -- What a batch that commits has done.
  pub record Committed (db' : Db) (b : Bool) : Type 0 where
    pub reports : b ≡ any (may_consume db g now) db.devices
    pub grown : add_family gate g family now expires authorized ≡ some db'
    pub devices : db'.devices ≡ taken_rows
    pub sessions : db'.sessions ≡ db.sessions
    pub principals : db'.principals ≡ db.principals
    pub clients : db'.clients ≡ db.clients

  pub consume-Committed :
      (db' : Db) (b : Bool)
      → consume db g family marker authorization_id now expires ≡ some (db', b)
      → Committed db' b
  unfolding consume
  consume-Committed db' b h =
      elim (Bool-cases (
        marker_fails db g marker now
        || authorize_fails gate g.principal_id g.client_id now db.authorizations)) [
          | inl e ↦ absurd (ground (arith, e))
          | inr e ↦ elim (Option-cases (add_family gate g family now expires authorized)) [
            | inl k ↦ absurd (ground (arith, e, k))
            | inr (x, k) ↦
                let same : x ≡ db' = ground (arith, e, k) in
                let rows = add_family_rows gate g family now expires authorized x k in
                record {
                  reports = ground (arith, e, k);
                  grown = k ∙ ap some same;
                  devices = ap (λ (y : Db). y.devices) (sym same) ∙ rows.0;
                  sessions = ap (λ (y : Db). y.sessions) (sym same) ∙ rows.1;
                  principals = ap (λ (y : Db). y.principals) (sym same) ∙ rows.2;
                  clients = ap (λ (y : Db). y.clients) (sym same) ∙ rows.3;
                }
          ]
        ]

-- The token of the new family, if there is one, is stored, and the user has a current authorization.
abbrev pub has_first_token : Option NewFamily → Db → Bool
has_first_token none db = true
has_first_token (some f) db =
    any (λ t. eq_text t.token_id f.1 && eq_text t.family_id f.0 && ct_eq t.digest f.2) db.tokens
    && any (λ r. eq_text r.family_id f.0) db.families

abbrev pub holds_consumed : Text → Text → Device → Bool
holds_consumed id marker d = holds_marker id marker d && is_state d.state consumed

may_consume_authority :
    (g : DeviceGrant) (db : Db) (now : ℕ)
    → any (may_consume db g now) db.devices ≡ true
    → (has_authority db g.principal_id g.session_id now ≡ true)
      × (is_device_client db g.client_id ≡ true)
unfolding may_consume
may_consume_authority g db now h =
    any_elim (may_consume db g now) db.devices (λ d e. (ground arith, ground arith)) h

taken_holds :
    (g : DeviceGrant) (marker : Text) (db : Db) (now : ℕ) (d : Device)
    → may_consume db g now d ≡ true
    → holds_consumed g.id marker (set_consumed marker d) ≡ true
unfolding may_consume set_consumed holds_marker
taken_holds g marker db now d h = ground (arith, eq_text_refl marker)

has_first_token_open :
    (g : DeviceGrant) (f : Option NewFamily) (now expires : ℕ) (db db' : Db)
    → add_family true g f now expires db ≡ some db'
    → has_first_token f db' ≡ true
unfolding add_family
has_first_token_open g none now expires db db' h = refl
has_first_token_open g (some f) now expires db db' h =
    let token = first_token f.0 f.1 f.2 now expires in
    let there = any (λ r. eq_text r.family_id f.0) db.families in
    let stored =
      any-append_one (λ r. eq_text r.family_id f.0) db.families (new_family g f.0 expires)
        (eq_text_refl f.0) in
    let kept =
      any-append_one (λ t. eq_text t.token_id f.1 && eq_text t.family_id f.0 && ct_eq t.digest f.2)
        db.tokens token (ground (arith, eq_text_refl f.0, eq_text_refl f.1, eq_text_refl f.2)) in
    elim (Bool-cases (there || leb expires now)) [
      | inl e ↦ absurd (ground (arith, e))
      | inr e ↦ elim (Bool-cases (any (clashes token) db.tokens || leb expires now)) [
        | inl m ↦ absurd (ground (arith, e, m))
        | inr m ↦
            let out : db' ≡ record db {
              families = db.families ++ new_family g f.0 expires ∷ [];
              tokens = db.tokens ++ token ∷ [];
            } =
              ground (arith, e, m) in
            rw out (ground (arith, stored, kept))
      ]
    ]

-- A batch that commits and whose first statement changes a row did so under the authority of the session and
-- the client that the grant names; the request then holds the marker, and the refresh family and its
-- first token are stored.
pub consume_won :
    (db db' : Db) (g : DeviceGrant) (f : Option NewFamily) (marker a : Text) (now expires : ℕ)
    → consume db g f marker a now expires ≡ some (db', true)
    → (has_authority db g.principal_id g.session_id now ≡ true)
      × (is_device_client db g.client_id ≡ true)
      × (any (holds_consumed g.id marker) db'.devices ≡ true)
      × (has_first_token f db' ≡ true)
consume_won db db' g f marker a now expires won =
    let c = consume-Committed g f marker a now expires db db' true won in
    let chosen : any (may_consume db g now) db.devices ≡ true = sym c.reports in
    let (live, client) = may_consume_authority g db now chosen in
    let flipped =
      any-update-true (may_consume db g now) (set_consumed marker) (holds_consumed g.id marker)
        db.devices (λ d h. taken_holds g marker db now d h) chosen in
    let marked : any (holds_marker g.id marker) (taken_rows g f marker a now expires db) ≡ true =
      any_imp (holds_consumed g.id marker) (holds_marker g.id marker)
        (update (may_consume db g now) (set_consumed marker) db.devices)
        (λ d h. (&&-eq-true _ _ h).0) flipped in
    (
      live,
      client,
      ap (any (holds_consumed g.id marker)) c.devices ∙ flipped,
      has_first_token_open g f now expires _ db' (rw marked at c.grown),
    )
