-- ===== src/Device/Handlers/Consent.antt =====
-- What consent takes, and what a refusal leaves.
use moesegfault_indentity.Base.{
  ℕ, ◌≡◌, refl, sym, ap, ◌∙◌, Bool, true, false, ◌&&◌, any, find, Result, Option, none, some, leb,
  ok, err, Result-cases, [], arith, Bool-cases, Option-cases, inl, inr,
}
use moesegfault_indentity.Base.Text.{Text, text, bytes}
use moesegfault_indentity.Base.Text.Ascii.{eq_text_refl}
use moesegfault_indentity.Secret.{Crypto, Digest, ct_eq}
use moesegfault_indentity.Store.{Db, Device, approved, denied, has_authority}
use moesegfault_indentity.Store.Sql.{update_none, any_elim, any-update-true}
use moesegfault_indentity.Guard.{
  Headers, Env, cookie, session_cookie_name, or_else, validate_browser_mutation,
  validate_session_csrf,
}
use moesegfault_indentity.Session.{
  CurrentSession, authenticated_session, current_session, is_current_session, session_touch_due,
  touch_session,
}
use moesegfault_indentity.Oauth.Issue.{peppered}
use moesegfault_indentity.Device.Codes.{normalize_user_code}
use moesegfault_indentity.Device.Repository.{
  DeviceRequest, Decision, approve, deny, is_state, is_value, lookup, decide, reserve_attempt,
  may_decide, set_decision,
}
use moesegfault_indentity.Device.Handlers.{
  ConsentReply, declined, malformed_request, settled, broken, Readings, browser_session,
  purpose_digest, decide_found, decide_code, decide_counted, decide_request, attempts_left,
  checked_csrf, with_session,
}

abbrev pub is_settled : ConsentReply → Bool
is_settled (settled s) = true
is_settled _ = false

reserve_attempt-devices :
    (db : Db) (b : Digest) (now window limit : ℕ)
    → (reserve_attempt db b now window limit).0.devices ≡ db.devices
unfolding reserve_attempt
reserve_attempt-devices db b now window limit = refl

reserve_attempt-authority :
    (db : Db) (b : Digest) (now window limit : ℕ) (p s : Text) (t : ℕ)
    → has_authority (reserve_attempt db b now window limit).0 p s t ≡ has_authority db p s t
unfolding reserve_attempt has_authority
reserve_attempt-authority db b now window limit p s t = refl

decide-refused :
    (db : Db) (d : Digest) (p s : Text) (decision : Decision) (now : ℕ)
    → (decide db d p s decision now).1 ≡ false
    → (decide db d p s decision now).0.devices ≡ db.devices
unfolding decide
decide-refused db d p s decision now h =
    update_none (may_decide db d p s now) (set_decision p s decision) db.devices h

decide-authority :
    (db : Db) (d : Digest) (p s : Text) (decision : Decision) (now : ℕ)
    → (decide db d p s decision now).1 ≡ true
    → has_authority db p s now ≡ true
unfolding decide may_decide
decide-authority db d p s decision now h =
    any_elim (may_decide db d p s now) db.devices (λ r e. ground arith) h

-- A request that a decision of a session has left under the digest of its code.
abbrev pub decided_row : Digest → CurrentSession → Decision → Device → Bool
decided_row digest s approve d =
    ct_eq d.user_code_digest digest
    && is_state d.state approved
    && is_value d.principal_id s.principal_id
    && is_value d.session_id s.session_id
decided_row digest s deny d = ct_eq d.user_code_digest digest && is_state d.state denied

set_decision-row :
    (db : Db) (digest : Digest) (s : CurrentSession) (decision : Decision) (now : ℕ) (d : Device)
    → may_decide db digest s.principal_id s.session_id now d ≡ true
    → decided_row digest s decision (set_decision s.principal_id s.session_id decision d) ≡ true
unfolding may_decide set_decision
set_decision-row db digest s approve now d h =
    ground (arith, eq_text_refl s.principal_id, eq_text_refl s.session_id)
set_decision-row db digest s deny now d h = ground arith

decide-row :
    (db : Db) (digest : Digest) (s : CurrentSession) (decision : Decision) (now : ℕ)
    → (decide db digest s.principal_id s.session_id decision now).1 ≡ true
    → any
        (decided_row digest s decision)
        (decide db digest s.principal_id s.session_id decision now).0.devices
      ≡ true
unfolding decide
decide-row db digest s decision now h =
    any-update-true (may_decide db digest s.principal_id s.session_id now)
      (set_decision s.principal_id s.session_id decision) (decided_row digest s decision) db.devices
      (λ d e. set_decision-row db digest s decision now d e) h

-- A run that changed no device row, or settled a request with a result.
Keeps : (Db → Type 0) → Db → Db × ConsentReply → Type 0
Keeps result db run =
    (is_settled run.1 ≡ false → run.0.devices ≡ db.devices)
    × (is_settled run.1 ≡ true → result run.0)

-- Along an equation of runs, the second from a state with the same devices and with a result that says more.
Keeps-along :
    (result result' : Db → Type 0) (db db' : Db) (run run' : Db × ConsentReply)
    → db'.devices ≡ db.devices
    → ((x : Db) → result' x → result x)
    → run ≡ run'
    → Keeps result' db' run'
    → Keeps result db run
unfolding Keeps
Keeps-along result result' db db' run run' same more e k =
    rw e (λ h. k.0 h ∙ same, λ h. more run'.0 (k.1 h))

Keeps-declined :
    (result : Db → Type 0) (db db' : Db) (r : ConsentReply)
    → is_settled r ≡ false
    → db'.devices ≡ db.devices
    → Keeps result db (db', r)
unfolding Keeps
Keeps-declined result db db' r n same = (λ h. same, λ h. absurd (ground arith))

module _ (crypto : Crypto) (env : Env) (header : Headers) where
  -- The code of a decision that was taken, and the request that it left, under an authority in force.
  pub record Taken (db : Db) (s : CurrentSession) (user_code : Text) (decision : Decision)
      (last : ℕ) (db' : Db) : Type 0 where
    pub code : Text
    pub normal : normalize_user_code user_code ≡ some code
    pub digest : Digest
    pub hashed : purpose_digest crypto env header (text "user-code") code ≡ some digest
    pub authority : has_authority db s.principal_id s.session_id last ≡ true
    pub row : any (decided_row digest s decision) db'.devices ≡ true

  -- The same for the digest of a code.
  abbrev Left : Db → CurrentSession → Digest → Decision → ℕ → Db → Type 0
  Left db s digest decision last db' =
      (has_authority db s.principal_id s.session_id last ≡ true)
      × (any (decided_row digest s decision) db'.devices ≡ true)

  decide_found-Keeps :
      (db : Db) (s : CurrentSession) (d : Digest) (decision : Decision) (t : Readings)
      (f : Option DeviceRequest)
      → Keeps (Left db s d decision t.last) db (decide_found crypto env header db s d decision t f)
  unfolding Keeps decide_found
  decide_found-Keeps db s d decision t none = (λ h. refl, λ h. cc h)
  decide_found-Keeps db s d decision t (some f) =
      let run = decide db d s.principal_id s.session_id decision t.last in
      let refused = decide-refused db d s.principal_id s.session_id decision t.last in
      let live = decide-authority db d s.principal_id s.session_id decision t.last in
      elim (Bool-cases (leb f.expires_at t.compared)) [
        | inl e ↦ rw e (λ h. refl, λ h. cc h)
        | inr e ↦ elim (Bool-cases run.1) [
          | inl k ↦ rw (e, k) (λ h. cc h, λ h. (live k, decide-row db d s decision t.last k))
          | inr k ↦ rw (e, k) (λ h. refused k, λ h. cc h)
        ]
      ]

  decide_code-Keeps :
      (db : Db) (s : CurrentSession) (user_code : Text) (decision : Decision) (t : Readings)
      → Keeps
          (Taken db s user_code decision t.last)
          db
          (decide_code crypto env header db s (normalize_user_code user_code) decision t)
  unfolding decide_code
  decide_code-Keeps db s user_code decision t =
      elim (Option-cases (normalize_user_code user_code)) [
        | inl n ↦ rw n (Keeps-declined (Taken db s user_code decision t.last) db db _ refl refl)
        | inr (code, n) ↦
            elim (Option-cases (purpose_digest crypto env header (text "user-code") code)) [
              | inl e ↦
                  rw (n, decide_code, e)
                    (Keeps-declined (Taken db s user_code decision t.last) db db broken refl refl)
              | inr (d, e) ↦
                  Keeps-along (Taken db s user_code decision t.last) (Left db s d decision t.last)
                    db db
                    (decide_code crypto env header db s (normalize_user_code user_code) decision t)
                    (decide_found crypto env header db s d decision t (lookup db d)) refl
                    (λ x k. record {
                      code = code;
                      normal = n;
                      digest = d;
                      hashed = e;
                      authority = k.0;
                      row = k.1;
                    })
                    (rw (n, decide_code, e) refl)
                    (decide_found-Keeps db s d decision t (lookup db d))
            ]
      ]

  decide_counted-Keeps :
      (db : Db) (s : CurrentSession) (user_code : Text) (decision : Decision) (t : Readings)
      → Keeps
          (Taken db s user_code decision t.last)
          db
          (decide_counted crypto env header db s user_code decision t)
  unfolding decide_counted
  decide_counted-Keeps db s user_code decision t =
      let result = Taken db s user_code decision t.last in
      let run = decide_counted crypto env header db s user_code decision t in
      elim (Option-cases
        (purpose_digest crypto env header (text "verification-decision") s.principal_id)) [
          | inl e ↦
              Keeps-along result result db db run (db, broken) refl (λ x k. k) (ground (arith, e))
                (Keeps-declined result db db broken refl refl)
          | inr (b, e) ↦
              let step = reserve_attempt db b t.reserved 3600 100 in
              let same = reserve_attempt-devices db b t.reserved 3600 100 in
              let still =
                reserve_attempt-authority db b t.reserved 3600 100 s.principal_id s.session_id
                  t.last in
              let late = declined (attempts_left crypto env header t.reserved) in
              elim (Bool-cases step.1) [
                | inl k ↦
                    Keeps-along result (Taken step.0 s user_code decision t.last) db step.0 run
                      (decide_code crypto env header step.0 s (normalize_user_code user_code)
                        decision t)
                      same
                      (λ x q. record {
                        code = q.code;
                        normal = q.normal;
                        digest = q.digest;
                        hashed = q.hashed;
                        authority = sym still ∙ q.authority;
                        row = q.row;
                      })
                      (ground (arith, e, k)) (decide_code-Keeps step.0 s user_code decision t)
                | inr k ↦
                    Keeps-along result result db db run (step.0, late) refl (λ x q. q)
                      (ground (arith, e, k)) (Keeps-declined result db step.0 late refl same)
              ]
        ]

  -- What the browser checks have shown of a request.
  pub record Checked (db : Db) (now : ℕ) (db' : Db) (s : CurrentSession) : Type 0 where
    pub browser : validate_browser_mutation header env ≡ ok tt
    pub signed_in : authenticated_session crypto env header db now ≡ some (db', some s)
    pub pepper : Text
    pub configured : env.secret (text "CSRF_PEPPER") ≡ some pepper
    pub csrf :
        validate_session_csrf crypto header
          (or_else (cookie header session_cookie_name) [])
          (bytes pepper)
        ≡ true

  checked_csrf-ok :
      (p : Option Text) (x s : CurrentSession)
      → checked_csrf crypto env header p x ≡ ok s
      → (x ≡ s)
        × (pepper : Text) × (p ≡ some pepper)
        × (validate_session_csrf crypto header
              (or_else (cookie header session_cookie_name) [])
              (bytes pepper)
            ≡ true)
  checked_csrf-ok none x s h = cc
  checked_csrf-ok (some p) x s h =
      elim (Bool-cases (
        validate_session_csrf crypto header (or_else (cookie header session_cookie_name) [])
          (bytes p))) [
            | inl e ↦ (ground (arith, e), p, refl, e)
            | inr e ↦ absurd (ground (arith, e))
          ]

  checked_csrf-err :
      (p : Option Text) (x : CurrentSession) (r : ConsentReply)
      → checked_csrf crypto env header p x ≡ err r
      → is_settled r ≡ false
  checked_csrf-err none x r h = ground arith
  checked_csrf-err (some p) x r h =
      elim (Bool-cases (
        validate_session_csrf crypto header (or_else (cookie header session_cookie_name) [])
          (bytes p))) [ inl e ↦ absurd (ground (arith, e)) | inr e ↦ ground (arith, e) ]

  with_session-ok :
      (db : Db) (x : Option (Db × Option CurrentSession)) (s : CurrentSession)
      → (with_session crypto env header db x).1 ≡ ok s
      → (x ≡ some ((with_session crypto env header db x).0, some s))
        × (pepper : Text) × (env.secret (text "CSRF_PEPPER") ≡ some pepper)
        × (validate_session_csrf crypto header
              (or_else (cookie header session_cookie_name) [])
              (bytes pepper)
            ≡ true)
  with_session-ok db none s h = cc
  with_session-ok db (some (db', none)) s h = cc
  with_session-ok db (some (db', some x)) s h =
      let r = checked_csrf-ok (env.secret (text "CSRF_PEPPER")) x s h in
      (ap (λ (y : CurrentSession). some (db', some y)) r.0, r.1, r.2, r.3)

  with_session-err :
      (db : Db) (x : Option (Db × Option CurrentSession)) (r : ConsentReply)
      → (with_session crypto env header db x).1 ≡ err r
      → is_settled r ≡ false
  with_session-err db none r h = ground arith
  with_session-err db (some (db', none)) r h = ground arith
  with_session-err db (some (db', some x)) r h =
      checked_csrf-err (env.secret (text "CSRF_PEPPER")) x r h

  current_session-devices :
      (db : Db) (d : Digest) (now : ℕ) → (current_session db d now).0.devices ≡ db.devices
  unfolding current_session
  current_session-devices db d now =
      elim (Option-cases (find (is_current_session db d now) db.sessions)) [
        | inl e ↦ rw (current_session, e) refl
        | inr (s, e) ↦ elim (Bool-cases (session_touch_due s.last_seen_at now)) [
          | inl k ↦ rw (current_session, e, k) (unfold touch_session in refl)
          | inr k ↦ rw (current_session, e, k) refl
        ]
      ]

  authenticated-devices :
      (db db' : Db) (now : ℕ) (s : Option CurrentSession)
      → authenticated_session crypto env header db now ≡ some (db', s)
      → db'.devices ≡ db.devices
  unfolding authenticated_session
  authenticated-devices db db' now s h = elim (Option-cases (cookie header session_cookie_name)) [
    | inl e ↦ ground (arith, e)
    | inr (wire, e) ↦
        elim (Option-cases (peppered crypto env (text "SESSION_PEPPER") (bytes wire))) [
          | inl k ↦ absurd (ground (arith, e, k))
          | inr (d, k) ↦
              let run : some (current_session db d now) ≡ some (db', s) = ground (arith, e, k) in
              let out : current_session db d now ≡ (db', s) = ground (arith, run) in
              sym (ap (λ (x : Db × Option CurrentSession). x.0.devices) out)
              ∙ current_session-devices db d now
        ]
  ]

  with_session-devices :
      (db : Db) (x : Option (Db × Option CurrentSession))
      → ((db' : Db) (s : Option CurrentSession) → x ≡ some (db', s) → db'.devices ≡ db.devices)
      → (with_session crypto env header db x).0.devices ≡ db.devices
  with_session-devices db none h = refl
  with_session-devices db (some (db', none)) h = h db' none refl
  with_session-devices db (some (db', some s)) h = h db' (some s) refl

  browser_session-devices :
      (db : Db) (now : ℕ) → (browser_session crypto env header db now).0.devices ≡ db.devices
  unfolding browser_session
  browser_session-devices db now = elim (Result-cases (validate_browser_mutation header env)) [
    | inl (e, bad) ↦ rw (browser_session, bad) refl
    | inr (u, good) ↦
        rw (browser_session, good)
          (with_session-devices db (authenticated_session crypto env header db now)
            (λ db' s e. authenticated-devices db db' now s e))
  ]

  browser_session-ok :
      (db : Db) (now : ℕ) (s : CurrentSession)
      → (browser_session crypto env header db now).1 ≡ ok s
      → Checked db now (browser_session crypto env header db now).0 s
  unfolding browser_session
  browser_session-ok db now s h = elim (Result-cases (validate_browser_mutation header env)) [
    | inl (e, bad) ↦ absurd (ground (arith, bad))
    | inr (u, good) ↦
        let out : browser_session crypto env header db now
            ≡ with_session crypto env header db (authenticated_session crypto env header db now) =
          rw (browser_session, good) refl in
        let (signed, pepper, configured, csrf) =
          with_session-ok db (authenticated_session crypto env header db now) s
            (ap (λ (x : Db × Result ConsentReply CurrentSession). x.1) (sym out) ∙ h) in
        rw out (record {
          browser = good;
          signed_in = signed;
          pepper = pepper;
          configured = configured;
          csrf = csrf;
        })
  ]

  browser_session-err :
      (db : Db) (now : ℕ) (r : ConsentReply)
      → (browser_session crypto env header db now).1 ≡ err r
      → is_settled r ≡ false
  unfolding browser_session
  browser_session-err db now r h = elim (Result-cases (validate_browser_mutation header env)) [
    | inl (e, bad) ↦ ground (arith, bad)
    | inr (u, good) ↦
        let out : browser_session crypto env header db now
            ≡ with_session crypto env header db (authenticated_session crypto env header db now) =
          rw (browser_session, good) refl in
        with_session-err db (authenticated_session crypto env header db now) r
          (ap (λ (x : Db × Result ConsentReply CurrentSession). x.1) (sym out) ∙ h)
  ]

  -- A decision that was answered as taken: who made it, on what, and what it left.
  pub record Decided (body : Option (Text × Decision)) (db : Db) (t : Readings) (db' : Db)
      : Type 0 where
    pub mid : Db
    pub s : CurrentSession
    pub checks : Checked db t.authenticated mid s
    pub input : Text × Decision
    pub read : body ≡ some input
    pub taken : Taken mid s input.0 input.1 t.last db'

  -- A device request is decided only for a request that passes the origin and content checks and whose CSRF
  -- header answers its session cookie, by the session of that cookie, whose principal and session are in force
  -- at that moment; then a request under the digest of the presented code is denied, or approved for that
  -- principal and session. Every other answer leaves all device requests as they were.
  pub decide_request_lem :
      (body : Option (Text × Decision)) (db : Db) (t : Readings)
      → (is_settled (decide_request crypto env header body db t).1 ≡ false
          → (decide_request crypto env header body db t).0.devices ≡ db.devices)
        × (is_settled (decide_request crypto env header body db t).1 ≡ true
            → Decided body db t (decide_request crypto env header body db t).0)
  unfolding Keeps decide_request
  decide_request_lem body db t =
      let run = browser_session crypto env header db t.authenticated in
      let same = browser_session-devices db t.authenticated in
      elim (Result-cases run.1) [
        | inl (r, e) ↦
            let out : decide_request crypto env header body db t ≡ (run.0, r) =
              rw (decide_request, e) refl in
            rw out
              (λ h. same, λ h. absurd (ground (arith, browser_session-err db t.authenticated r e)))
        | inr (s, e) ↦ elim (Option-cases body) [
          | inl k ↦
              let out : decide_request crypto env header body db t
                  ≡ (run.0, declined malformed_request) =
                rw (decide_request, e, k) refl in
              rw out (λ h. same, λ h. cc h)
          | inr (input, k) ↦
              let out : decide_request crypto env header body db t
                  ≡ decide_counted crypto env header run.0 s input.0 input.1 t =
                rw (decide_request, e, k) refl in
              let kept = decide_counted-Keeps run.0 s input.0 input.1 t in
              rw out (
                λ h. kept.0 h ∙ same,
                λ h. record {
                  mid = run.0;
                  s = s;
                  checks = browser_session-ok db t.authenticated s e;
                  input = input;
                  read = k;
                  taken = kept.1 h;
                },
              )
        ]
      ]
