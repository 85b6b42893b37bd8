-- ===== src/Oauth/Token/Gate.antt =====
-- Client authentication in front of the grants.
use moesegfault_indentity.Base.{
  ℕ, ◌≡◌, refl, ap, ◌∙◌, Bool, true, false, Option, none, some, List, [], ◌∷◌, ◌++◌, ◌||◌, any,
  any-append, is_some, inl, inr, arith, Bool-cases, Option-cases, ltb, length,
}
use moesegfault_indentity.Base.Json.{Json, str_field}
use moesegfault_indentity.Base.Text.{Text, text, bytes}
use moesegfault_indentity.Base.Text.Ascii.{eq_text_refl}
use moesegfault_indentity.Secret.{Crypto, Digest}
use moesegfault_indentity.Store.{Db}
use moesegfault_indentity.Store.Registry.{Assertion}
use moesegfault_indentity.Store.Sql.{any-append_one}
use moesegfault_indentity.Guard.{Env}
use moesegfault_indentity.Oauth.Issue.{OauthClient, Issuance, Signer, Draw}
use moesegfault_indentity.Oauth.Syntax.{eq_option, only_fields}
use moesegfault_indentity.Oauth.Exchange.{get}
use moesegfault_indentity.Oauth.Exchange.Runs.{is_issued}
use moesegfault_indentity.Oauth.Jwt.{Jose, ParsedJwt, parse_jwt, issuance_config, time_claim}
use moesegfault_indentity.Oauth.Clients.{
  client, is_assertion, record_client_assertion, is_public_client, are_claims_wrong, record_jti,
  check_signature, check_assertion, authenticate_found, authenticate_client_at, authenticate_client,
  to_seconds, non_empty, client_assertion_type,
}
use moesegfault_indentity.Oauth.Token.{
  TokenReply, declined, answered, GrantType, authorization_code_grant, device_grant,
  refresh_grant_type, other_grant, grant_type, allowed_fields, dispatch, for_client, has_unexpected,
  token_fields, token,
}

recorded :
    (db db' : Db) (c : Text) (d : Digest) (e : ℕ)
    → record_client_assertion db c d e ≡ some db'
    → (any (is_assertion c d) db'.assertions ≡ true)
      × ((q : Assertion → Bool) → any q db.assertions ≡ true → any q db'.assertions ≡ true)
unfolding record_client_assertion
recorded db db' c d e h = elim (Bool-cases (any (is_assertion c d) db.assertions)) [
  | inl k ↦ absurd (ground (arith, k))
  | inr k ↦
      let row : Assertion = record { client_id = c; jti_digest = d; expires_at = e } in
      let rows : db'.assertions ≡ db.assertions ++ row ∷ [] = ground (arith, k) in
      (
        rw rows (
            any-append_one (is_assertion c d) db.assertions row
              (unfold is_assertion in ground (arith, eq_text_refl c, eq_text_refl d))),
        λ q there. rw rows (any-append q db.assertions (row ∷ []) ∙ ground (arith, there)),
      )
]

there_refused :
    (db : Db) (c : Text) (d : Digest) (e : ℕ)
    → any (is_assertion c d) db.assertions ≡ true
    → record_client_assertion db c d e ≡ none
unfolding record_client_assertion
there_refused db c d e h = rw h refl

-- Every assertion that was recorded is still there.
abbrev Keeps : Db → Db → Type 0
Keeps db db' = (q : Assertion → Bool) → any q db.assertions ≡ true → any q db'.assertions ≡ true

module _ (crypto : Crypto) (jose : Jose) where
  -- The identifier of an assertion is recorded for a client.
  record Spent (id : Text) (wire : Option Text) (db : Db) : Type 0 where
    token : Text
    sent : wire ≡ some token
    parsed : ParsedJwt
    read : parse_jwt crypto jose token ≡ some parsed
    jti : Text
    named : non_empty (str_field (text "jti") parsed.claims) ≡ some jti
    there : any (is_assertion id (crypto.sha256 (bytes jti))) db.assertions ≡ true

  record_jti-Keeps :
      (db db' : Db) (c c' : OauthClient) (id aud : Text) (now : ℕ) (claims : Json)
      (name : Option Text)
      → record_jti crypto jose db c id aud now claims name ≡ some (db', c')
      → Keeps db db'
        × (jti : Text) × (name ≡ some jti)
        × (any (is_assertion id (crypto.sha256 (bytes jti))) db'.assertions ≡ true)
  unfolding record_jti
  record_jti-Keeps db db' c c' id aud now claims none h = absurd (ground arith)
  record_jti-Keeps db db' c c' id aud now claims (some jti) h =
      let d = crypto.sha256 (bytes jti) in
      let e = to_seconds (time_claim (text "exp") claims) in
      elim (Bool-cases (are_claims_wrong id aud now claims)) [
        | inl k ↦ absurd (ground (arith, k))
        | inr k ↦ elim (Option-cases (record_client_assertion db id d e)) [
          | inl m ↦ absurd (ground (arith, k, m))
          | inr (x, m) ↦
              let same : x ≡ db' = ground (arith, k, m) in
              let (mark, keeps) = recorded db db' id d e (m ∙ ap some same) in
              (keeps, jti, refl, mark)
        ]
      ]

  check_assertion-Spent :
      (db db' : Db) (c c' : OauthClient) (id aud : Text) (now : ℕ) (wire : Option Text)
      → check_assertion crypto jose db c id aud now wire ≡ some (db', c')
      → Keeps db db' × Spent id wire db'
  unfolding check_assertion
  check_assertion-Spent db db' c c' id aud now none h = absurd (ground arith)
  check_assertion-Spent db db' c c' id aud now (some wire) h =
      elim (Option-cases (parse_jwt crypto jose wire)) [
        | inl e ↦ absurd (ground (arith, e))
        | inr (parsed, e) ↦
            elim (Bool-cases (
              check_signature crypto jose db id parsed (str_field (text "kid") parsed.header)
                (str_field (text "alg") parsed.header))) [
                  | inr k ↦ absurd (ground (arith, e, k))
                  | inl k ↦
                      let r =
                        record_jti-Keeps db db' c c' id aud now parsed.claims
                          (non_empty (str_field (text "jti") parsed.claims))
                          (ground (arith, e, k)) in
                      (
                        r.0,
                        record {
                          token = wire;
                          sent = refl;
                          parsed = parsed;
                          read = e;
                          jti = r.1;
                          named = r.2;
                          there = r.3;
                        },
                      )
                ]
      ]

  -- An authentication keeps the recorded assertions, and records that of a client that is not public.
  authenticate-Spent :
      (db db' : Db) (c : OauthClient) (id aud : Text) (fields : List (Text × Text)) (now : ℕ)
      → authenticate_client_at crypto jose db id fields aud now ≡ some (db', c)
      → Keeps db db'
        × (is_public_client c ≡ false → Spent id (get (text "client_assertion") fields) db')
  unfolding authenticate_client_at authenticate_found
  authenticate-Spent db db' c id aud fields now h = elim (Option-cases (client db id)) [
    | inl e ↦ absurd (ground (arith, e))
    | inr (c0, e) ↦ elim (Bool-cases (is_public_client c0)) [
      | inl k ↦
          elim (Bool-cases (
            is_some (get (text "client_assertion") fields)
            || is_some (get (text "client_assertion_type") fields))) [
              | inl n ↦ absurd (ground (arith, e, k, n))
              | inr n ↦
                  let out : ◌≡◌ {A = Option (Db × OauthClient)} (some (db, c0)) (some (db', c)) =
                    ground (arith, e, k, n) in
                  let same : db ≡ db' = ground (arith, out) in
                  let who : c0 ≡ c = ground (arith, out) in
                  (
                    λ q there. rw (← same) there,
                    λ private. absurd (ground (arith, private, k, ap is_public_client who)),
                  )
            ]
      | inr k ↦
          elim (Bool-cases
            (eq_option (get (text "client_assertion_type") fields) (some client_assertion_type))) [
              | inr n ↦ absurd (ground (arith, e, k, n))
              | inl n ↦
                  let r =
                    check_assertion-Spent db db' c0 c id aud now
                      (get (text "client_assertion") fields) (ground (arith, e, k, n)) in
                  (r.0, λ private. r.1)
            ]
    ]
  ]

  Spent-refused :
      (db : Db) (id aud : Text) (fields : List (Text × Text)) (now : ℕ)
      → Spent id (get (text "client_assertion") fields) db
      → authenticate_client_at crypto jose db id fields aud now ≡ none
  unfolding authenticate_client_at authenticate_found
  Spent-refused db id aud fields now s = elim (Option-cases (client db id)) [
    | inl e ↦ ground (arith, e)
    | inr (c, e) ↦
        let refused : check_assertion crypto jose db c id aud now (some s.token) ≡ none =
          unfold check_assertion record_jti in
          ground (
            arith,
            s.read,
            s.named,
            there_refused db id (crypto.sha256 (bytes s.jti))
                (to_seconds (time_claim (text "exp") s.parsed.claims)) s.there,
          ) in
        ground (arith, e, s.sent, refused)
  ]

  -- An attempt to authenticate, of any client.
  pub record Attempt : Type 0 where
    pub who : Text
    pub fields : List (Text × Text)
    pub audience : Text
    pub at : ℕ

  -- The state after an attempt, which a refusal leaves as it was.
  abbrev left_by : Db → Option (Db × OauthClient) → Db
  left_by db none = db
  left_by db (some r) = r.0

  unfoldable pub attempts : List Attempt → Db → Db
  attempts [] db = db
  attempts (a ∷ rest) db =
      attempts rest
        (left_by db (authenticate_client_at crypto jose db a.who a.fields a.audience a.at))

  attempts-Keeps : (rest : List Attempt) (db : Db) → Keeps db (attempts rest db)
  unfolding attempts
  attempts-Keeps [] db q there = there
  attempts-Keeps (a ∷ rest) db q there =
      let login = authenticate_client_at crypto jose db a.who a.fields a.audience a.at in
      elim (Option-cases login) [
        | inl e ↦ rw (attempts, e) (attempts-Keeps rest db q there)
        | inr ((db', c), e) ↦
            let kept = (authenticate-Spent db db' c a.who a.audience a.fields a.at e).0 in
            rw (attempts, e) (attempts-Keeps rest db' q (kept q there))
      ]

  -- A client assertion authenticates its client once: after it has, the same assertion is refused for that
  -- client, whatever else the form holds, for whatever audience, at whatever time, and whatever attempts to
  -- authenticate, of whatever clients, come between.
  pub assertion_once :
      (db db' : Db) (c : OauthClient) (id aud aud' : Text) (fields fields' : List (Text × Text))
      (now now' : ℕ) (between : List Attempt)
      → authenticate_client_at crypto jose db id fields aud now ≡ some (db', c)
      → is_public_client c ≡ false
      → get (text "client_assertion") fields' ≡ get (text "client_assertion") fields
      → authenticate_client_at crypto jose (attempts between db') id fields' aud' now' ≡ none
  assertion_once db db' c id aud aud' fields fields' now now' between h private same =
      let s = (authenticate-Spent db db' c id aud fields now h).1 private in
      Spent-refused (attempts between db') id aud' fields' now' (record {
        token = s.token;
        sent = same ∙ s.sent;
        parsed = s.parsed;
        read = s.read;
        jti = s.jti;
        named = s.named;
        there = attempts-Keeps between db' (is_assertion id (crypto.sha256 (bytes s.jti))) s.there;
      })

abbrev pub is_token : TokenReply → Bool
is_token (declined r) = false
is_token (answered r) = is_issued r

-- What the token endpoint has established when it issues tokens.
pub record Authenticated (crypto : Crypto) (jose : Jose) (env : Env) (db : Db)
    (fields : List (Text × Text)) (now : ℕ) : Type 0 where
  pub i : Issuance
  pub configured : issuance_config crypto jose env ≡ some i
  pub client_id : Text
  pub named : get (text "client_id") fields ≡ some client_id
  pub after : Db
  pub who : OauthClient
  pub authenticated :
      authenticate_client crypto jose db client_id fields i.issuer now ≡ some (after, who)
  pub only : only_fields fields (allowed_fields (grant_type fields)) ≡ true

module _ (crypto : Crypto) (jose : Jose) (env : Env) (signer : Signer) (draw : Draw) (clock : ℕ)
    (db : Db) (fields : List (Text × Text)) (now : ℕ) where
  dispatch_other :
      (i : Issuance) (c : OauthClient) (g : GrantType) (mid : Db)
      → is_token (dispatch crypto jose env signer draw clock i c g mid fields now).1 ≡ true
      → ltb 0 (length (allowed_fields g)) ≡ true
  unfolding dispatch allowed_fields
  dispatch_other i c authorization_code_grant mid h = refl
  dispatch_other i c device_grant mid h = refl
  dispatch_other i c refresh_grant_type mid h = refl
  dispatch_other i c other_grant mid h = absurd (ground arith)

  -- The token endpoint issues tokens only when issuance is configured, to a client that the request names and
  -- that authenticates, and for a form that holds no field but those of its grant.
  pub token-Authenticated :
      is_token (token crypto jose env signer draw clock db (some fields) now).1 ≡ true
      → Authenticated crypto jose env db fields now
  unfolding token token_fields for_client
  token-Authenticated h = elim (Option-cases (issuance_config crypto jose env)) [
    | inl e ↦ absurd (ground (arith, e))
    | inr (i, e) ↦ elim (Bool-cases (has_unexpected crypto jose env signer draw clock fields)) [
      | inl k ↦ absurd (ground (arith, e, k))
      | inr k ↦ elim (Option-cases (get (text "client_id") fields)) [
        | inl n ↦ absurd (ground (arith, e, k, n))
        | inr (id, n) ↦
            elim (Option-cases (authenticate_client crypto jose db id fields i.issuer now)) [
              | inl a ↦ absurd (ground (arith, e, k, n, a))
              | inr ((mid, c), a) ↦
                  let known =
                    dispatch_other i c (grant_type fields) mid (ground (arith, e, k, n, a)) in
                  record {
                    i = i;
                    configured = e;
                    client_id = id;
                    named = n;
                    after = mid;
                    who = c;
                    authenticated = a;
                    only = ground (arith, k, known);
                  }
            ]
      ]
    ]
  ]
