-- ===== src/Oauth/Authorize/Flow.antt =====
-- What the authorization endpoint has checked when it answers with a redirect to the client.
use moesegfault_indentity.Base.{
  ℕ, ◌+◌, ◌≡◌, refl, sym, ap, ◌∙◌, Bool, true, false, not, ◌&&◌, Option, none, some, List, [], ◌∷◌,
  inl, inr, arith, Bool-cases, Option-cases, is_some,
}
use moesegfault_indentity.Base.Text.{Text, text, split}
use moesegfault_indentity.Secret.{Crypto}
use moesegfault_indentity.Store.{Db}
use moesegfault_indentity.Guard.{Env, Headers}
use moesegfault_indentity.Session.{CurrentSession, authenticated_session}
use moesegfault_indentity.Oauth.Issue.{OauthClient, Issuance}
use moesegfault_indentity.Oauth.Syntax.{unique_fields, only_fields, authorization_redirect_allowed}
use moesegfault_indentity.Oauth.Exchange.{get}
use moesegfault_indentity.Oauth.Jwt.{Jose, issuance_config}
use moesegfault_indentity.Oauth.Clients.{client, redirect_registrations}
use moesegfault_indentity.Oauth.Codes.{
  scopes_allowed, new_transaction, insert_authorization_transaction,
}
use moesegfault_indentity.Oauth.Authorize.{
  Urls, AuthorizeReply, refused, returned, redirected, broken, Parameters, parameters,
  are_parameters_wrong, openid_scopes, authorization_error, to_login, start_transaction,
  with_current, for_scopes, authorize_client, authorize_parameters, authorize_query, authorize,
  is_prompt_wrong, reused, principal_of, session_of, located, is_prompt, is_top_navigation,
  authorize_fields,
}

module _ (crypto : Crypto) (jose : Jose) (env : Env) (urls : Urls) (header : Headers) where
  -- The query of an error response.
  abbrev error_query : Issuance → Parameters → Text → List (Text × Text)
  error_query i p error =
      (text "error", error) ∷ (text "state", p.state) ∷ (text "iss", i.issuer) ∷ []

  -- The location of an error response is the redirect of the request.
  abbrev IsReturn : Issuance → Parameters → AuthorizeReply → Type 0
  IsReturn i p (returned error l) =
      urls.append_query p.redirect_uri (error_query i p error) ≡ some l
  IsReturn i p (refused r) = Unit {0}
  IsReturn i p (redirected l) = Unit {0}
  IsReturn i p broken = Unit {0}

  authorization_error-IsReturn :
      (i : Issuance) (p : Parameters) (error : Text)
      → IsReturn i p
          (authorization_error crypto jose env urls header p.redirect_uri error p.state i.issuer)
  unfolding authorization_error
  authorization_error-IsReturn i p error =
      elim (Option-cases (urls.append_query p.redirect_uri (error_query i p error))) [
        | inl e ↦ rw (authorization_error, e) tt
        | inr (l, e) ↦ rw (authorization_error, e) e
      ]

  located-IsReturn : (i : Issuance) (p : Parameters) (o : Option Text) → IsReturn i p (located o)
  located-IsReturn i p none = tt
  located-IsReturn i p (some l) = tt

  start_transaction-IsReturn :
      (db : Db) (i : Issuance) (p : Parameters) (scopes : Text) (s : Option CurrentSession)
      (id : Text) (now : ℕ)
      → IsReturn i p (start_transaction crypto jose env urls header db i p scopes s id now).1
  unfolding start_transaction to_login
  start_transaction-IsReturn db i p scopes s id now =
      elim (Option-cases (
        insert_authorization_transaction db (
          new_transaction id p.client_id p.redirect_uri scopes p.state p.nonce p.challenge
            (principal_of s) (session_of s) now (now + 300)))) [
              | inl e ↦ rw (start_transaction, e) tt
              | inr (db', e) ↦ elim (Bool-cases (is_some s)) [
                | inl k ↦ rw (start_transaction, e, k) tt
                | inr k ↦ rw (start_transaction, e, k) (located-IsReturn i p _)
              ]
            ]

  with_current-IsReturn :
      (db : Db) (i : Issuance) (p : Parameters) (scopes : Text) (prompt : Option Text) (id : Text)
      (now : ℕ) (o : Option (Db × Option CurrentSession))
      → IsReturn i p (with_current crypto jose env urls header db i p scopes prompt id now o).1
  with_current-IsReturn db i p scopes prompt id now none = tt
  with_current-IsReturn db i p scopes prompt id now (some (db', current)) =
      elim (Bool-cases (is_prompt prompt (text "none") && not (is_some current))) [
        | inl e ↦ rw e (authorization_error-IsReturn i p (text "login_required"))
        | inr e ↦ rw e (start_transaction-IsReturn db' i p scopes (reused prompt current) id now)
      ]

  for_scopes-IsReturn :
      (db : Db) (i : Issuance) (p : Parameters) (scopes prompt : Option Text) (id : Text)
      (seen now : ℕ)
      → IsReturn i p (for_scopes crypto jose env urls header db i p scopes prompt id seen now).1
  unfolding for_scopes
  for_scopes-IsReturn db i p none prompt id seen now =
      authorization_error-IsReturn i p (text "invalid_scope")
  for_scopes-IsReturn db i p (some scopes) prompt id seen now =
      elim (Bool-cases (scopes_allowed db p.client_id (split b' ' scopes))) [
        | inr e ↦ rw e (authorization_error-IsReturn i p (text "invalid_scope"))
        | inl e ↦ elim (Bool-cases (is_prompt_wrong prompt)) [
          | inl k ↦ rw (e, k) (authorization_error-IsReturn i p (text "invalid_request"))
          | inr k ↦
              rw (e, k)
                (with_current-IsReturn db i p scopes prompt id now
                  (authenticated_session crypto env header db seen))
        ]
      ]

  abbrev pub is_refusal : AuthorizeReply → Bool
  is_refusal (refused r) = true
  is_refusal (returned error l) = false
  is_refusal (redirected l) = false
  is_refusal broken = false

  -- A valid request of an enabled client, at a redirect that is registered for it.
  pub record Accepted (db : Db) (i : Issuance) (o : Option Parameters) (reply : AuthorizeReply)
      : Type 0 where
    pub p : Parameters
    pub complete : o ≡ some p
    pub shaped : are_parameters_wrong urls p ≡ false
    pub c : OauthClient
    pub known : client db p.client_id ≡ some c
    pub registered :
        authorization_redirect_allowed urls.parse c p.redirect_uri
          (redirect_registrations db p.client_id)
        ≡ true
    pub back : IsReturn i p reply

  Accepted-of :
      (db : Db) (i : Issuance) (o : Option Parameters) (reply reply' : AuthorizeReply)
      → reply ≡ reply'
      → Accepted db i o reply'
      → Accepted db i o reply
  Accepted-of db i o reply reply' e a = rw e a

  authorize_parameters-Accepted :
      (db : Db) (i : Issuance) (o : Option Parameters) (prompt : Option Text) (id : Text)
      (seen now : ℕ)
      → is_refusal (authorize_parameters crypto jose env urls header db i o prompt id seen now).1
        ≡ false
      → Accepted db i o
          (authorize_parameters crypto jose env urls header db i o prompt id seen now).1
  unfolding authorize_parameters authorize_client
  authorize_parameters-Accepted db i none prompt id seen now h = absurd (ground arith)
  authorize_parameters-Accepted db i (some p) prompt id seen now h =
      elim (Bool-cases (are_parameters_wrong urls p)) [
        | inl e ↦ absurd (ground (arith, e))
        | inr e ↦ elim (Option-cases (client db p.client_id)) [
          | inl k ↦ absurd (ground (arith, e, k))
          | inr (c, k) ↦
              elim (Bool-cases (
                authorization_redirect_allowed urls.parse c p.redirect_uri
                  (redirect_registrations db p.client_id))) [
                    | inr n ↦ absurd (ground (arith, e, k, n))
                    | inl n ↦ record {
                      p = p;
                      complete = refl;
                      shaped = e;
                      c = c;
                      known = k;
                      registered = n;
                      back =
                          rw (e, k, n)
                            (for_scopes-IsReturn db i p (openid_scopes p.scope) prompt id seen now);
                    }
                  ]
        ]
      ]

  -- Whatever the authorization endpoint answers but a refusal, issuance is configured, the request has every
  -- parameter once and valid, it is one of an enabled client at a redirect that is registered for it, and an
  -- error response goes to that redirect and to no other.
  pub authorize-Accepted :
      (db : Db) (pairs : List (Text × Text)) (id : Text) (seen now : ℕ)
      → is_refusal (authorize crypto jose env urls header db pairs id seen now).1 ≡ false
      → (i : Issuance) × (query : List (Text × Text)) × (issuance_config crypto jose env ≡ some i)
        × (unique_fields 12 [] pairs ≡ some query)
        × Accepted db i
            (parameters query)
            (authorize crypto jose env urls header db pairs id seen now).1
  unfolding authorize authorize_query
  authorize-Accepted db pairs id seen now h =
      elim (Option-cases (issuance_config crypto jose env)) [
        | inl e ↦ absurd (ground (arith, e))
        | inr (i, e) ↦ elim (Bool-cases (is_top_navigation header)) [
          | inr k ↦ absurd (ground (arith, e, k))
          | inl k ↦ elim (Option-cases (unique_fields 12 [] pairs)) [
            | inl n ↦ absurd (ground (arith, e, k, n))
            | inr (query, n) ↦ elim (Bool-cases (only_fields query authorize_fields)) [
              | inr a ↦ absurd (ground (arith, e, k, n, a))
              | inl a ↦
                  let here : authorize crypto jose env urls header db pairs id seen now
                      ≡ authorize_parameters crypto jose env urls header db i (parameters query)
                          (get (text "prompt") query) id seen now =
                    ground (arith, e, k, n, a) in
                  let r =
                    authorize_parameters-Accepted db i (parameters query)
                      (get (text "prompt") query) id seen now
                      (ap (λ (x : Db × AuthorizeReply). is_refusal x.1) (sym here) ∙ h) in
                  (
                    i,
                    query,
                    e,
                    n,
                    Accepted-of db i (parameters query) _ _
                        (ap (λ (x : Db × AuthorizeReply). x.1) here) r,
                  )
            ]
          ]
        ]
      ]
