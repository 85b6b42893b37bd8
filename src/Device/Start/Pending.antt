-- ===== src/Device/Start/Pending.antt =====
-- What a device is told, and the request that is written for it.
use moesegfault_indentity.Base.{
  ◌+◌, ◌-◌, ◌%◌, ◌≡◌, refl, ap, true, Option, none, some, List, [], ◌∷◌, ◌++◌, arith, inl, inr,
  Bool-cases, Option-cases,
}
use moesegfault_indentity.Base.Text.{Text, text, split}
use moesegfault_indentity.Secret.{Crypto, Digest}
use moesegfault_indentity.Store.{Db}
use moesegfault_indentity.Guard.{Headers, Env, or_else}
use moesegfault_indentity.Oauth.Issue.{OauthClient, Issuance}
use moesegfault_indentity.Oauth.Exchange.{get}
use moesegfault_indentity.Oauth.Syntax.{only_fields}
use moesegfault_indentity.Oauth.Jwt.{Jose, issuance_config}
use moesegfault_indentity.Oauth.Clients.{authenticate_client_at}
use moesegfault_indentity.Oauth.Codes.{scopes_allowed}
use moesegfault_indentity.Oauth.Authorize.{Urls}
use moesegfault_indentity.Device.Codes.{lifetime, formatted_user_code}
use moesegfault_indentity.Device.Handlers.{purpose_digest}
use moesegfault_indentity.Device.Repository.{insert, reserve_attempt}
use moesegfault_indentity.Device.Start.{
  StartDraw, Started, StartReply, started, device_scopes, random_user_code, start_fields,
  start_reply, reply_with, verification_uri, declined, scope_not_registered, slow_down,
  unauthorized_client, unavailable, malformed, client_failed, stored, inserted, for_scope,
  start_scoped, counted, limited, start_client, named_client, start_form, start,
}

abbrev or_none : Option Digest → Digest
or_none none = []
or_none (some d) = d

module _ (crypto : Crypto) (jose : Jose) (env : Env) (urls : Urls) (draw : StartDraw)
    (header : Headers) where
  -- The request that is written, in the tables at that time, and what is shown of it.
  pub record Written (client_id : Text) (fields : List (Text × Text)) (db' : Db) (r : Started)
      : Type 0 where
    pub before : Db
    pub scope : Text
    pub canonical : device_scopes (or_else (get (text "scope") fields) (text "openid")) ≡ some scope
    pub registered : scopes_allowed before client_id (split b' ' scope) ≡ true
    pub device_digest : Digest
    pub user_digest : Digest
    pub of_device :
        purpose_digest crypto env header (text "device-code") r.device_code ≡ some device_digest
    pub of_user :
        purpose_digest crypto env header (text "user-code") (random_user_code draw.indices)
        ≡ some user_digest
    pub row :
        insert before draw.id device_digest user_digest client_id scope draw.last
          (draw.last + lifetime)
        ≡ some db'
    pub displayed : r.user_code ≡ formatted_user_code (random_user_code draw.indices)

  reply_codes :
      (u : Text) (c : Option Text) (r : Started)
      → reply_with crypto jose env urls draw header u c ≡ started r
      → (r.user_code ≡ u) × (r.device_code ≡ draw.device_code)
  reply_codes u none r h = absurd (ground arith)
  reply_codes u (some c) r h = ground arith

  stored-some :
      (db : Db) (x : Option Db) (db' : Db) (r : Started)
      → stored crypto jose env urls draw header db x ≡ (db', started r)
      → (x ≡ some db')
        × (start_reply crypto jose env urls draw header
              (formatted_user_code (random_user_code draw.indices))
            ≡ started r)
  stored-some db none db' r h = absurd (ground (arith, ap (λ (x : Db × StartReply). x.1) h))
  stored-some db (some x) db' r h =
      (ap (λ (x : Db × StartReply). some x.0) h, ap (λ (x : Db × StartReply). x.1) h)

  -- What is known when both digests are there and the row is written.
  inserted-some :
      (db : Db) (client_id scope : Text) (a b : Option Digest) (db' : Db) (r : Started)
      → inserted crypto jose env urls draw header db client_id scope a b ≡ (db', started r)
      → (a ≡ some (or_none a))
        × (b ≡ some (or_none b))
        × (insert db draw.id
              (or_none a)
              (or_none b)
              client_id
              scope
              draw.last
              (draw.last + lifetime)
            ≡ some db')
        × (start_reply crypto jose env urls draw header
              (formatted_user_code (random_user_code draw.indices))
            ≡ started r)
  inserted-some db client_id scope none b db' r h =
      absurd (ground (arith, ap (λ (x : Db × StartReply). x.1) h))
  inserted-some db client_id scope (some a) none db' r h =
      absurd (ground (arith, ap (λ (x : Db × StartReply). x.1) h))
  inserted-some db client_id scope (some a) (some b) db' r h =
      let (row, reply) =
        stored-some db (insert db draw.id a b client_id scope draw.last (draw.last + lifetime)) db'
          r h in
      (refl, refl, row, reply)

  for_scope-Written :
      (db : Db) (client_id : Text) (fields : List (Text × Text)) (scope : Option Text) (db' : Db)
      (r : Started)
      → device_scopes (or_else (get (text "scope") fields) (text "openid")) ≡ scope
      → for_scope crypto jose env urls draw header db client_id scope ≡ (db', started r)
      → Written client_id fields db' r
  for_scope-Written db client_id fields none db' r e h =
      absurd (ground (arith, ap (λ (x : Db × StartReply). x.1) h))
  for_scope-Written db client_id fields (some scope) db' r e h =
      elim (Bool-cases (scopes_allowed db client_id (split b' ' scope))) [
        | inr k ↦
            let no : (db, declined scope_not_registered) ≡ (db', started r) = rw k at h in
            absurd (ground (arith, ap (λ (x : Db × StartReply). x.1) no))
        | inl k ↦
            let a = purpose_digest crypto env header (text "device-code") draw.device_code in
            let b =
              purpose_digest crypto env header (text "user-code") (random_user_code draw.indices) in
            let yes : inserted crypto jose env urls draw header db client_id scope a b
                ≡ (db', started r) =
              rw k at h in
            let (of_a, of_b, row, reply) = inserted-some db client_id scope a b db' r yes in
            let codes =
              reply_codes (formatted_user_code (random_user_code draw.indices))
                (urls.append_query (verification_uri crypto jose env urls draw header)
                  ((text "user_code", formatted_user_code (random_user_code draw.indices)) ∷ []))
                r reply in
            record {
              before = db;
              scope = scope;
              canonical = e;
              registered = k;
              device_digest = or_none a;
              user_digest = or_none b;
              of_device = rw codes.1 of_a;
              of_user = of_b;
              row = row;
              displayed = codes.0;
            }
      ]

  start_scoped-Written :
      (db : Db) (client_id : Text) (fields : List (Text × Text)) (db' : Db) (r : Started)
      → start_scoped crypto jose env urls draw header db client_id fields ≡ (db', started r)
      → Written client_id fields db' r
  unfolding start_scoped
  start_scoped-Written db client_id fields db' r h =
      for_scope-Written db client_id fields
        (device_scopes (or_else (get (text "scope") fields) (text "openid"))) db' r refl h

  counted-Written :
      (db : Db) (client_id : Text) (fields : List (Text × Text)) (bucket : Option Digest) (db' : Db)
      (r : Started)
      → counted crypto jose env urls draw header db client_id fields bucket ≡ (db', started r)
      → Written client_id fields db' r
  counted-Written db client_id fields none db' r h =
      absurd (ground (arith, ap (λ (x : Db × StartReply). x.1) h))
  counted-Written db client_id fields (some bucket) db' r h =
      elim (Bool-cases (reserve_attempt db bucket draw.reserved 600 1000).1) [
        | inl k ↦
            start_scoped-Written (reserve_attempt db bucket draw.reserved 600 1000).0 client_id
              fields db' r (rw k at h)
        | inr k ↦
            let no : (
              (reserve_attempt db bucket draw.reserved 600 1000).0,
              declined (slow_down (600 - draw.retried % 600)),
            )
                ≡ (db', started r) =
              rw k at h in
            absurd (ground (arith, ap (λ (x : Db × StartReply). x.1) no))
      ]

  limited-Written :
      (db : Db) (client_id : Text) (fields : List (Text × Text)) (ip : Option Text) (db' : Db)
      (r : Started)
      → limited crypto jose env urls draw header db client_id fields ip ≡ (db', started r)
      → Written client_id fields db' r
  limited-Written db client_id fields none db' r h =
      start_scoped-Written db client_id fields db' r h
  limited-Written db client_id fields (some ip) db' r h =
      counted-Written db client_id fields
        (purpose_digest crypto env header (text "creation") (client_id ++ b':' ∷ ip)) db' r h

  -- A request that was started: its client, and the row that is written.
  pub record Begun (db : Db) (form : Option (List (Text × Text))) (db' : Db) (r : Started)
      : Type 0 where
    pub i : Issuance
    pub configured : issuance_config crypto jose env ≡ some i
    pub fields : List (Text × Text)
    pub read : form ≡ some fields
    pub client_id : Text
    pub named : get (text "client_id") fields ≡ some client_id
    pub after : Db
    pub who : OauthClient
    pub authenticated :
        authenticate_client_at crypto jose db client_id fields
          (i.issuer ++ text "/v1/oauth/device-authorizations")
          draw.authenticated
        ≡ some (after, who)
    pub enabled : who.device_authorization_enabled ≡ true
    pub written : Written client_id fields db' r

  start_client-Written :
      (db : Db) (client_id : Text) (fields : List (Text × Text)) (after : Db) (who : OauthClient)
      (db' : Db) (r : Started)
      → start_client crypto jose env urls draw header db client_id fields (some (after, who))
        ≡ (db', started r)
      → (who.device_authorization_enabled ≡ true) × Written client_id fields db' r
  start_client-Written db client_id fields after who db' r h =
      elim (Bool-cases who.device_authorization_enabled) [
        | inl k ↦ (
          k,
          limited-Written after client_id fields (header (text "cf-connecting-ip")) db' r
              (rw k at h),
        )
        | inr k ↦
            let no : (after, declined unauthorized_client) ≡ (db', started r) = rw k at h in
            absurd (ground (arith, ap (λ (x : Db × StartReply). x.1) no))
      ]

  named_client-Begun :
      (db : Db) (i : Issuance) (fields : List (Text × Text)) (db' : Db) (r : Started)
      → issuance_config crypto jose env ≡ some i
      → named_client crypto jose env urls draw header i db fields (get (text "client_id") fields)
        ≡ (db', started r)
      → Begun db (some fields) db' r
  named_client-Begun db i fields db' r k h = elim (Option-cases (get (text "client_id") fields)) [
    | inl e ↦
        let no : (db, declined malformed) ≡ (db', started r) = rw e at h in
        absurd (ground (arith, ap (λ (x : Db × StartReply). x.1) no))
    | inr (client_id, e) ↦
        let audience = i.issuer ++ text "/v1/oauth/device-authorizations" in
        let login =
          authenticate_client_at crypto jose db client_id fields audience draw.authenticated in
        let go : start_client crypto jose env urls draw header db client_id fields login
            ≡ (db', started r) =
          rw e at h in
        elim (Option-cases login) [
          | inl m ↦
              let no : (db, declined client_failed) ≡ (db', started r) = rw m at go in
              absurd (ground (arith, ap (λ (x : Db × StartReply). x.1) no))
          | inr ((after, who), m) ↦
              let (allowed, written) =
                start_client-Written db client_id fields after who db' r (rw m at go) in
              record {
                i = i;
                configured = k;
                fields = fields;
                read = refl;
                client_id = client_id;
                named = e;
                after = after;
                who = who;
                authenticated = m;
                enabled = allowed;
                written = written;
              }
        ]
  ]

  start_form-Begun :
      (db : Db) (i : Issuance)
      → issuance_config crypto jose env ≡ some i
      → (form : Option (List (Text × Text))) (db' : Db) (r : Started)
      → start_form crypto jose env urls draw header i db form ≡ (db', started r)
      → Begun db form db' r
  start_form-Begun db i k none db' r h =
      absurd (ground (arith, ap (λ (x : Db × StartReply). x.1) h))
  start_form-Begun db i k (some fields) db' r h =
      elim (Bool-cases (only_fields fields start_fields)) [
        | inl e ↦ named_client-Begun db i fields db' r k (rw e at h)
        | inr e ↦
            let no : (db, declined malformed) ≡ (db', started r) = rw e at h in
            absurd (ground (arith, ap (λ (x : Db × StartReply). x.1) no))
      ]

  -- A device that is answered with codes belongs to a client that has authenticated and may use the device
  -- grant, for scopes with `openid` that are registered for it; and a pending request is written under the
  -- digests of the two codes that the answer holds, for 600 seconds.
  pub start-Begun :
      (db : Db) (form : Option (List (Text × Text))) (db' : Db) (r : Started)
      → start crypto jose env urls draw header db form ≡ (db', started r)
      → Begun db form db' r
  unfolding start
  start-Begun db form db' r h = elim (Option-cases (issuance_config crypto jose env)) [
    | inl k ↦
        let no : (db, declined unavailable) ≡ (db', started r) = rw (start, k) at h in
        absurd (ground (arith, ap (λ (x : Db × StartReply). x.1) no))
    | inr (i, k) ↦ start_form-Begun db i k form db' r (rw (start, k) at h)
  ]
