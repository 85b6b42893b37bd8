-- ===== src/Idempotency/Replay.antt =====
-- What is stored for a replay, and what is replayed.
use moesegfault_indentity.Base.{
  ℕ, ◌+◌, ◌<◌, ◌≡◌, refl, sym, ap, ◌∙◌, Bool, true, false, not, ◌&&◌, Option, none, some, List,
  find, leb, ltb, length, in_range, if◌then◌else◌, is_some, Result, ok, arith, Bool-cases,
  Option-cases, inl, inr,
}
use moesegfault_indentity.Base.Text.{Text, text, bytes}
use moesegfault_indentity.Base.Text.Ascii.{eq_text_refl}
use moesegfault_indentity.Secret.{Digest, ct_eq}
use moesegfault_indentity.Store.Sql.{find-update}
use moesegfault_indentity.Idempotency.{
  Codec, ReplayPolicy, Response, ResponseBody, no_body, stream, bytes_body, has_safe_json,
  capture_body, capture_cookie, is_secret_success, capture, json_type, snapshot_of, is_safe_body,
  is_safe_type, is_safe_wait, is_safe, ReplaySnapshot, Record, Gate, replay, conflict, WorkerError,
  Claim, is_claim, ttl_seconds, new_record, decide_record, begin, owns, finished, finish,
  valid_status, is_json_content_type, max_replay_body_bytes,
}
use moesegfault_indentity.Idempotency.Claims.{is_execute, executed_row, begin-present}

module _ (codec : Codec) where
  is_safe-status : (s : ReplaySnapshot) → is_safe codec s ≡ true → in_range 200 599 s.status ≡ true
  unfolding is_safe
  is_safe-status s h = ground arith

  finished_row :
      (rows : List Record) (id : Text) (c : Claim) (d : Digest) (now status : ℕ)
      (s : Option ReplaySnapshot) (done : ℕ)
      → is_execute (begin codec rows id c d now).1 ≡ true
      → find
          (is_claim c)
          (finish codec
            (begin codec rows id c d now).0
            (record { record_id = id; request_digest = d })
            status
            s
            done).0
        ≡ some (finished codec status s done (new_record id c d now))
  unfolding finish finished owns
  finished_row rows id c d now status s done h =
      find-update (owns codec (record { record_id = id; request_digest = d }))
        (finished codec status s done) (is_claim c) (begin codec rows id c d now).0 (λ r. refl)
      ∙ ground (arith, executed_row codec rows id c d now h, eq_text_refl id, eq_text_refl d)

  decide_finished :
      (id : Text) (c : Claim) (d d' : Digest) (now : ℕ) (s : ReplaySnapshot) (done later : ℕ)
      → later < now + ttl_seconds
      → length d ≡ 32
      → codec.parse_snapshot (codec.print_snapshot s) ≡ some s
      → is_safe codec s ≡ true
      → decide_record codec (finished codec s.status (some s) done (new_record id c d now)) d' later
        ≡ ok (if ct_eq d d' then replay s else conflict)
  unfolding decide_record finished valid_status
  decide_finished id c d d' now s done later lt long inverse safe = elim (Bool-cases (ct_eq d d')) [
    | inr e ↦ ground (arith, e)
    | inl e ↦
        let in_bounds : in_range 200 599 s.status ≡ true = is_safe-status s safe in
        elim (Bool-cases (leb 400 s.status)) [
          | inl k ↦ ground (arith, e, k, inverse, safe, in_bounds)
          | inr k ↦ ground (arith, e, k, inverse, safe, in_bounds)
        ]
  ]

  -- Once a request was executed and its response stored, the next request with the same claim, with nothing in
  -- between and within 24 hours of the first, gets that response if it has the same digest, and a conflict
  -- otherwise. The digest must have 32 bytes, and the response must be safe to replay and read back from its
  -- stored form.
  pub replay_lem :
      (rows : List Record) (id id' : Text) (c : Claim) (d d' : Digest) (now : ℕ)
      (s : ReplaySnapshot) (done later : ℕ)
      → is_execute (begin codec rows id c d now).1 ≡ true
      → later < now + ttl_seconds
      → length d ≡ 32
      → codec.parse_snapshot (codec.print_snapshot s) ≡ some s
      → is_safe codec s ≡ true
      → (begin codec
          (finish codec
            (begin codec rows id c d now).0
            (record { record_id = id; request_digest = d })
            s.status
            (some s)
            done).0
          id'
          c
          d'
          later).1
        ≡ ok (if ct_eq d d' then replay s else conflict)
  unfolding finished
  replay_lem rows id id' c d d' now s done later h lt long inverse safe =
      let rows' =
        (finish codec (begin codec rows id c d now).0
          (record { record_id = id; request_digest = d }) s.status (some s) done).0 in
      let row = finished codec s.status (some s) done (new_record id c d now) in
      ap (λ (r : List Record × Result WorkerError Gate). r.1)
        (begin-present codec rows' id' c d' later row
          (finished_row rows id c d now s.status (some s) done h) (ground (arith, lt)))
      ∙ decide_finished id c d d' now s done later lt long inverse safe

  capture_body-safe :
      (b : ResponseBody) (t : Option Text)
      → ((bs : List ℕ) (x : Text) → codec.from_utf8 bs ≡ some x → bytes x ≡ bs)
      → capture_body codec b ≡ some t
      → is_safe_body codec t ≡ true
  unfolding capture_body
  capture_body-safe no_body t law h = ground arith
  capture_body-safe stream t law h = cc
  capture_body-safe (bytes_body bs) t law h =
      elim (Bool-cases (ltb max_replay_body_bytes (length bs))) [
        | inl e ↦ absurd (ground (arith, e))
        | inr e ↦ elim (Option-cases (codec.from_utf8 bs)) [
          | inl k ↦ absurd (ground (arith, e, k))
          | inr (x, k) ↦ elim (Bool-cases (has_safe_json codec x)) [
            | inr unsafe ↦ absurd (ground (arith, e, k, unsafe))
            | inl fine ↦ ground (arith, e, k, fine, ap length (law bs x k))
          ]
        ]
      ]

  -- The last step of `capture`.
  abbrev captured : Response → Option Text → Bool → Option ReplaySnapshot
  captured r body clears =
      if is_some body && not (is_some (json_type codec (r.headers (text "content-type"))))
      then none
      else some (snapshot_of codec r body clears)

  rw_capture :
      (r : Response) (policy : ReplayPolicy) (s : ReplaySnapshot) (clears : Bool)
      (body : Option Text)
      → is_secret_success codec policy r.status ≡ false
      → capture_cookie codec (r.headers (text "set-cookie")) ≡ some clears
      → capture_body codec r.body ≡ some body
      → capture codec r policy ≡ captured r body clears
  unfolding capture
  rw_capture r policy s clears body e k b = rw (capture, e, k, b) refl

  typed :
      (body h : Option Text)
      → (is_some body && not (is_some (json_type codec h))) ≡ false
      → is_safe_type codec body (json_type codec h) ≡ true
  typed none h e = refl
  typed (some b) none e = cc
  typed (some b) (some v) e = elim (Bool-cases (is_json_content_type v)) [
    | inl k ↦ ground (arith, k)
    | inr k ↦ absurd (ground (arith, k))
  ]

  captured-status :
      (r : Response) (body : Option Text) (clears : Bool) (s : ReplaySnapshot)
      → captured r body clears ≡ some s
      → s.status ≡ r.status
  captured-status r body clears s h =
      elim (Bool-cases
        (is_some body && not (is_some (json_type codec (r.headers (text "content-type")))))) [
          | inl e ↦ absurd (ground (arith, e))
          | inr e ↦
              let same : snapshot_of codec r body clears ≡ s = ground (arith, e) in
              sym (ap (λ (x : ReplaySnapshot). x.status) same)
        ]

  captured-is_safe :
      (r : Response) (body : Option Text) (clears : Bool) (s : ReplaySnapshot)
      → in_range 200 599 r.status ≡ true
      → is_safe_wait codec s.retry_after ≡ true
      → is_safe_body codec body ≡ true
      → captured r body clears ≡ some s
      → is_safe codec s ≡ true
  unfolding is_safe
  captured-is_safe r body clears s status wait safe h =
      elim (Bool-cases
        (is_some body && not (is_some (json_type codec (r.headers (text "content-type")))))) [
          | inl e ↦ absurd (ground (arith, e))
          | inr e ↦
              let same : snapshot_of codec r body clears ≡ s = ground (arith, e) in
              ground (
                arith,
                status,
                wait,
                safe,
                typed body (r.headers (text "content-type")) e,
                same,
                ap (λ (x : ReplaySnapshot). x.status) same,
                ap (λ (x : ReplaySnapshot). x.body) same,
                ap (λ (x : ReplaySnapshot). x.content_type) same,
              )
        ]

  pub capture-status :
      (r : Response) (policy : ReplayPolicy) (s : ReplaySnapshot)
      → capture codec r policy ≡ some s
      → s.status ≡ r.status
  unfolding capture
  capture-status r policy s h = elim (Bool-cases (is_secret_success codec policy r.status)) [
    | inl e ↦ absurd (ground (arith, e))
    | inr e ↦ elim (Option-cases (capture_cookie codec (r.headers (text "set-cookie")))) [
      | inl k ↦ absurd (ground (arith, e, k))
      | inr (clears, k) ↦ elim (Option-cases (capture_body codec r.body)) [
        | inl b ↦ absurd (ground (arith, e, k, b))
        | inr (body, b) ↦
            captured-status r body clears s (sym (rw_capture r policy s clears body e k b) ∙ h)
      ]
    ]
  ]

  -- A response that is captured is safe to replay, if its status is one of HTTP and its Retry-After, if it
  -- has one, is at most a day. Decoding must be faithful: the text that it gives encodes to the bytes.
  pub capture-is_safe :
      (r : Response) (policy : ReplayPolicy) (s : ReplaySnapshot)
      → ((bs : List ℕ) (x : Text) → codec.from_utf8 bs ≡ some x → bytes x ≡ bs)
      → in_range 200 599 r.status ≡ true
      → is_safe_wait codec s.retry_after ≡ true
      → capture codec r policy ≡ some s
      → is_safe codec s ≡ true
  unfolding capture is_safe
  capture-is_safe r policy s law status wait h =
      elim (Bool-cases (is_secret_success codec policy r.status)) [
        | inl e ↦ absurd (ground (arith, e))
        | inr e ↦ elim (Option-cases (capture_cookie codec (r.headers (text "set-cookie")))) [
          | inl k ↦ absurd (ground (arith, e, k))
          | inr (clears, k) ↦ elim (Option-cases (capture_body codec r.body)) [
            | inl b ↦ absurd (ground (arith, e, k, b))
            | inr (body, b) ↦
                captured-is_safe r body clears s status wait (capture_body-safe r.body body law b)
                  (sym (rw_capture r policy s clears body e k b) ∙ h)
          ]
        ]
      ]
