-- ===== src/Idempotency/Claims.antt =====
-- One execution per claim, until its record expires.
use moesegfault_indentity.Base.{
  ℕ, ◌+◌, ◌≤◌, ◌<◌, ◌≡◌, refl, ap, ◌∙◌, Bool, true, false, not, ◌&&◌, ◌||◌, Option, none, some,
  List, [], ◌∷◌, ◌++◌, find, leb, ◌==◌, length, if◌then◌else◌, Result, ok, arith, Bool-cases,
  Option-cases, inl, inr,
}
use moesegfault_indentity.Base.Text.{Text, eq_text}
use moesegfault_indentity.Base.Text.Ascii.{eq_text_refl, eq_of_eq_text}
use moesegfault_indentity.Secret.{Digest, ct_eq}
use moesegfault_indentity.Store.Sql.{
  update, find-update, find-update_if, find-append_some, find-append_new, found,
}
use moesegfault_indentity.Idempotency.{
  Codec, ReplaySnapshot, Record, Lease, Gate, execute, WorkerError, Claim, is_claim, ttl_seconds,
  new_record, decide_record, begin, owns, finished, finish,
}

abbrev pub is_execute : Result WorkerError Gate → Bool
is_execute (ok (execute l)) = true
is_execute _ = false

-- A request that claims, or one that completes a lease.
pub data Event : Type 0 where
  began : Text → Claim → Digest → Event
  ended : Lease → ℕ → Option ReplaySnapshot → Event

abbrev pub same_claim : Claim → Claim → Bool
same_claim j c = eq_text j.0 c.0 && eq_text j.1 c.1 && eq_text j.2 c.2

abbrev one_if : Bool → ℕ
one_if true = 1
one_if false = 0

module _ (codec : Codec) where
  -- How many of a sequence of events, each at its time, execute the request of a claim.
  unfoldable pub executions : Claim → List Record → List (ℕ × Event) → ℕ
  executions c rows [] = 0
  executions c rows ((now, began id j d) ∷ es) =
      let (rows', gate) = begin codec rows id j d now in
      one_if (same_claim j c && is_execute gate) + executions c rows' es
  executions c rows ((now, ended lease status snapshot) ∷ es) =
      executions c (finish codec rows lease status snapshot now).0 es

  -- The record of a claim is there, and lasts until a time.
  pub record Held (c : Claim) (until : ℕ) (rows : List Record) : Type 0 where
    pub row : Record
    pub there : find (is_claim c) rows ≡ some row
    pub lasts : until ≤ row.expires_at

  pub never_executes :
      (r : Record) (d : Digest) (now : ℕ) → is_execute (decide_record codec r d now) ≡ false
  unfolding decide_record
  never_executes r d now = elim (Bool-cases (leb r.expires_at now)) [
    | inl e ↦ ground (arith, e)
    | inr e ↦
        elim (Bool-cases (not (length r.request_digest == 32) || not (ct_eq r.request_digest d))) [
          | inl k ↦ ground (arith, e, k)
          | inr k ↦ ground (arith, e, k)
        ]
  ]

  same_find :
      (j c : Claim) (rows : List Record)
      → same_claim j c ≡ true
      → find (is_claim j) rows ≡ find (is_claim c) rows
  same_find j c rows h =
      let e : j ≡ c =
        ground (arith, eq_of_eq_text j.0 c.0, eq_of_eq_text j.1 c.1, eq_of_eq_text j.2 c.2) in
      ap (λ (k : Claim). find (is_claim k) rows) e

  same_row :
      (j c : Claim) (id : Text) (d : Digest) (now : ℕ) (r : Record)
      → is_claim j r ≡ true
      → is_claim c (new_record id j d now) ≡ is_claim c r
  same_row j c id d now r h =
      ground
        (arith, eq_of_eq_text r.caller j.0, eq_of_eq_text r.operation j.1, eq_of_eq_text r.key j.2)

  begin-absent :
      (rows : List Record) (id : Text) (j : Claim) (d : Digest) (now : ℕ)
      → find (is_claim j) rows ≡ none
      → begin codec rows id j d now ≡ (
        rows ++ new_record id j d now ∷ [],
        ok (execute (record { record_id = id; request_digest = d })),
      )
  unfolding begin
  begin-absent rows id j d now e = rw (begin, e) refl

  begin-expired :
      (rows : List Record) (id : Text) (j : Claim) (d : Digest) (now : ℕ) (x : Record)
      → find (is_claim j) rows ≡ some x
      → leb x.expires_at now ≡ true
      → begin codec rows id j d now ≡ (
        update (λ r. is_claim j r && leb r.expires_at now) (λ r. new_record id j d now) rows,
        ok (execute (record { record_id = id; request_digest = d })),
      )
  unfolding begin
  begin-expired rows id j d now x e k = rw (begin, e, k) refl

  pub begin-present :
      (rows : List Record) (id : Text) (j : Claim) (d : Digest) (now : ℕ) (x : Record)
      → find (is_claim j) rows ≡ some x
      → leb x.expires_at now ≡ false
      → begin codec rows id j d now ≡ (rows, decide_record codec x d now)
  unfolding begin
  begin-present rows id j d now x e k = rw (begin, e, k) refl

  -- A request before that time leaves it so, and does not execute the claim.
  pub begin-Held :
      (c : Claim) (until : ℕ) (rows : List Record) (id : Text) (j : Claim) (d : Digest) (now : ℕ)
      → now < until
      → Held c until rows
      → Held c until (begin codec rows id j d now).0
        × ((same_claim j c && is_execute (begin codec rows id j d now).1) ≡ false)
  begin-Held c until rows id j d now lt h = elim (Option-cases (find (is_claim j) rows)) [
    | inl e ↦ rw (begin-absent rows id j d now e) (
      record {
        row = h.row;
        there = find-append_some (is_claim c) rows (new_record id j d now) h.row h.there;
        lasts = h.lasts;
      },
      ground (arith, same_find j c rows, e, h.there),
    )
    | inr (x, e) ↦ elim (Bool-cases (leb x.expires_at now)) [
      | inl k ↦ rw (begin-expired rows id j d now x e k) (
        record {
          row = h.row;
          there =
              find-update_if (λ r. is_claim j r && leb r.expires_at now)
                (λ r. new_record id j d now) (is_claim c) rows
                (λ r q. same_row j c id d now r (ground (arith, q)))
              ∙ ground (arith, h.there, h.lasts);
          lasts = h.lasts;
        },
        ground (arith, same_find j c rows, e, h.there, h.lasts),
      )
      | inr k ↦ rw (begin-present rows id j d now x e k) (h, ground (arith, never_executes x d now))
    ]
  ]

  pub finish-Held :
      (c : Claim) (until : ℕ) (rows : List Record) (lease : Lease) (status : ℕ)
      (s : Option ReplaySnapshot) (now : ℕ)
      → Held c until rows
      → Held c until (finish codec rows lease status s now).0
  unfolding finish finished
  finish-Held c until rows lease status s now h = record {
    row = if owns codec lease h.row then finished codec status s now h.row else h.row;
    there =
        find-update (owns codec lease) (finished codec status s now) (is_claim c) rows (λ r. refl)
        ∙ ground (arith, h.there);
    lasts = ground (arith, h.lasts);
  }

  abbrev pub AllBefore : ℕ → List (ℕ × Event) → Type 0
  AllBefore until [] = Unit
  AllBefore until (e ∷ es) = (e.0 < until) × AllBefore until es

  -- The records after a sequence of events.
  unfoldable pub play : List Record → List (ℕ × Event) → List Record
  play rows [] = rows
  play rows ((now, began id j d) ∷ es) = play (begin codec rows id j d now).0 es
  play rows ((now, ended lease status snapshot) ∷ es) =
      play (finish codec rows lease status snapshot now).0 es

  pub play-Held :
      (c : Claim) (until : ℕ) (rows : List Record) (es : List (ℕ × Event))
      → AllBefore until es
      → Held c until rows
      → Held c until (play rows es)
  unfolding play
  play-Held c until rows [] bs h = h
  play-Held c until rows ((now, began id j d) ∷ es) (b, bs) h =
      play-Held c until (begin codec rows id j d now).0 es bs
        (begin-Held c until rows id j d now b h).0
  play-Held c until rows ((now, ended lease status s) ∷ es) (b, bs) h =
      play-Held c until (finish codec rows lease status s now).0 es bs
        (finish-Held c until rows lease status s now h)

  executions-Held :
      (c : Claim) (until : ℕ) (rows : List Record) (es : List (ℕ × Event))
      → AllBefore until es
      → Held c until rows
      → executions c rows es ≡ 0
  unfolding executions
  executions-Held c until rows [] bs h = refl
  executions-Held c until rows ((now, began id j d) ∷ es) (b, bs) h =
      let (h', refused) = begin-Held c until rows id j d now b h in
      ground (arith, refused, executions-Held c until (begin codec rows id j d now).0 es bs h')
  executions-Held c until rows ((now, ended lease status s) ∷ es) (b, bs) h =
      executions-Held c until (finish codec rows lease status s now).0 es bs
        (finish-Held c until rows lease status s now h)

  own_claim :
      (id : Text) (c : Claim) (d : Digest) (now : ℕ) → is_claim c (new_record id c d now) ≡ true
  own_claim id c d now = ground (arith, eq_text_refl c.0, eq_text_refl c.1, eq_text_refl c.2)

  -- The record that a request which executes has written.
  pub executed_row :
      (rows : List Record) (id : Text) (c : Claim) (d : Digest) (now : ℕ)
      → is_execute (begin codec rows id c d now).1 ≡ true
      → find (is_claim c) (begin codec rows id c d now).0 ≡ some (new_record id c d now)
  executed_row rows id c d now h = elim (Option-cases (find (is_claim c) rows)) [
    | inl e ↦
        rw (begin-absent rows id c d now e)
          (find-append_new (is_claim c) rows (new_record id c d now) e (own_claim id c d now))
    | inr (x, e) ↦ elim (Bool-cases (leb x.expires_at now)) [
      | inl k ↦ rw (begin-expired rows id c d now x e k) (
          find-update_if (λ r. is_claim c r && leb r.expires_at now) (λ r. new_record id c d now)
            (is_claim c) rows (λ r q. same_row c c id d now r (ground (arith, q)))
          ∙ ground (arith, e, k, found (is_claim c) rows x e))
      | inr k ↦
          absurd (ground (arith, h, begin-present rows id c d now x e k, never_executes x d now))
    ]
  ]

  pub executed_gate :
      (rows : List Record) (id : Text) (c : Claim) (d : Digest) (now : ℕ)
      → is_execute (begin codec rows id c d now).1 ≡ true
      → (begin codec rows id c d now).1
        ≡ ok (execute (record { record_id = id; request_digest = d }))
  executed_gate rows id c d now h = elim (Option-cases (find (is_claim c) rows)) [
    | inl e ↦ rw (begin-absent rows id c d now e) refl
    | inr (x, e) ↦ elim (Bool-cases (leb x.expires_at now)) [
      | inl k ↦ rw (begin-expired rows id c d now x e k) refl
      | inr k ↦
          absurd (ground (arith, h, begin-present rows id c d now x e k, never_executes x d now))
    ]
  ]

  pub execute-Held :
      (rows : List Record) (id : Text) (c : Claim) (d : Digest) (now : ℕ)
      → is_execute (begin codec rows id c d now).1 ≡ true
      → Held c (now + ttl_seconds) (begin codec rows id c d now).0
  execute-Held rows id c d now h = record {
    row = new_record id c d now;
    there = executed_row rows id c d now h;
    lasts = omega arith;
  }

  -- A claim is executed once: after a request that executes it, no sequence of requests and
  -- completions within the next 24 hours executes it again.
  pub executes_once :
      (rows : List Record) (id : Text) (c : Claim) (d : Digest) (now : ℕ) (es : List (ℕ × Event))
      → is_execute (begin codec rows id c d now).1 ≡ true
      → AllBefore (now + ttl_seconds) es
      → executions c (begin codec rows id c d now).0 es ≡ 0
  executes_once rows id c d now es h bs =
      executions-Held c (now + ttl_seconds) (begin codec rows id c d now).0 es bs
        (execute-Held rows id c d now h)
