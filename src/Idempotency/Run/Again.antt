-- ===== src/Idempotency/Run/Again.antt =====
-- A repeated request gets the response that was stored.
use moesegfault_indentity.Base.{
  ℕ, ◌+◌, ◌<◌, ◌≡◌, refl, ◌∙◌, true, Option, some, List, length, ok, arith,
}
use moesegfault_indentity.Base.Text.{Text}
use moesegfault_indentity.Base.Text.Ascii.{eq_text_refl}
use moesegfault_indentity.Secret.{Crypto, Digest}
use moesegfault_indentity.Guard.{Env}
use moesegfault_indentity.Idempotency.{
  Codec, ReplaySnapshot, ReplayPolicy, Response, capture, is_safe, Record, Lease, replay, Claim,
  begin, finish, ttl_seconds,
}
use moesegfault_indentity.Idempotency.Claims.{is_execute}
use moesegfault_indentity.Idempotency.Replay.{replay_lem, capture-status}
use moesegfault_indentity.Idempotency.Run.{claiming, after_gate, replay_answer, into_response}
use moesegfault_indentity.Idempotency.Run.Repeat.{Arrival, entry, run_at, run_claims, run_executes}

module _ (codec : Codec) (crypto : Crypto) (env : Env) where
  -- When a request has executed its claim and its response was captured, the same request within 24 hours,
  -- with nothing in between, gets the response that the snapshot stands for. The digest must have 32 bytes,
  -- and the snapshot must be safe to replay and read back from its stored form.
  pub run_replays {ℓ} :
      {S : Type ℓ} (handler : S → S × Option Response) (policy : ReplayPolicy) (a a' : Arrival)
      (c : Claim) (d : Digest) (rows : List Record) (s s' : S) (id id' : Text)
      (now done later done' : ℕ) (response : Response) (snapshot : ReplaySnapshot)
      → entry codec crypto env a ≡ claiming c d
      → entry codec crypto env a' ≡ claiming c d
      → is_execute (begin codec rows id c d now).1 ≡ true
      → (handler s).1 ≡ some response
      → capture codec response policy ≡ some snapshot
      → later < now + ttl_seconds
      → length d ≡ 32
      → codec.parse_snapshot (codec.print_snapshot snapshot) ≡ some snapshot
      → is_safe codec snapshot ≡ true
      → (run_at codec crypto env handler policy a'
          (run_at codec crypto env handler policy a rows s id now done).0.0
          s'
          id'
          later
          done').1
        ≡ replay_answer (into_response codec snapshot)
  unfolding after_gate finish
  run_replays handler policy a a' c d rows s s' id id' now done later done' response snapshot e e' h
        answers captures lt long inverse safe =
      let lease : Lease = record { record_id = id; request_digest = d } in
      let rows' =
        (finish codec (begin codec rows id c d now).0 lease snapshot.status (some snapshot)
          done).0 in
      let stored : (run_at codec crypto env handler policy a rows s id now done).0.0 ≡ rows' =
        (run_executes codec crypto env handler policy a c d rows s id now done e h).1
        ∙ rw (answers, captures, capture-status codec response policy snapshot captures) refl in
      let gate : (begin codec rows' id' c d later).1 ≡ ok (replay snapshot) =
        replay_lem codec rows id id' c d d now snapshot done later h lt long inverse safe
        ∙ ground (arith, eq_text_refl d) in
      rw
        (
          stored,
          run_claims codec crypto env handler policy a' c d rows' s' id' later done' e',
          gate,
        )
        refl
