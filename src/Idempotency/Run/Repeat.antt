-- ===== src/Idempotency/Run/Repeat.antt =====
-- A repeated request does not run its handler again.
use moesegfault_indentity.Base.{
  ℕ, ◌+◌, ◌<◌, ◌≡◌, refl, true, false, Option, none, some, List, Result, ok, err, arith,
}
use moesegfault_indentity.Base.Text.{Text}
use moesegfault_indentity.Base.Text.Ascii.{eq_text_refl}
use moesegfault_indentity.Secret.{Crypto, Digest}
use moesegfault_indentity.Guard.{Env}
use moesegfault_indentity.Idempotency.{
  Codec, ReplayPolicy, Response, capture, Record, Lease, Gate, execute, replay, conflict,
  in_progress, result_unavailable, WorkerError, Claim, begin, ttl_seconds,
}
use moesegfault_indentity.Idempotency.Operation.{Operation}
use moesegfault_indentity.Idempotency.Claims.{
  is_execute, executed_gate, Event, AllBefore, Held, begin-Held, finish-Held, execute-Held, play,
  play-Held,
}
use moesegfault_indentity.Idempotency.Hashing.{Incoming, Caller}
use moesegfault_indentity.Idempotency.Run.{
  WebauthnTransaction, RecoveryTransaction, Answer, Entry, claiming, enter, serve, complete,
  after_gate, run,
}

-- What arrives: the ceremonies of the time, the ceremony's identifier in the path, and the request.
pub record Arrival : Type 0 where
  pub webauthn : List WebauthnTransaction
  pub recovery : List RecoveryTransaction
  pub id : Option Text
  pub operation : Operation
  pub caller : Caller
  pub request : Incoming

module _ (codec : Codec) (crypto : Crypto) (env : Env) where
  abbrev pub entry : Arrival → Entry
  entry a = enter codec crypto env a.webauthn a.recovery a.id a.operation a.caller a.request

  module _ {ℓ} {S : Type ℓ} (handler : S → S × Option Response) (policy : ReplayPolicy) where
    abbrev pub run_at : Arrival → List Record → S → Text → ℕ → ℕ → (List Record × S) × Answer
    run_at a rows s record_id now done =
        run codec crypto env a.webauthn a.recovery a.id a.operation a.caller a.request handler
          policy rows s record_id now done

    pub run_claims :
        (a : Arrival) (c : Claim) (d : Digest) (rows : List Record) (s : S) (record_id : Text)
        (now done : ℕ)
        → entry a ≡ claiming c d
        → run_at a rows s record_id now done
          ≡ after_gate codec crypto env a.webauthn a.recovery a.id a.operation a.caller a.request
              handler policy
              (begin codec rows record_id c d now).0
              s
              done
              (begin codec rows record_id c d now).1
    unfolding run
    run_claims a c d rows s record_id now done e = rw (run, e) refl

    -- What is done after the gate, for any arrival.
    abbrev after :
        Arrival → List Record → S → ℕ → Result WorkerError Gate → (List Record × S) × Answer
    after a rows s done gate =
        after_gate codec crypto env a.webauthn a.recovery a.id a.operation a.caller a.request
          handler policy rows s done gate

    after-idle :
        (a : Arrival) (rows : List Record) (s : S) (done : ℕ) (gate : Result WorkerError Gate)
        → is_execute gate ≡ false
        → (after a rows s done gate).0.1 ≡ s
    unfolding after_gate
    after-idle a rows s done (err e) h = refl
    after-idle a rows s done (ok (execute lease)) h = absurd (ground arith)
    after-idle a rows s done (ok (replay snapshot)) h = refl
    after-idle a rows s done (ok conflict) h = refl
    after-idle a rows s done (ok in_progress) h = refl
    after-idle a rows s done (ok result_unavailable) h = refl

    serve_state :
        (a : Arrival) (out : S × Option Response)
        → (serve codec crypto env a.webauthn a.recovery a.id a.operation a.caller a.request handler
            policy out).0
          ≡ out.0
    serve_state a (s, none) = refl
    serve_state a (s, some response) = refl

    after-execute :
        (a : Arrival) (rows : List Record) (s : S) (done : ℕ) (lease : Lease)
        → ((after a rows s done (ok (execute lease))).0.1 ≡ (handler s).0)
          × ((after a rows s done (ok (execute lease))).0.0
              ≡ complete codec crypto env a.webauthn a.recovery a.id a.operation a.caller a.request
                  handler policy rows lease done
                  (handler s).1)
    unfolding after_gate
    after-execute a rows s done lease = (serve_state a (handler s), refl)

    complete-Held :
        (a : Arrival) (c : Claim) (until : ℕ) (rows : List Record) (lease : Lease) (now : ℕ)
        (response : Option Response)
        → Held codec c until rows
        → Held codec c until (
            complete codec crypto env a.webauthn a.recovery a.id a.operation a.caller a.request
              handler policy rows lease now response)
    complete-Held a c until rows lease now none h =
        finish-Held codec c until rows lease 500 none now h
    complete-Held a c until rows lease now (some response) h =
        finish-Held codec c until rows lease response.status (capture codec response policy) now h

    pub run_executes :
        (a : Arrival) (c : Claim) (d : Digest) (rows : List Record) (s : S) (record_id : Text)
        (now done : ℕ)
        → entry a ≡ claiming c d
        → is_execute (begin codec rows record_id c d now).1 ≡ true
        → ((run_at a rows s record_id now done).0.1 ≡ (handler s).0)
          × ((run_at a rows s record_id now done).0.0
              ≡ complete codec crypto env a.webauthn a.recovery a.id a.operation a.caller a.request
                  handler policy
                  (begin codec rows record_id c d now).0
                  (record { record_id = record_id; request_digest = d })
                  done
                  (handler s).1)
    run_executes a c d rows s record_id now done e h =
        rw
          (
            run_claims a c d rows s record_id now done e,
            executed_gate codec rows record_id c d now h,
          )
          (after-execute a (begin codec rows record_id c d now).0 s done
            (record { record_id = record_id; request_digest = d }))

    run-Held :
        (a : Arrival) (c : Claim) (d : Digest) (rows : List Record) (s : S) (record_id : Text)
        (now done : ℕ)
        → entry a ≡ claiming c d
        → is_execute (begin codec rows record_id c d now).1 ≡ true
        → Held codec c (now + ttl_seconds) (run_at a rows s record_id now done).0.0
    run-Held a c d rows s record_id now done e h =
        rw (run_executes a c d rows s record_id now done e h).1 (
          complete-Held a c (now + ttl_seconds) (begin codec rows record_id c d now).0
            (record { record_id = record_id; request_digest = d }) done (handler s).1
            (execute-Held codec rows record_id c d now h))

    run-idle :
        (a : Arrival) (c : Claim) (d : Digest) (until : ℕ) (rows : List Record) (s : S)
        (record_id : Text) (now done : ℕ)
        → entry a ≡ claiming c d
        → now < until
        → Held codec c until rows
        → (run_at a rows s record_id now done).0.1 ≡ s
    run-idle a c d until rows s record_id now done e lt h =
        let quiet = (begin-Held codec c until rows record_id c d now lt h).1 in
        rw (run_claims a c d rows s record_id now done e) (
          after-idle a (begin codec rows record_id c d now).0 s done
            (begin codec rows record_id c d now).1
            (ground (arith, quiet, eq_text_refl c.0, eq_text_refl c.1, eq_text_refl c.2)))

  -- When a request has executed its claim, its handler has run; and a later request with the same claim,
  -- with any body and for any handler, leaves what handlers change as it is, if it comes within 24 hours of
  -- the first, whatever requests and completions come between.
  pub run_once {ℓ} :
      {S : Type ℓ} (handler handler' : S → S × Option Response) (policy policy' : ReplayPolicy)
      (a a' : Arrival) (c : Claim) (d d' : Digest) (rows : List Record) (s s' : S) (id id' : Text)
      (now done : ℕ) (es : List (ℕ × Event)) (later done' : ℕ)
      → entry a ≡ claiming c d
      → entry a' ≡ claiming c d'
      → is_execute (begin codec rows id c d now).1 ≡ true
      → AllBefore codec (now + ttl_seconds) es
      → later < now + ttl_seconds
      → ((run_at handler policy a rows s id now done).0.1 ≡ (handler s).0)
        × ((run_at handler' policy' a'
              (play codec (run_at handler policy a rows s id now done).0.0 es)
              s'
              id'
              later
              done').0.1
            ≡ s')
  run_once handler handler' policy policy' a a' c d d' rows s s' id id' now done es later done' e e'
        h bs lt =
      let after_first = run-Held handler policy a c d rows s id now done e h in
      (
        (run_executes handler policy a c d rows s id now done e h).0,
        run-idle handler' policy' a' c d' (now + ttl_seconds)
            (play codec (run_at handler policy a rows s id now done).0.0 es) s' id' later done' e'
            lt
            (play-Held codec c (now + ttl_seconds) (run_at handler policy a rows s id now done).0.0
              es bs after_first),
      )
