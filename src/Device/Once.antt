-- ===== src/Device/Once.antt =====
-- One consumption of a request, over any sequence of statements.
use moesegfault_indentity.Base.{
  ℕ, ◌≡◌, refl, sym, ap, ◌∙◌, Bool, true, false, not, ◌&&◌, ◌||◌, Option, none, some, List, [], ◌∷◌,
  any, leb, arith, Bool-cases, Option-cases, inl, inr, any-append, ||-eq-false,
}
use moesegfault_indentity.Base.Text.{Text, eq_text}
use moesegfault_indentity.Base.Text.Ascii.{eq_text_iff}
use moesegfault_indentity.Secret.{Digest}
use moesegfault_indentity.Store.{Db, Device, consumed}
use moesegfault_indentity.Store.Sql.{update, any-update_same, any_imp, any_narrow}
use moesegfault_indentity.Device.Repository.{
  is_state, DeviceGrant, NewFamily, Decision, approve, deny, may_consume, set_consumed, consume,
  insert, device_clashes, new_device, may_decide, set_decision, decide, polled, poll, is_polled,
}
use moesegfault_indentity.Device.Consume.{consume-Committed}

-- A call of the repository that writes `oauth_device_authorizations`, but for the purge of expired rows.
pub data Call : Type 0 where
  inserts : (id : Text) → (dd ud : Digest) → (client_id scope : Text) → (now expires : ℕ) → Call
  decides : Digest → (principal_id session_id : Text) → Decision → ℕ → Call
  polls : Digest → (client_id : Text) → ℕ → Call
  consumes :
      DeviceGrant → Option NewFamily → (marker authorization_id : Text) → (now expires : ℕ) → Call

-- A statement or a batch that fails leaves the state as it was.
abbrev kept : Db → Option Db → Db
kept db none = db
kept db (some db') = db'

abbrev committed : Db → Option (Db × Bool) → Db
committed db none = db
committed db (some r) = r.0

unfoldable pub perform : Call → Db → Db
perform (inserts id dd ud client_id scope now expires) db =
    kept db (insert db id dd ud client_id scope now expires)
perform (decides ud p s decision now) db = (decide db ud p s decision now).0
perform (polls dd client_id now) db = (poll db dd client_id now).0
perform (consumes g f marker a now expires) db = committed db (consume db g f marker a now expires)

unfoldable pub perform_all : List Call → Db → Db
perform_all [] db = db
perform_all (c ∷ cs) db = perform_all cs (perform c db)

-- The primary key holds among the rows.
abbrev pub UniqueDevices : List Device → Type 0
UniqueDevices [] = Unit {0}
UniqueDevices (d ∷ ds) = (any (λ r. eq_text r.id d.id) ds ≡ false) × UniqueDevices ds

abbrev has_id : Text → Device → Bool
has_id id d = eq_text d.id id

-- A row of that identifier that is not consumed.
abbrev is_left : Text → Device → Bool
is_left id d = eq_text d.id id && not (is_state d.state consumed)

-- The request is there, and is consumed.
record Gone (id : Text) (ds : List Device) : Type 0 where
  there : any (has_id id) ds ≡ true
  none_left : any (is_left id) ds ≡ false

module _ (id : Text) where
  left-update :
      (p : Device → Bool) (f : Device → Device) (ds : List Device)
      → ((d : Device) → p d ≡ true → is_left id d ≡ false → is_left id (f d) ≡ false)
      → any (is_left id) ds ≡ false
      → any (is_left id) (update p f ds) ≡ false
  unfolding update
  left-update p f [] k h = refl
  left-update p f (d ∷ ds) k h =
      let parts = ||-eq-false (is_left id d) (any (is_left id) ds) h in
      let rest = left-update p f ds k parts.1 in
      elim (Bool-cases (p d)) [
        | inl e ↦ rw e (ground (arith, rest, k d e parts.0))
        | inr e ↦ rw e (ground (arith, rest, parts.0))
      ]

  Gone-update :
      (p : Device → Bool) (f : Device → Device) (ds : List Device)
      → ((d : Device) → has_id id (f d) ≡ has_id id d)
      → ((d : Device) → p d ≡ true → is_left id d ≡ false → is_left id (f d) ≡ false)
      → Gone id ds
      → Gone id (update p f ds)
  Gone-update p f ds h k g = record {
    there = any-update_same p f (has_id id) ds h ∙ g.there;
    none_left = left-update p f ds k g.none_left;
  }

  insert-Gone :
      (db : Db) (i : Text) (dd ud : Digest) (c sc : Text) (now expires : ℕ)
      → Gone id db.devices
      → Gone id (kept db (insert db i dd ud c sc now expires)).devices
  unfolding insert
  insert-Gone db i dd ud c sc now expires g =
      let new = new_device i dd ud c sc now expires in
      elim (Bool-cases (any (device_clashes new) db.devices || leb expires now)) [
        | inl e ↦ rw e g
        | inr e ↦
            let apart : any (has_id i) db.devices ≡ false =
              any_narrow (has_id i) (device_clashes new) db.devices
                (λ d q. unfold device_clashes in ground (arith, q)) ((||-eq-false _ _ e).0) in
            let other : eq_text i id ≡ false = elim (Bool-cases (eq_text i id)) [
              | inr q ↦ q
              | inl q ↦ absurd (
                  ground (
                    arith,
                    apart,
                    g.there,
                    ap (λ (k : Text). any (has_id k) db.devices) ((eq_text_iff i id).0 q),
                  ))
            ] in
            rw e (record {
              there = any-append (has_id id) db.devices (new ∷ []) ∙ ground (arith, g.there);
              none_left =
                  any-append (is_left id) db.devices (new ∷ [])
                  ∙ ground (arith, g.none_left, other);
            })
      ]

  decision-left :
      (db : Db) (ud : Digest) (p s : Text) (now : ℕ) (decision : Decision) (d : Device)
      → may_decide db ud p s now d ≡ true
      → is_left id d ≡ false
      → is_left id (set_decision p s decision d) ≡ false
  unfolding may_decide set_decision
  decision-left db ud p s now approve d h k = ground arith
  decision-left db ud p s now deny d h k = ground arith

  decision_id :
      (p s : Text) (decision : Decision) (d : Device)
      → has_id id (set_decision p s decision d) ≡ has_id id d
  unfolding set_decision
  decision_id p s approve d = refl
  decision_id p s deny d = refl

  perform-Gone : (c : Call) (db : Db) → Gone id db.devices → Gone id (perform c db).devices
  unfolding perform decide poll
  perform-Gone (inserts i dd ud c sc now expires) db g = insert-Gone db i dd ud c sc now expires g
  perform-Gone (decides ud p s decision now) db g =
      Gone-update (may_decide db ud p s now) (set_decision p s decision) db.devices
        (decision_id p s decision) (decision-left db ud p s now decision) g
  perform-Gone (polls dd c now) db g =
      Gone-update (is_polled dd c) (polled now) db.devices (λ d. unfold polled in refl)
        (λ d q h. unfold polled in h) g
  perform-Gone (consumes gr f marker a now expires) db g =
      elim (Option-cases (consume db gr f marker a now expires)) [
        | inl e ↦ rw e g
        | inr ((db', b), e) ↦
            let c = consume-Committed gr f marker a now expires db db' b e in
            rw (e, c.devices)
              (Gone-update (may_consume db gr now) (set_consumed marker) db.devices
                (λ d. unfold set_consumed in refl) (λ d q h. unfold set_consumed in ground arith) g)
      ]

  perform_all-Gone :
      (cs : List Call) (db : Db) → Gone id db.devices → Gone id (perform_all cs db).devices
  unfolding perform_all
  perform_all-Gone [] db g = g
  perform_all-Gone (c ∷ cs) db g = perform_all-Gone cs (perform c db) (perform-Gone c db g)

may_consume_id :
    (db : Db) (g : DeviceGrant) (now : ℕ) (d : Device)
    → may_consume db g now d ≡ true
    → is_left g.id d ≡ true
unfolding may_consume
may_consume_id db g now d h = ground arith

may_consume_none :
    (db : Db) (g : DeviceGrant) (now : ℕ) (ds : List Device)
    → any (is_left g.id) ds ≡ false
    → any (may_consume db g now) ds ≡ false
may_consume_none db g now ds h =
    any_narrow (may_consume db g now) (is_left g.id) ds (may_consume_id db g now) h

-- Where identifiers are unique, the consumption leaves no row of its request.
consumption-left :
    (db : Db) (g : DeviceGrant) (marker : Text) (now : ℕ) (ds : List Device)
    → UniqueDevices ds
    → any (may_consume db g now) ds ≡ true
    → any (is_left g.id) (update (may_consume db g now) (set_consumed marker) ds) ≡ false
unfolding update
consumption-left db g marker now [] u h = absurd (ground arith)
consumption-left db g marker now (d ∷ ds) (u, us) h = elim (Bool-cases (may_consume db g now d)) [
  | inl e ↦
      let mine : d.id ≡ g.id =
        (eq_text_iff d.id g.id).0 (ground (arith, may_consume_id db g now d e)) in
      let alone : any (is_left g.id) ds ≡ false =
        any_narrow (is_left g.id) (has_id g.id) ds (λ r q. ground arith) (rw mine at u) in
      let rest =
        left-update g.id (may_consume db g now) (set_consumed marker) ds
          (λ r q k. unfold set_consumed in ground arith) alone in
      rw e (unfold set_consumed in ground (arith, rest))
  | inr e ↦
      let later : any (may_consume db g now) ds ≡ true = ground (arith, e) in
      let rest = consumption-left db g marker now ds us later in
      let there : any (has_id g.id) ds ≡ true =
        any_imp (may_consume db g now) (has_id g.id) ds
          (λ r q. ground (arith, may_consume_id db g now r q)) later in
      let other : eq_text d.id g.id ≡ false = elim (Bool-cases (eq_text d.id g.id)) [
        | inr q ↦ q
        | inl q ↦ absurd (
            ground
              (arith, u, there, ap (λ (k : Text). any (has_id k) ds) ((eq_text_iff d.id g.id).0 q)))
      ] in
      rw e (ground (arith, rest, other))
]

-- A request is consumed once: after a batch that committed and reported a consumption, no batch for the same
-- request does, whatever grant it holds of it, and whatever inserts, decisions, polls and consumptions come
-- between. The identifiers of the requests must be unique, as the primary key has it.
pub consume_once :
    (db db' db'' : Db) (g g' : DeviceGrant) (f f' : Option NewFamily) (marker marker' a a' : Text)
    (now later expires expires' : ℕ) (cs : List Call) (b : Bool)
    → UniqueDevices db.devices
    → consume db g f marker a now expires ≡ some (db', true)
    → g'.id ≡ g.id
    → consume (perform_all cs db') g' f' marker' a' later expires' ≡ some (db'', b)
    → b ≡ false
consume_once db db' db'' g g' f f' marker marker' a a' now later expires expires' cs b u h same k =
    let first = consume-Committed g f marker a now expires db db' true h in
    let second = consume-Committed g' f' marker' a' later expires' (perform_all cs db') db'' b k in
    let chosen : any (may_consume db g now) db.devices ≡ true = sym first.reports in
    let there : any (has_id g.id) db.devices ≡ true =
      any_imp (may_consume db g now) (has_id g.id) db.devices
        (λ r q. ground (arith, may_consume_id db g now r q)) chosen in
    let gone : Gone g.id db'.devices = rw first.devices (record {
      there =
          any-update_same (may_consume db g now) (set_consumed marker) (has_id g.id) db.devices
            (λ d. unfold set_consumed in refl)
          ∙ there;
      none_left = consumption-left db g marker now db.devices u chosen;
    }) in
    let still = (perform_all-Gone g.id cs db' gone).none_left in
    second.reports
    ∙ may_consume_none (perform_all cs db') g' later (perform_all cs db').devices (rw same still)
