-- ===== src/Device/Lifecycle.antt =====
-- The life of one device authorization: which rows the statements of `device_repository.rs` lead to.
use moesegfault_indentity.Base.{
  ℕ, ◌≤◌, ◌≡◌, ◌≢◌, refl, ◌∙◌, ◌⊎◌, inl, inr, true, Option, none, some, arith,
}
use moesegfault_indentity.Base.Text.{Text}
use moesegfault_indentity.Secret.{Digest}
use moesegfault_indentity.Store.{Device, DeviceState, pending, approved, denied, consumed, Db}
use moesegfault_indentity.Device.Repository.{
  is_state, new_device, Decision, approve, deny, may_decide, set_decision, polled, DeviceGrant,
  may_consume, set_consumed,
}

-- One statement that changes a row, at any time and in any state of the other tables.
pub data Move : Device → Device → Type 0 where
  decided :
      (db : Db) (user_digest : Digest) (principal_id session_id : Text) (now : ℕ)
      (decision : Decision) (d : Device)
      → may_decide db user_digest principal_id session_id now d ≡ true
      → Move d (set_decision principal_id session_id decision d)
  polled_at : (now : ℕ) (d : Device) → Move d (polled now d)
  taken :
      (db : Db) (g : DeviceGrant) (now : ℕ) (marker : Text) (d : Device)
      → may_consume db g now d ≡ true
      → Move d (set_consumed marker d)

pub data Reach (d : Device) : Device → Type 0 where
  here : Reach d d
  next : {e f : Device} → Reach d e → Move e f → Reach d f

-- An undecided or denied request names nobody; an approved or consumed one names the principal and
-- the session that approved it; a consumption is recorded exactly for a consumed one.
abbrev pub Named : DeviceState → Option Text → Option Text → Option Text → Type 0
Named pending p s m = (p ≡ none) × (s ≡ none) × (m ≡ none)
Named denied p s m = (p ≡ none) × (s ≡ none) × (m ≡ none)
Named approved p s m = (p ≢ none) × (s ≢ none) × (m ≡ none)
Named consumed p s m = (p ≢ none) × (s ≢ none) × (m ≢ none)

pub record IsValid (d : Device) : Type 0 where
  pub named : Named d.state d.principal_id d.session_id d.consumption_id
  pub interval : 5 ≤ d.poll_interval

new_device-IsValid :
    (id : Text) (dd ud : Digest) (client_id scope : Text) (now expires : ℕ)
    → IsValid (new_device id dd ud client_id scope now expires)
new_device-IsValid id dd ud client_id scope now expires = record {
  named = (refl, refl, refl);
  interval = omega arith;
}

Named-approved_of_pending :
    (st : DeviceState) (p s m : Option Text)
    → is_state st pending ≡ true
    → Named st p s m
    → m ≡ none
Named-approved_of_pending pending p s m e n = n.2
Named-approved_of_pending approved p s m e n = cc
Named-approved_of_pending denied p s m e n = cc
Named-approved_of_pending consumed p s m e n = cc

Named-taken :
    (st : DeviceState) (p s m : Option Text) (marker : Text)
    → is_state st approved ≡ true
    → Named st p s m
    → Named consumed p s (some marker)
Named-taken pending p s m marker e n = cc
Named-taken approved p s m marker e n = (n.0, n.1, λ q. cc q)
Named-taken denied p s m marker e n = cc
Named-taken consumed p s m marker e n = cc

Move-IsValid : {d e : Device} → Move d e → IsValid d → IsValid e
unfolding may_decide set_decision polled may_consume set_consumed
Move-IsValid (decided db ud p s now approve d h) v = record {
  named = (
    λ q. cc q,
    λ q. cc q,
    Named-approved_of_pending d.state d.principal_id d.session_id d.consumption_id (ground arith)
        v.named,
  );
  interval = v.interval;
}
Move-IsValid (decided db ud p s now deny d h) v = record {
  named = (
    refl,
    refl,
    Named-approved_of_pending d.state d.principal_id d.session_id d.consumption_id (ground arith)
        v.named,
  );
  interval = v.interval;
}
Move-IsValid (polled_at now d) v = record { named = v.named; interval = ground (arith, v.interval) }
Move-IsValid (taken db g now marker d h) v = record {
  named =
      Named-taken d.state d.principal_id d.session_id d.consumption_id marker (ground arith)
        v.named;
  interval = v.interval;
}

Reach-IsValid : {d e : Device} → Reach d e → IsValid d → IsValid e
Reach-IsValid here v = v
Reach-IsValid (next r m) v = Move-IsValid m (Reach-IsValid r v)

-- Every row that the statements lead to from an inserted one is valid: it names a principal and a
-- session exactly if it is approved or consumed, holds a marker exactly if it is consumed, and is
-- polled at intervals of at least five seconds.
pub inserted-IsValid :
    (id : Text) (dd ud : Digest) (client_id scope : Text) (now expires : ℕ) (e : Device)
    → Reach (new_device id dd ud client_id scope now expires) e
    → IsValid e
inserted-IsValid id dd ud client_id scope now expires e r =
    Reach-IsValid r (new_device-IsValid id dd ud client_id scope now expires)

-- Once decided, the decision stands: what a denied row leads to is denied, and what an approved row
-- leads to is approved or consumed, for the same principal and session.
abbrev pub Settled : Device → Device → Type 0
Settled d e =
    (e.principal_id ≡ d.principal_id)
    × (e.session_id ≡ d.session_id)
    × (e.client_id ≡ d.client_id)
    × (e.scope ≡ d.scope)
    × (e.expires_at ≡ d.expires_at)
    × (d.state ≡ denied → e.state ≡ denied)
    × (d.state ≡ consumed → (e.state ≡ consumed) × (e.consumption_id ≡ d.consumption_id))
    × (d.state ≡ approved → (e.state ≡ approved) ⊎ (e.state ≡ consumed))

is_state_sound : (s t : DeviceState) → is_state s t ≡ true → s ≡ t
is_state_sound pending t h = ground arith
is_state_sound approved t h = ground arith
is_state_sound denied t h = ground arith
is_state_sound consumed t h = ground arith

may_decide-pending :
    (db : Db) (ud : Digest) (p s : Text) (now : ℕ) (d : Device)
    → may_decide db ud p s now d ≡ true
    → d.state ≡ pending
unfolding may_decide
may_decide-pending db ud p s now d h = is_state_sound d.state pending (ground arith)

may_consume-approved :
    (db : Db) (g : DeviceGrant) (now : ℕ) (d : Device)
    → may_consume db g now d ≡ true
    → d.state ≡ approved
unfolding may_consume
may_consume-approved db g now d h = is_state_sound d.state approved (ground arith)

Move-Settled : {d e : Device} → Move d e → d.state ≢ pending → Settled d e × (e.state ≢ pending)
unfolding polled set_consumed
Move-Settled (decided db ud p s now decision d h) n =
    absurd (n (may_decide-pending db ud p s now d h))
Move-Settled (polled_at now d) n = ((refl, refl, refl, refl, refl, λ h. h, λ h. (h, refl), inl), n)
Move-Settled (taken db g now marker d h) n =
    let was : d.state ≡ approved = may_consume-approved db g now d h in
    ((refl, refl, refl, refl, refl, λ q. cc (was, q), λ q. cc (was, q), λ _. inr refl), λ q. cc q)

Settled-trans : (d e f : Device) → Settled d e → Settled e f → Settled d f
Settled-trans d e f h k = (
  k.0 ∙ h.0,
  k.1 ∙ h.1,
  k.2 ∙ h.2,
  k.3 ∙ h.3,
  k.4 ∙ h.4,
  λ q. k.5 (h.5 q),
  λ q. ((k.6 (h.6 q).0).0, (k.6 (h.6 q).0).1 ∙ (h.6 q).1),
  λ q. elim (h.7 q) [ inl a ↦ k.7 a | inr c ↦ inr (k.6 c).0 ],
)

-- Whatever is polled, decided or consumed later, a decided request keeps its decision, its client,
-- scope and expiry and whoever approved it: a denied one stays denied, a consumed one stays consumed
-- under the same marker, and an approved one is approved or consumed.
pub Reach-Settled :
    {d e : Device} → Reach d e → d.state ≢ pending → Settled d e × (e.state ≢ pending)
Reach-Settled {d} here n = ((refl, refl, refl, refl, refl, λ h. h, λ h. (h, refl), inl), n)
Reach-Settled {d} (next {e = e} {f = f} r m) n =
    let (h, n') = Reach-Settled r n in
    let (k, n'') = Move-Settled m n' in (Settled-trans d e f h k, n'')
