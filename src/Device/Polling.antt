-- ===== src/Device/Polling.antt =====
-- The polling discipline of `poll`: RFC 8628 slows a client down by five seconds for each early poll.
use moesegfault_indentity.Base.{
  ℕ, ◌+◌, ◌≤◌, ◌≡◌, refl, true, false, List, [], ◌∷◌, ltb, if◌then◌else◌, arith, Bool-cases, inl,
  inr,
}
use moesegfault_indentity.Base.Text.{Text}
use moesegfault_indentity.Secret.{Digest}
use moesegfault_indentity.Store.{Device}
use moesegfault_indentity.Device.Repository.{is_open, polled, new_device}

-- On a request that is open, a poll before the stored time is told to slow down and lengthens the
-- interval by five seconds, any other poll leaves it; either way the next poll is due one interval,
-- as now stored, after this one.
pub polled_lem :
    (now : ℕ) (d : Device)
    → is_open now d ≡ true
    → ((polled now d).last_poll_early ≡ ltb now d.next_poll_at)
      × ((polled now d).poll_interval ≡ d.poll_interval + (if ltb now d.next_poll_at then 5 else 0))
      × ((polled now d).next_poll_at ≡ now + (polled now d).poll_interval)
unfolding polled
polled_lem now d h = elim (Bool-cases (ltb now d.next_poll_at)) [
  | inl e ↦ rw (h, e) (refl, refl, omega arith)
  | inr e ↦ rw (h, e) (refl, refl, omega arith)
]

-- The times of a client that waits, before each poll, the interval that the poll before it returned.
abbrev pub Waits : ℕ → Device → List ℕ → Type 0
Waits last d [] = Unit
Waits last d (t ∷ ts) = (last + d.poll_interval ≤ t) × Waits t (polled t d) ts

abbrev pub NeverEarly : Device → List ℕ → Type 0
NeverEarly d [] = Unit
NeverEarly d (t ∷ ts) =
    ((polled t d).last_poll_early ≡ false)
    × ((polled t d).poll_interval ≡ d.poll_interval)
    × NeverEarly (polled t d) ts

on_time :
    (last t : ℕ) (d : Device)
    → d.next_poll_at ≤ last + d.poll_interval
    → last + d.poll_interval ≤ t
    → ((polled t d).last_poll_early ≡ false)
      × ((polled t d).poll_interval ≡ d.poll_interval)
      × ((polled t d).next_poll_at ≤ t + (polled t d).poll_interval)
unfolding polled
on_time last t d due wait =
    let late : ltb t d.next_poll_at ≡ false = ground arith in
    (ground arith, ground arith, ground arith)

Waits-NeverEarly :
    (last : ℕ) (d : Device) (ts : List ℕ)
    → d.next_poll_at ≤ last + d.poll_interval
    → Waits last d ts
    → NeverEarly d ts
Waits-NeverEarly last d [] due w = tt
Waits-NeverEarly last d (t ∷ ts) due (wait, later) =
    let (early, same, due') = on_time last t d due wait in
    (early, same, Waits-NeverEarly t (polled t d) ts due' later)

-- A client that waits the returned interval from the start on is never told to slow down, and its
-- interval never changes.
pub patient_client :
    (id : Text) (dd ud : Digest) (client_id scope : Text) (now expires : ℕ) (ts : List ℕ)
    → Waits now (new_device id dd ud client_id scope now expires) ts
    → NeverEarly (new_device id dd ud client_id scope now expires) ts
patient_client id dd ud client_id scope now expires ts w =
    Waits-NeverEarly now (new_device id dd ud client_id scope now expires) ts (omega arith) w
