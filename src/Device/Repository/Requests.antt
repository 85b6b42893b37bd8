-- ===== src/Device/Repository/Requests.antt =====
-- crates/identity-worker/src/device_repository.rs: insert, lookup, decide and poll.
use moesegfault_indentity.Base.{
  ℕ, ◌+◌, Bool, true, false, ◌&&◌, ◌||◌, Option, none, some, [], ◌∷◌, ◌++◌, ltb, leb, if◌then◌else◌,
  any, find,
}
use moesegfault_indentity.Base.Text.{Text, eq_text}
use moesegfault_indentity.Secret.{Digest, ct_eq}
use moesegfault_indentity.Store.{
  DeviceState, pending, approved, denied, consumed, Device, Db, has_authority, is_device_client,
}
use moesegfault_indentity.Store.Sql.{update}

-- `DeviceRequest`
pub record DeviceRequest : Type 0 where
  pub id : Text
  pub client_id : Text
  pub client_name : Text
  pub scope : Text
  pub state : DeviceState
  pub expires_at : ℕ

pub record DevicePoll : Type 0 where
  pub id : Text
  pub state : DeviceState
  pub expires_at : ℕ
  pub poll_interval : ℕ
  pub slow_down : Bool

abbrev pub is_state : DeviceState → DeviceState → Bool
is_state pending pending = true
is_state approved approved = true
is_state denied denied = true
is_state consumed consumed = true
is_state _ _ = false

-- the row of `insert`, with the column defaults
abbrev pub new_device : Text → Digest → Digest → Text → Text → ℕ → ℕ → Device
new_device id device_digest user_digest client_id scope now expires = record {
  id = id;
  device_code_digest = device_digest;
  user_code_digest = user_digest;
  client_id = client_id;
  scope = scope;
  state = pending;
  principal_id = none;
  session_id = none;
  created_at = now;
  expires_at = expires;
  poll_interval = 5;
  next_poll_at = now + 5;
  last_poll_early = false;
  consumption_id = none;
}

-- The primary key and the UNIQUE digests of `oauth_device_authorizations`.
unfoldable pub device_clashes : Device → Device → Bool
device_clashes new d =
    eq_text d.id new.id
    || ct_eq d.device_code_digest new.device_code_digest
    || ct_eq d.user_code_digest new.user_code_digest

-- `none` when a constraint refuses the row, `CHECK (expires_at > created_at)` among them.
unfoldable pub insert : Db → Text → Digest → Digest → Text → Text → ℕ → ℕ → Option Db
insert db id device_digest user_digest client_id scope now expires =
    let new = new_device id device_digest user_digest client_id scope now expires in
    if any (device_clashes new) db.devices || leb expires now
    then none
    else some (record db { devices = db.devices ++ new ∷ [] })

unfoldable pub lookup : Db → Digest → Option DeviceRequest
lookup db user_digest =
    elim (find (λ d. ct_eq d.user_code_digest user_digest && is_device_client db d.client_id)
      db.devices) [
        | none ↦ none
        | some d ↦ elim (find (λ c. eq_text c.client_id d.client_id) db.clients) [
          | none ↦ none
          | some c ↦ some (record {
            id = d.id;
            client_id = d.client_id;
            client_name = c.display_name;
            scope = d.scope;
            state = d.state;
            expires_at = d.expires_at;
          })
        ]
      ]

pub data Decision : Type 0 where
  approve deny : Decision

-- the WHERE clause of `decide`
unfoldable pub may_decide : Db → Digest → Text → Text → ℕ → Device → Bool
may_decide db user_digest principal_id session_id now d =
    ct_eq d.user_code_digest user_digest
    && is_state d.state pending
    && ltb now d.expires_at
    && has_authority db principal_id session_id now
    && is_device_client db d.client_id

unfoldable pub set_decision : Text → Text → Decision → Device → Device
set_decision principal_id session_id approve d = record d {
  state = approved;
  principal_id = some principal_id;
  session_id = some session_id;
}
set_decision principal_id session_id deny d = record d {
  state = denied;
  principal_id = none;
  session_id = none;
}

unfoldable pub decide : Db → Digest → Text → Text → Decision → ℕ → Db × Bool
decide db user_digest principal_id session_id decision now =
    let chosen = may_decide db user_digest principal_id session_id now in
    (
      record db {
        devices = update chosen (set_decision principal_id session_id decision) db.devices;
      },
      any chosen db.devices,
    )

-- the CASE conditions of `poll`
abbrev pub is_open : ℕ → Device → Bool
is_open now d = (is_state d.state pending || is_state d.state approved) && ltb now d.expires_at

abbrev pub is_early : ℕ → Device → Bool
is_early now d = is_open now d && ltb now d.next_poll_at

unfoldable pub polled : ℕ → Device → Device
polled now d = record d {
  last_poll_early = is_early now d;
  next_poll_at =
      if is_open now d
      then now + d.poll_interval + (if ltb now d.next_poll_at then 5 else 0)
      else d.next_poll_at;
  poll_interval = d.poll_interval + (if is_early now d then 5 else 0);
}

abbrev pub is_polled : Digest → Text → Device → Bool
is_polled device_digest client_id d =
    ct_eq d.device_code_digest device_digest && eq_text d.client_id client_id

-- the RETURNING clause
abbrev pub poll_result : Device → DevicePoll
poll_result d = record {
  id = d.id;
  state = d.state;
  expires_at = d.expires_at;
  poll_interval = d.poll_interval;
  slow_down = d.last_poll_early;
}

unfoldable pub poll : Db → Digest → Text → ℕ → Db × Option DevicePoll
poll db device_digest client_id now =
    let chosen = is_polled device_digest client_id in
    (
      record db { devices = update chosen (polled now) db.devices },
      elim (find chosen db.devices) [ none ↦ none | some d ↦ some (poll_result (polled now d)) ],
    )
