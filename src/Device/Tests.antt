-- ===== src/Device/Tests.antt =====
-- Runs of the device flow on sample rows.
use moesegfault_indentity.Oauth.Refresh.{clashes}
use moesegfault_indentity.Store.Sql.{update}
use moesegfault_indentity.Base.{
  ◌≡◌, ◌≢◌, refl, true, false, some, none, [], ◌∷◌, any, arith, Option, List, Bool,
}
use moesegfault_indentity.Base.Text.{text, to_ascii_lowercase, split_ascii_whitespace}
use moesegfault_indentity.Store.{Device, pending, has_authority, is_device_client, Db}
use moesegfault_indentity.Store.Samples.{sample_db, sample_device}
use moesegfault_indentity.Device.Codes.{
  normalize_user_code, formatted_user_code, normalize-formatted,
}
use moesegfault_indentity.Device.Repository.{
  DeviceGrant, new_device, polled, consume, may_consume, holds_marker, may_decide, set_decision,
  deny, NewFamily, approve, authorize, device_clashes, poll, decide, insert, add_family,
  set_consumed, authorize_fails, marker_fails,
}
use moesegfault_indentity.Device.Lifecycle.{polled_at, here, next, Settled, Reach-Settled}
use moesegfault_indentity.Device.Polling.{NeverEarly, patient_client}
use moesegfault_indentity.Device.Throttle.{granted, requested, granted_lem}
use moesegfault_indentity.Device.Consume.{consume_won, holds_consumed}
use moesegfault_indentity.Device.Once.{
  Call, polls, decides, inserts, perform_all, perform, consume_once,
}

abbrev sample_grant : DeviceGrant
sample_grant = record {
  id = text "d1";
  client_id = text "tv";
  principal_id = text "p1";
  session_id = text "s1";
  scope = text "openid offline_access";
  expires_at = 1600;
  authenticated_at = 900;
  session_idle_expires_at = 5000;
  session_absolute_expires_at = 9000;
  session_revoked_at = none;
  amr_json = text "[]";
  acr = text "1";
  display_name = text "Ada";
  username = text "ada";
  sector_identifier = text "tv.example";
  subject_salt_revision = 1;
}

abbrev family : NewFamily
family = (text "f2", text "t2", text "N")

abbrev state_of : Option (Db × Bool) → Db
state_of none = sample_db
state_of (some r) = r.0

abbrev consumed_db : Db
consumed_db =
    state_of (consume sample_db sample_grant (some family) (text "m1") (text "a1") 1100 5000)

sample_won :
    consume sample_db sample_grant (some family) (text "m1") (text "a1") 1100 5000
    ≡ some (consumed_db, true)
unfolding consume marker_fails may_consume has_authority is_device_client authorize_fails update
    holds_marker set_consumed add_family clashes perform_all perform insert decide poll
    device_clashes split_ascii_whitespace authorize may_decide polled set_decision
sample_won = refl

-- A poll, a decision and an insert under the same identifier come between.
abbrev calls : List Call
calls =
    polls (text "D") (text "tv") 1101
    ∷ decides (text "U") (text "p1") (text "s1") approve 1102
    ∷ inserts (text "d1") (text "D2") (text "U2") (text "tv") (text "openid") 1103 1703
    ∷ []

-- Whether a batch committed and reported a consumption.
abbrev is_won : Option (Db × Bool) → Bool
is_won none = false
is_won (some r) = r.1

abbrev second_run : Option (Db × Bool)
second_run =
    consume (perform_all calls consumed_db) sample_grant none (text "m2") (text "a2") 1104 5000

abbrev later_db : Db
later_db = state_of second_run

sample_second : second_run ≡ some (later_db, is_won second_run)
unfolding consume marker_fails perform_all perform insert decide update poll may_consume
    has_authority is_device_client authorize_fails holds_marker set_consumed add_family clashes
    device_clashes split_ascii_whitespace authorize may_decide polled set_decision
sample_second = refl

consume_once_example : is_won second_run ≡ false
consume_once_example =
    consume_once sample_db consumed_db later_db sample_grant sample_grant (some family) none
      (text "m1") (text "m2") (text "a1") (text "a2") 1100 1104 5000 5000 calls (is_won second_run)
      (refl, tt) sample_won refl sample_second

-- A marker that another request holds rolls the batch back.
sample_rolled_back :
    consume
      (record sample_db {
        devices =
            sample_device
            ∷ record sample_device { id = text "d2"; consumption_id = some (text "m1") }
            ∷ [];
      })
      sample_grant
      (some family)
      (text "m1")
      (text "a1")
      1100
      5000
    ≡ none
unfolding consume marker_fails may_consume has_authority is_device_client
sample_rolled_back = refl

consume_won_example : any (holds_consumed (text "d1") (text "m1")) consumed_db.devices ≡ true
consume_won_example =
    (consume_won sample_db consumed_db sample_grant (some family) (text "m1") (text "a1") 1100 5000
      sample_won).2

abbrev pending_device : Device
pending_device = new_device (text "d1") (text "D") (text "U") (text "tv") (text "openid") 1000 1600

sample_may : may_decide sample_db (text "U") (text "p1") (text "s1") 1100 pending_device ≡ true
unfolding may_decide has_authority is_device_client
sample_may = refl

abbrev denied_device : Device
denied_device = set_decision (text "p1") (text "s1") deny pending_device

Reach-Settled_example :
    Settled sample_device (polled 1003 sample_device)
    × ((polled 1003 sample_device).state ≢ pending)
Reach-Settled_example = Reach-Settled (next here (polled_at 1003 sample_device)) (λ q. cc q)

granted_lem_example :
    granted [] (text "b", 0) 2 ((text "b", 0) ∷ (text "c", 0) ∷ (text "b", 0) ∷ (text "b", 0) ∷ [])
    ≡ 2
unfolding requested
granted_lem_example =
    granted_lem [] (text "b", 0) 2
      ((text "b", 0) ∷ (text "c", 0) ∷ (text "b", 0) ∷ (text "b", 0) ∷ []) (omega arith)

patient_client_example : NeverEarly pending_device (1005 ∷ 1011 ∷ [])
unfolding polled
patient_client_example =
    patient_client (text "d1") (text "D") (text "U") (text "tv") (text "openid") 1000 1600
      (1005 ∷ 1011 ∷ []) (omega arith, (omega arith, tt))

normalize-formatted_example :
    normalize_user_code (to_ascii_lowercase (formatted_user_code (text "ABCDEFGH")))
    ≡ some (text "ABCDEFGH")
normalize-formatted_example =
    normalize-formatted (text "ABCDEFGH") (record { eight = refl; chars = refl })
