-- ===== src/Store/Samples.antt =====
-- Sample rows for the tests.
use moesegfault_indentity.Base.{true, false, none, some, [], ◌∷◌}
use moesegfault_indentity.Base.Text.{text}
use moesegfault_indentity.Store.{
  Client, Session, Device, approved, Family, RefreshToken, active, Db,
}

abbrev pub sample_client : Client
sample_client = record {
  client_id = text "tv";
  display_name = text "TV";
  client_type = text "native";
  token_endpoint_auth_method = text "none";
  enabled = true;
  device_authorization_enabled = true;
  sector_identifier = text "tv.example";
  subject_salt_revision = 1;
}

abbrev pub sample_session : Session
sample_session = record {
  session_id = text "s1";
  digest = text "S";
  principal_id = text "p1";
  authenticated_at = 900;
  last_seen_at = 900;
  idle_expires_at = 5000;
  absolute_expires_at = 9000;
  revoked_at = none;
  amr_json = text "[]";
  acr = text "1";
}

abbrev pub sample_device : Device
sample_device = record {
  id = text "d1";
  device_code_digest = text "D";
  user_code_digest = text "U";
  client_id = text "tv";
  scope = text "openid offline_access";
  state = approved;
  principal_id = some (text "p1");
  session_id = some (text "s1");
  created_at = 1000;
  expires_at = 1600;
  poll_interval = 5;
  next_poll_at = 1005;
  last_poll_early = false;
  consumption_id = none;
}

abbrev pub sample_family : Family
sample_family = record {
  family_id = text "f1";
  client_id = text "tv";
  principal_id = text "p1";
  session_id = text "s1";
  scope = text "openid";
  absolute_expires_at = 8000;
  revoked_at = none;
  revocation_reason = none;
  reuse_detected_at = none;
}

abbrev pub sample_token : RefreshToken
sample_token = record {
  token_id = text "t1";
  family_id = text "f1";
  digest = text "R";
  generation = 0;
  issued_at = 1000;
  expires_at = 8000;
  state = active;
  consumed_at = none;
  replacement = none;
}

-- One client, one principal with a session, one approved request, and one refresh token.
abbrev pub sample_db : Db
sample_db = record {
  clients = sample_client ∷ [];
  principals = record { principal_id = text "p1"; is_active = true } ∷ [];
  sessions = sample_session ∷ [];
  profiles = record { principal_id = text "p1"; display_name = text "Ada" } ∷ [];
  usernames = record { principal_id = text "p1"; value = text "ada" } ∷ [];
  devices = sample_device ∷ [];
  attempts = [];
  authorizations = [];
  families = sample_family ∷ [];
  tokens = sample_token ∷ [];
  subjects = [];
  client_sessions = [];
  transactions = [];
  codes = [];
  code_uses = [];
  links = [];
  client_scopes = [];
  redirects = [];
  logout_redirects = [];
  client_keys = [];
  assertions = [];
}
