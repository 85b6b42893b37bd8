-- ===== src/Device/Repository.antt =====
-- crates/identity-worker/src/device_repository.rs: each function as the statement that it runs. Fresh
-- identifiers and the time are arguments.
mod Requests
mod Grants
mod Attempts
pub use moesegfault_indentity.Device.Repository.Requests.{
  DeviceRequest, DevicePoll, is_state, new_device, Decision, is_open, is_early, is_polled,
  poll_result, approve, deny,
}
unfoldable pub use moesegfault_indentity.Device.Repository.Requests.{
  insert, device_clashes, lookup, may_decide, set_decision, decide, polled, poll,
}
pub use moesegfault_indentity.Device.Repository.Grants.{
  DeviceGrant, join_grant, grant_of, is_value, NewFamily, is_current, new_family, first_token,
}
unfoldable pub use moesegfault_indentity.Device.Repository.Grants.{
  grant, may_consume, set_consumed, holds_marker, authorize, authorize_fails, add_family,
  marker_fails, consume,
}
unfoldable pub use moesegfault_indentity.Device.Repository.Attempts.{
  is_bucket, count_attempt, reserve_attempt, purge_expired,
}
