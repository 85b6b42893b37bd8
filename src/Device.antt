-- ===== src/Device.antt =====
-- Device authorization (RFC 8628): crates/identity-worker/src/device.rs and device_repository.rs.
pub mod Codes
pub mod Repository
pub mod Lifecycle
pub mod Polling
pub mod Throttle
pub mod Consume
pub mod Once
pub mod Tests
pub mod Handlers
pub mod Start
