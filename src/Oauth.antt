-- ===== src/Oauth.antt =====
-- crates/identity-worker/src/oauth.rs and oauth_repository.rs: the token endpoint and its tables.
pub mod Exchange
pub mod Issue
pub mod Refresh
pub mod Rotation
pub mod Jwt
pub mod Clients
pub mod Codes
pub mod Token
pub mod Authorize
pub mod Logout
pub mod Syntax
pub mod Tests
