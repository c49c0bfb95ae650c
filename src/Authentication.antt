-- ===== src/Authentication.antt =====
-- pkg/authentication: who a client is.
pub mod Authenticator
pub mod Verifiers
mod Tests
