-- ===== src/Authorization.antt =====
-- pkg/authorization: per-path permissions from the MUD's access map.
pub mod Permission
pub mod Tree
pub mod Resolve
pub mod Reference
pub mod Authorizer
pub mod Source
mod Tests
