-- ===== src/Users.antt =====
-- pkg/users: the user records and where they come from.
pub mod Types
pub mod FileSource
pub mod Repository
pub mod MemorySource
