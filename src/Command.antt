-- ===== src/Command.antt =====
-- cmd/vkftpd: the configuration of the program.
pub mod Config
pub mod Loading
pub mod Main
mod Tests
