-- ===== src/Sftp.antt =====
-- pkg/sftpserver: the SFTP server over the shared filesystem of pkg/vfs.
pub mod Flags
pub mod Handlers
pub mod ReadOnly
pub mod Paging
pub mod Channels
pub mod Connections
pub mod Login
pub mod HostKey
pub mod Server
pub mod Timeouts
pub mod AuthorizedKeys
mod Tests
