-- ===== src/Ftp.antt =====
-- pkg/ftpserver: the FTP server over the shared filesystem of pkg/vfs.
pub mod Client
pub mod Names
pub mod Driver
pub mod Counters
mod Tests
