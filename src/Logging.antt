-- ===== src/Logging.antt =====
-- pkg/logging: the log files and the lines in them.
pub mod RotatingWriter
pub mod Sizes
pub mod Lines
pub mod Settings
pub mod OneLine
pub mod Handles
pub mod Loggers
pub mod Reader
pub mod Values
pub mod Fields
mod Tests
