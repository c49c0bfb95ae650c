-- ===== src/Vfs.antt =====
-- pkg/vfs: the authorized, jailed filesystem that both protocol servers use.
pub mod Bits
pub mod Listing
pub mod Session
pub mod Operations
pub mod Requests
pub mod Policy
pub mod Backend
pub mod Serving
pub mod Outage
pub mod ReadOnly
pub mod Counting
mod Tests
