-- ===== src/Lpc.antt =====
-- pkg/lpc: the reader of the LPC object format.
pub mod Value
pub mod Cursor
pub mod Decimal
pub mod DecimalRoundtrip
pub mod Rune
pub mod Scalars
pub mod Parser
pub mod Progress
pub mod Object
pub mod Printer
pub mod Reads
pub mod TextFloat
mod Tests
