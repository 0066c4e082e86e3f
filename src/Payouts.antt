-- ===== src/Payouts.antt =====
-- src/modules/payouts: settlements of instructors' pay, over the tables that they read and write.
pub mod Rows
pub mod Read
pub mod Steps
pub mod Commands
pub mod Integrity
pub mod Sound
pub mod History
pub mod Checked
pub mod Books
pub mod Bulk
pub mod Reversal
pub mod Lines
pub mod Worksheet
pub mod Accounting
pub mod Readiness
pub mod Samples
mod Tests
