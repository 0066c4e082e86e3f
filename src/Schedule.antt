-- ===== src/Schedule.antt =====
-- src/modules/schedule: sessions, their participants and times, conflicts, and their accounting.
pub mod Entity
pub mod Participants
pub mod SessionTime
pub mod Conflicts
pub mod TemporalTransition
pub mod SeriesScope
mod Samples
mod Tests
pub mod Accounting
