-- ===== src/Stage5/Journal.antt =====
-- stage5/commit_boundary/recovery_journal.py: the journal of recovery intents, its tables, and the gate
-- that forbids new exposure.
pub mod Records
pub mod Connection
pub mod Intents
pub mod Opening
pub mod Recovery
pub mod Resolution
pub mod Commands
pub mod Kept
pub mod Laws
pub mod Lives
pub mod Rows
pub mod Resolved
pub mod Holding
pub mod Held
pub mod Evidence
pub mod Closing
pub mod Exposure
pub mod Cleared
pub mod Reopening
mod Tests
pub mod WellFormed
