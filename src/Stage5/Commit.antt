-- ===== src/Stage5/Commit.antt =====
-- stage5/commit_boundary/postgres_serializable.py: one protected operation in serializable
-- transactions, retried within a deadline.
pub mod Outcome
pub mod Effects
pub mod Envelope
pub mod Attempts
pub mod Triples
pub mod Kept
pub mod Ended
pub mod Returned
pub mod Truth
pub mod Counting
pub mod Quietness
pub mod Records
pub mod Bound
mod Tests
