-- ===== src/Stage5.antt =====
-- The commit boundary of stage5/: one protected operation at a time, and its recovery.
pub mod Operation
pub mod Commit
pub mod Authority
pub mod Journal
pub mod Admission
pub mod Restriction
