-- ===== src/Research.antt =====
-- The research simulation: the financial ledger and the simulated order management.
pub mod Ledger
pub mod Execution
pub mod Posting
