-- ===== src/Research/Ledger.antt =====
-- research/simulation_ledger.py, from the events up to the replay of a history.
pub mod Event
pub mod State
pub mod Book
pub mod Positions
pub mod Accounting
pub mod Trades
pub mod History
mod Tests
