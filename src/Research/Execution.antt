-- ===== src/Research/Execution.antt =====
-- research/simulated_execution.py: costs, orders, the order management and the posting of fills.
pub mod Costs
pub mod Orders
pub mod Oms
pub mod Execute
pub mod Records
pub mod Keeps
pub mod Commands
pub mod Runs
mod Tests
