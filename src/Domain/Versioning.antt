-- ===== src/Domain/Versioning.antt =====
-- domain/versioning.py: closed interpretation of versioned contracts.
pub mod Registry
pub mod Interpret
pub mod Paths
pub mod Readings
mod Tests
