-- ===== src/Domain.antt =====
-- The contracts of domain/: versions, state transitions, delivery, concurrency and decisions.
pub mod Versioning
pub mod Transitions
pub mod Delivery
pub mod Concurrency
pub mod Idempotency
pub mod Composition
pub mod Decision
mod Tests
