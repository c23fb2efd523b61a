-- ===== src/Session.antt =====
-- internal/orchestrator/session.go: a persistent pool of extensions that calls are added to.
pub mod Pool
pub mod State
pub mod Calls
pub mod Effects
pub mod Booking
pub mod Reserve
pub mod Invariant
pub mod Reach
pub mod Guarantees
pub mod Amount
pub mod Drain
pub mod Preferred
pub mod Log
pub mod Views
