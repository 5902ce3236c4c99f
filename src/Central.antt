-- ===== src/Central.antt =====
-- crates/moergo-rmk/src/central_lighting.rs: the loop of `CentralReplication`, by which the left half
-- keeps the right half's copy of the lighting state up to date, and what it records for the host.
pub mod State
pub mod Cache
pub mod Handlers
pub mod Offer
pub mod Loop
pub mod Invariant
pub mod Turns
pub mod Debt
pub mod Pace
pub mod Recover
pub mod Resend
mod Tests
pub mod Settle
pub mod Converge
pub mod Frames
pub mod Honest
pub mod Fetch
