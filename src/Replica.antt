-- ===== src/Replica.antt =====
-- crates/moergo-rmk/src/split_lighting.rs: the snapshot transaction that keeps the peripheral's
-- lighting state a replica of the central's.
pub mod Tables
pub mod Snapshot
pub mod Walk
pub mod Stage
pub mod Replicates
pub mod Transfer
pub mod Sender
pub mod Commit
pub mod Invariant
pub mod Digest
mod Tests
