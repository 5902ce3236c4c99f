-- ===== src/Replies.antt =====
-- crates/moergo-rmk/src/split_lighting.rs: what the central does with the peripheral's replies.
pub mod Attestation
pub mod FramePage
pub mod Pages
mod Tests
