-- ===== src/Wire.antt =====
-- crates/moergo-rmk/src/split_lighting.rs: the messages of the split lighting protocol and
-- their byte form.
pub mod Rmk
pub mod Types
pub mod Message
pub mod Buffer
pub mod Encode
pub mod Decode
pub mod Fits
pub mod RoundTrip
pub mod Ranges
pub mod Errors
mod Tests
