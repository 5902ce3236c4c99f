-- ===== src/Pointing.antt =====
-- crates/moergo-config/src/config.rs: the pointing devices of a configuration file, and the form in
-- which the keyboard takes them.
pub mod Modes
pub mod Wire
pub mod Slots
pub mod Checks
pub mod RoundTrip
mod Tests
