-- ===== src/Lib.antt =====
-- Verification of moergo-rmk. Its core is the split lighting protocol: the messages by which
-- the central half of a keyboard replicates its lighting state to the peripheral half over a
-- lossy link, what each side does with them, and the loop of the central that resends until the
-- other half has answered. Beside it stand the last step of the lighting, the firmware images,
-- and the pointing part of the host's configuration.
--
-- The protocol follows crates/moergo-rmk/src/split_lighting.rs,
-- crates/moergo-rmk/src/central_lighting.rs, the peripheral's part of
-- crates/moergo-rmk/src/lighting.rs, and the clear key of crates/moergo-rmk/src/remote_boot.rs:
--
-- - Wire: `Message` and its byte form. Wire/Types has the values that a message carries,
-- Wire/Message the variants, the tags and the lengths, Wire/Encode `Message::encode` (`packet`,
-- a child module for each group of arms), Wire/Decode `Message::decode` with its helpers.
-- Wire/Fits says which values a packet can carry, Wire/RoundTrip, Wire/Ranges and Wire/Errors
-- hold the theorems.
--
-- - Replica: the snapshot transaction. Replica/Tables is the interface of the containers that a
-- snapshot holds, Replica/Snapshot the replicated state, Replica/Walk the sender
-- (`walk_snapshot`, `try_queue_snapshot`), Replica/Stage the receiver (`SnapshotStage::apply`,
-- one function for each arm, beside the counters of `STAGE_DEBUG`), Replica/Digest the digests
-- of an attestation (`replica_digests`). Replica/Replicates says what it means that one
-- snapshot replicates another; Replica/Transfer, Replica/Sender, Replica/Invariant,
-- Replica/Commit and Replica/Digest/Agreement, Replica/Digest/Durable and Replica/Digest/Sense
-- hold the theorems.
--
-- - Peripheral: `PeripheralReplication` of lighting.rs. `process` leads from the bytes of a
-- packet to its effects; Peripheral/Loop is the run loop, one function for each arm of its
-- select, with `try_send_diagnostic` and what it sends, and Peripheral/Worker is
-- `PeripheralLightingWorker`, which answers when the engine has applied a replica.
-- Peripheral/Delivery and Peripheral/Snapshots hold the theorems on snapshots,
-- Peripheral/Effects, Peripheral/Session, Peripheral/Relay and Peripheral/Replies those on the
-- loop.
--
-- - Replies: `AttestationRecovery` and `FramePageAssembly`, with which the central reads what
-- the peripheral answers.
--
-- - Central: `CentralReplication` and `RemoteFrameBridge` of central_lighting.rs. Central/State
-- is the state of the loop, Central/Cache the statics that it publishes, Central/Offer the head
-- of an iteration (what is offered to the queue, and when), Central/Handlers one function for
-- each kind of event, Central/Loop the iteration (`turn`) and its repetition (`turns`),
-- Central/Frames the reading of a page of the peripheral's frame. The theorems stand in
-- Central/Invariant and Central/Turns (the invariant of the loop), Central/Debt (transfers that
-- are owed), Central/Pace (the back-off), Central/Recover (the deadline of a transfer),
-- Central/Resend (lost transfers), Central/Settle, Central/Honest and Central/Converge
-- (transfers that arrive, with the peripheral's `process` at the other end), and Central/Fetch
-- with Central/Fetch/Ends (the pages).
--
-- - MagicKeys: `BleClearChord`, the key chord that clears Bluetooth profiles.
--
-- Other parts of the repository:
--
-- - Output: crates/moergo-rmk/src/lighting_output.rs, from a frame to the bytes of the LED
-- chain: the decoding of sRGB, the limit of a channel, and the power of the chain.
--
-- - Uf2: the images of crates/xtask/src/main.rs. Uf2/Elf is `load_elf_segments`, Uf2/Encode
-- `encode_uf2` and Uf2/Inspect `inspect_uf2`, on the bytes of a file; Uf2/Order, Uf2/Image,
-- Uf2/Blocks, Uf2/Loop and Uf2/RoundTrip hold the theorems.
--
-- - Pointing: `PointingConfig` of crates/moergo-config/src/config.rs. Pointing/Modes is the
-- configuration of a mode, Pointing/Wire the exchange with the form that the keyboard takes,
-- Pointing/Slots, Pointing/Checks and Pointing/RoundTrip hold the theorems.
--
-- - Prelude has the shared helpers, Fixtures concrete instances for the tests, which stand in
-- the modules named Tests.
--
-- Numbers are natural numbers; a cast `as u8` is written `% 256`, a saturating addition with
-- its bound, and each integer field that a packet cannot hold in full is bounded in Wire/Fits.
-- A packet buffer is a function from indices to bytes. Time is in milliseconds. One iteration
-- of the central's loop is the offer at its head and one event, with the readings of the clock
-- as arguments; the order in which events become ready is any sequence of them. The loops of
-- the source run over a list or a range and need no fuel, but for the fetch of a page, whose
-- fuel is one more than the largest number of chunks in a page: each round either ends it or
-- stores a chunk. A record's mutation in place is a function to the new state; the static
-- counters are a field of the receiver.
--
-- Parameters of the model: the types of the rmk crate that the protocol only passes on
-- (Wire/Rmk), its containers with the laws that replication relies on (`TableLaws`), the
-- outbound queue (`ChannelLaws`), and the sizes of a board (`Sizes`). The crate that reads ELF
-- files, the key codes and the accessors of the pointing wire form are parameters too. Not
-- modelled: the futures and tasks of embassy that drive the loops, the lighting engine and its
-- output tasks in crates/moergo-rmk/src/lighting.rs, the stored preferences and the panic
-- store, the rest of the host's configuration (layers, key codes, behaviours, scenes), the
-- command line tools, the build tasks, and the board glue.
pub mod Central
pub mod Fixtures
pub mod MagicKeys
pub mod Output
pub mod Peripheral
pub mod Pointing
pub mod Prelude
pub mod Replica
pub mod Replies
pub mod Uf2
pub mod Wire
