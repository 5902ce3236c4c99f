-- ===== src/Peripheral.antt =====
-- crates/moergo-rmk/src/lighting.rs: `PeripheralReplication::process`, the peripheral's handling of
-- one packet. What it calls outside the protocol is an effect in a list.
pub mod Delivery
pub mod Snapshots
pub mod Effects
pub mod Loop
pub mod Session
pub mod Relay
pub mod Worker
pub mod Replies
mod LoopTests
mod Tests
use moergo_rmk.Prelude.{
  ℕ, Bool, true, false, List, [], ◌∷◌, ◌++◌, Option, none, some, ok, err, ltb, ◌==◌, if◌then◌else◌,
}
use moergo_rmk.Wire.Rmk.{Foreign, LayerOps, Sizes}
use moergo_rmk.Wire.Types.{ReplicatedContext, BatteryPair}
use moergo_rmk.Wire.Message.{Message}
use moergo_rmk.Wire.Decode.{decode}
use moergo_rmk.Replica.Tables.{Tables}
use moergo_rmk.Replica.Snapshot.{Snapshot}
use moergo_rmk.Replica.Stage.{Receiver, stage_note, apply}

-- What a packet makes the peripheral do. `publish` stands for the context, the batteries, the
-- replica slot and the apply request that a complete snapshot is handed to.
pub data Effect {F : Foreign} (T : Tables F) : Type 0 where
  jump_to_bootloader : Effect T
  record_hit : ℕ → Effect T
  try_send_attestation : ℕ → Effect T
  status_request : ℕ → Effect T
  -- request_id, offset
  frame_chunk_request : ℕ → ℕ → Effect T
  -- generation, revision, context, batteries
  update_context : ℕ → ℕ → ReplicatedContext → BatteryPair → Effect T
  -- generation, snapshot, batteries
  publish : ℕ → Snapshot T → BatteryPair → Effect T

-- `data.payload() == [BOOTLOADER_TAG]`
abbrev pub is_bootloader : ℕ → List ℕ → Bool
is_bootloader tag [] = false
is_bootloader tag (x ∷ []) = x == tag
is_bootloader tag (x ∷ (y ∷ rest)) = false

-- `LAST_APPLIED_REVISION.lock(Cell::get) == Some(revision)`
abbrev pub is_applied : Option ℕ → ℕ → Bool
is_applied none revision = false
is_applied (some r) revision = r == revision

module _ {F : Foreign} (z : Sizes) (T : Tables F) where
  -- `stage_note_pub`
  abbrev pub noted : ℕ → Receiver T → Receiver T
  noted shift rx = record rx { debug = stage_note shift rx.debug }

  abbrev pub published : Option (ℕ × Snapshot T × BatteryPair) → List (Effect T)
  published none = []
  published (some (generation, snapshot, batteries)) =
      Effect.publish generation snapshot batteries ∷ []

  -- The arms behind the decoder; `applied` is the last applied revision.
  unfoldable pub handle : Option ℕ → Message F → Receiver T → Receiver T × List (Effect T)
  handle applied (Message.effect_hit slot) rx =
      (rx, if ltb slot z.leds_per_half then Effect.record_hit slot ∷ [] else [])
  handle applied (Message.replica_probe generation) rx =
      (rx, Effect.try_send_attestation generation ∷ [])
  handle applied (Message.status_request id) rx = (rx, Effect.status_request id ∷ [])
  handle applied (Message.frame_chunk_request id offset) rx =
      (rx, Effect.frame_chunk_request id offset ∷ [])
  handle applied (Message.context_update g r c b) rx =
      (rx, if is_applied applied r then Effect.update_context g r c b ∷ [] else [])
  handle applied m rx = let (rx', out) = apply z T m rx in (rx', published out)

  module _ (ops : LayerOps F) (bootloader_tag : ℕ) (applied : Option ℕ) where
    -- `bytes` is the payload of the packet.
    unfoldable pub process : List ℕ → Receiver T → Receiver T × List (Effect T)
    process bytes rx =
        if is_bootloader bootloader_tag bytes
        then (noted 24 rx, Effect.jump_to_bootloader ∷ [])
        else elim (decode z ops bytes) [
          | err e ↦ (noted 16 (noted 24 rx), [])
          | ok m ↦ handle applied m (noted 24 rx)
        ]

    -- A sequence of packets, with all effects in order.
    unfoldable pub process_all : List (List ℕ) → Receiver T → Receiver T × List (Effect T)
    process_all [] rx = (rx, [])
    process_all (bytes ∷ packets) rx =
        let (rx', es) = process bytes rx in
        let (last, rest) = process_all packets rx' in (last, es ++ rest)
