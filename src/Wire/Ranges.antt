-- ===== src/Wire/Ranges.antt =====
-- What the decoder of split_lighting.rs lets through, on any packet whatever.
use moergo_rmk.Prelude.{
  ℕ, ◌%◌, ◌≡◌, refl, Bool, true, false, List, [], ◌∷◌, Option, none, some, Result, ok, length,
  holds, arith, ◌==◌, ltb, leb, ◌&&◌, if◌then◌else◌,
}
use moergo_rmk.Wire.Rmk.{Foreign, LayerOps, Sizes, total_leds}
use moergo_rmk.Wire.Types.{BatteryStatus, ExtensionReplicaParams, BuiltinEffect, Rgb8}
use moergo_rmk.Wire.Buffer.{byte, get_u16, get_u32}
use moergo_rmk.Wire.Message.{Message}
use moergo_rmk.Wire.Decode.{decode, decode_tag, decode_side_tag}
use moergo_rmk.Wire.Decode.Fields.{get_status, get_effect, in_right_half, get_rgb}
use moergo_rmk.Wire.Decode.Snapshot.{
  decode_begin, decode_wake_layers, decode_context, decode_extension, decode_extension_overlay,
  decode_commit, decode_conditional_scene_begin,
}
use moergo_rmk.Wire.Decode.Cells.{decode_cell, decode_scene_cell}
use moergo_rmk.Wire.Decode.Conditions.{
  decode_conditional_scene_cell, decode_conditional_scene_ext, get_kind,
}
use moergo_rmk.Wire.Decode.Side.{
  decode_ack, decode_effect_hit, decode_attestation, decode_replica_probe, decode_status_request,
  decode_status_report, decode_frame_chunk_request, decode_frame_chunk, decode_transport_status,
  decode_debug_trace, decode_debug_panic_loc,
}

abbrev battery_in_range : BatteryStatus → Bool
battery_in_range BatteryStatus.unavailable = true
battery_in_range (BatteryStatus.available _ none) = true
battery_in_range (BatteryStatus.available _ (some v)) = leb v 100

-- The duty of a blink is a percentage.
abbrev duty_in_range : BuiltinEffect → Bool
duty_in_range (BuiltinEffect.solid c) = true
duty_in_range (BuiltinEffect.blink c period phase duty) = leb duty 100
duty_in_range (BuiltinEffect.breathe c period phase step) = true

module _ (z : Sizes) where
  abbrev block_in_range : Option ExtensionReplicaParams → Bool
  block_in_range none = true
  block_in_range (some p) = leb p.len z.param_chunk

  abbrev slot_in_range : ℕ → Bool
  slot_in_range slot = leb z.leds_per_half slot && ltb slot (total_leds z)

  -- The ranges that the handlers of a message rely on.
  abbrev pub in_range : {F : Foreign} → Message F → Bool
  in_range (Message.context g r c b) = battery_in_range b.left && battery_in_range b.right
  in_range (Message.context_update g r c b) = battery_in_range b.left && battery_in_range b.right
  in_range (Message.extension g r e p) = block_in_range p
  in_range (Message.extension_overlay g r o p) = block_in_range p
  in_range (Message.cell g r c) = slot_in_range c.slot && duty_in_range c.effect
  in_range (Message.scene_cell g r c) = slot_in_range c.slot && duty_in_range c.effect
  in_range (Message.conditional_scene_cell g r c) = slot_in_range c.slot && duty_in_range c.effect
  in_range (Message.effect_hit slot) = ltb slot (total_leds z)
  in_range (Message.frame_chunk id rev total start len c0 c1 c2 c3) = leb len 4
  in_range (Message.debug_panic_loc len text) = leb len 23 && length text == 23
  in_range _ = true

status_ranges : (a b : ℕ) → holds battery_in_range (get_status a b) ≡ true
unfolding get_status
status_ranges a b = ground arith

effect_ranges :
    (kind : ℕ) (c : Rgb8) (period phase auxiliary : ℕ)
    → holds duty_in_range (get_effect kind c period phase auxiliary) ≡ true
unfolding get_effect
effect_ranges kind c period phase auxiliary = ground arith

module _ {F : Foreign} (z : Sizes) (ops : LayerOps F) where
  begin_ranges : (bytes : List ℕ) → holds (in_range z {F = F}) (decode_begin bytes) ≡ true
  unfolding decode_begin
  begin_ranges bytes = ground arith

  context_ranges :
      (bytes : List ℕ)
      → (holds (in_range z {F = F}) (decode_context Message.context bytes) ≡ true)
        × (holds (in_range z {F = F}) (decode_context Message.context_update bytes) ≡ true)
  unfolding decode_context
  context_ranges bytes =
      let left = status_ranges (byte bytes 18) (byte bytes 19) in
      let right = status_ranges (byte bytes 20) (byte bytes 21) in (ground arith, ground arith)

  extension_ranges :
      (bytes : List ℕ)
      → (holds (in_range z {F = F}) (decode_extension z bytes) ≡ true)
        × (holds (in_range z {F = F}) (decode_extension_overlay z bytes) ≡ true)
  unfolding decode_extension decode_extension_overlay
  extension_ranges bytes = (ground arith, ground arith)

  cell_ranges :
      (bytes : List ℕ)
      → (holds (in_range z {F = F}) (decode_cell z bytes) ≡ true)
        × (holds (in_range z {F = F}) (decode_scene_cell z bytes) ≡ true)
        × (holds (in_range z {F = F}) (decode_conditional_scene_cell z bytes) ≡ true)
  unfolding decode_cell decode_scene_cell decode_conditional_scene_cell in_right_half
  cell_ranges bytes = (
    ground (
      arith,
      effect_ranges (byte bytes 8) (get_rgb bytes 9) (get_u32 bytes 12) (get_u32 bytes 16)
          (get_u16 bytes 20),
    ),
    ground (
      arith,
      effect_ranges (byte bytes 9) (get_rgb bytes 10) (get_u32 bytes 13) (get_u32 bytes 17)
          (get_u16 bytes 21),
    ),
    ground (
      arith,
      effect_ranges (get_kind (byte bytes 7) (byte bytes 8)) (get_rgb bytes 12) (get_u32 bytes 15)
          (get_u32 bytes 19) (get_u16 bytes 23),
    ),
  )

  side_ranges :
      (bytes : List ℕ)
      → (holds (in_range z {F = F}) (decode_conditional_scene_ext bytes) ≡ true)
        × (holds (in_range z {F = F}) (decode_status_report ops bytes) ≡ true)
        × (holds (in_range z {F = F}) (decode_frame_chunk bytes) ≡ true)
        × (holds (in_range z {F = F}) (decode_transport_status bytes) ≡ true)
        × (holds (in_range z {F = F}) (decode_debug_panic_loc bytes) ≡ true)
  unfolding decode_conditional_scene_ext decode_status_report decode_frame_chunk
      decode_transport_status decode_debug_panic_loc
  side_ranges bytes = (ground arith, ground arith, ground arith, ground arith, ground arith)

-- A ladder of arms passes a test when each arm does.
holds-if {ℓ} :
    {E A : Type ℓ} (p : A → Bool) (b : Bool) (x y : Result E A)
    → holds p (if b then x else y) ≡ (if b then holds p x else holds p y)
holds-if p true x y = refl
holds-if p false x y = refl

if_same : (b : Bool) → (if b then true else true) ≡ true
if_same true = refl
if_same false = refl

module _ {F : Foreign} (z : Sizes) (ops : LayerOps F) (tag : ℕ) (bytes : List ℕ) where
  abbrev R : Message F → Bool
  R = in_range z

  -- The guard of an effect hit compares with `TOTAL_LEDS as u8`.
  hit_arm :
      (b : Bool)
      → (if b && ltb (byte bytes 2) (total_leds z % 256)
          then holds R (decode_effect_hit bytes)
          else true)
        ≡ true
  unfolding decode_effect_hit
  hit_arm true = ground arith
  hit_arm false = refl

  side_tag_ranges : holds R (decode_side_tag z ops tag bytes) ≡ true
  unfolding decode_side_tag decode_commit decode_ack decode_attestation decode_replica_probe
      decode_status_request decode_frame_chunk_request decode_debug_trace
  side_tag_ranges =
      let (ext, status, chunk, transport, panic) = side_ranges {F = F} z ops bytes in
      simp (holds-if, if_same, hit_arm, status, chunk, transport, panic)

  tag_ranges : holds R (decode_tag z ops tag bytes) ≡ true
  unfolding decode_tag decode_wake_layers decode_conditional_scene_begin
  tag_ranges =
      let (ext, status, chunk, transport, panic) = side_ranges {F = F} z ops bytes in
      let (cell, scene, conditional) = cell_ranges {F = F} z ops bytes in
      let (context, update) = context_ranges {F = F} z ops bytes in
      let (extension, overlay) = extension_ranges {F = F} z ops bytes in
      simp (
        holds-if,
        if_same,
        begin_ranges {F = F} z ops bytes,
        context,
        update,
        extension,
        overlay,
        cell,
        scene,
        conditional,
        ext,
        side_tag_ranges,
      )

module _ {F : Foreign} (z : Sizes) (ops : LayerOps F) where
  decode_ranges : (bytes : List ℕ) → holds (in_range z {F = F}) (decode z ops bytes) ≡ true
  unfolding decode
  decode_ranges [] = refl
  decode_ranges (first ∷ []) = ground arith
  decode_ranges (first ∷ (tag ∷ rest)) = ground (arith, tag_ranges z ops tag (first ∷ (tag ∷ rest)))

  -- Whatever packet arrives, a decoded message is in range: its slots lie in the right half (a hit
  -- within the board), duties and battery levels are percentages, a parameter block fits the chunk,
  -- a frame chunk holds at most four cells, a panic text has 23 bytes of which at most 23 count.
  pub decode-in_range :
      (bytes : List ℕ) (m : Message F) → decode z ops bytes ≡ ok m → in_range z m ≡ true
  decode-in_range bytes m h = rw h at (decode_ranges bytes)
