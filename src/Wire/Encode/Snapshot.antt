-- ===== src/Wire/Encode/Snapshot.antt =====
-- The packets that open and close a snapshot transaction.
use moergo_rmk.Prelude.{ℕ, ◌+◌, ◌%◌, List, Option, none, some, bit_or, to_u8, length}
use moergo_rmk.Wire.Rmk.{Sizes}
use moergo_rmk.Wire.Types.{
  ReplicatedContext, BatteryPair, StandardMutableState, BackgroundMode, OutputMode, LayerPolicy,
  ExtensionState, ExtensionReplicaParams,
}
use moergo_rmk.Wire.Buffer.{Buffer, put, put_u32, put_u64, put_bytes, slice, ◌▸◌}
use moergo_rmk.Wire.Message.{
  tag_begin, begin_len, tag_wake_layers, wake_layers_len, tag_extension, extension_len,
  tag_extension_overlay, extension_overlay_len, tag_commit, commit_len, tag_conditional_scene_begin,
  conditional_scene_begin_len,
}
use moergo_rmk.Wire.Encode.Codes.{header, indicators, put_battery, policy_code, output_mode_code}

-- `if mode == Breathe { out[18] |= 0x80 }`
abbrev pub with_breathe : BackgroundMode → ℕ → ℕ
with_breathe BackgroundMode.solid v = v
with_breathe BackgroundMode.breathe v = bit_or v 0x80

abbrev pub mark_breathe : BackgroundMode → Buffer → Buffer
mark_breathe mode out = put 18 (with_breathe mode (out 18)) out

unfoldable pub encode_begin :
    ℕ → ℕ → ℕ → ℕ → LayerPolicy → ℕ → StandardMutableState → OutputMode → List ℕ
encode_begin generation revision cell_count scene_count scene_policy sample_time_ms m output_mode =
    slice
      (header tag_begin
        ▸ put 2 generation
        ▸ put_u32 3 revision
        ▸ put 7 cell_count
        ▸ put_u64 8 sample_time_ms
        ▸ put 16 (to_u8 m.output_enabled)
        ▸ put 17 m.output_brightness
        ▸ put 18 (to_u8 m.background.enabled)
        ▸ put 19 m.background.hue
        ▸ put 20 m.background.saturation
        ▸ put 21 m.background.value
        ▸ put 22 m.background.speed
        ▸ mark_breathe m.background.mode
        ▸ put 23 scene_count
        ▸ put 24 (policy_code scene_policy)
        ▸ put 25 (output_mode_code output_mode))
      0 begin_len

unfoldable pub encode_wake_layers : ℕ → ℕ → ℕ → List ℕ
encode_wake_layers generation revision wake_layers =
    slice (header tag_wake_layers ▸ put 2 generation ▸ put_u32 3 revision ▸ put_u64 7 wake_layers) 0
      wake_layers_len

-- The arms of `Context` and `ContextUpdate` differ in tag and length.
unfoldable pub encode_context : ℕ → ℕ → ℕ → ℕ → ReplicatedContext → BatteryPair → List ℕ
encode_context tag len generation revision context batteries =
    slice
      (header tag
        ▸ put 2 generation
        ▸ put_u32 3 revision
        ▸ put 17 (indicators context.indicators)
        ▸ put_battery 18 batteries.left
        ▸ put_battery 20 batteries.right
        ▸ put 22 (to_u8 context.powered)
        ▸ put 23 context.bonded_slots)
      0 len

abbrev pub put_extension : Option ExtensionState → Buffer → Buffer
put_extension none out = out
put_extension (some e) out =
    out ▸ put 7 1 ▸ put 8 e.effect ▸ put 9 e.palette ▸ put 10 e.value ▸ put 11 e.speed

-- `if let Some(params) = params`: the length, the effect and the values, from index `at`.
abbrev pub put_params :
    (ExtensionReplicaParams → List ℕ) → ℕ → Option ExtensionReplicaParams → Buffer → Buffer
put_params values at none out = out
put_params values at (some p) out =
    out ▸ put at (length (values p) % 256) ▸ put (at + 1) p.effect ▸ put_bytes (at + 2) (values p)

abbrev pub put_overlay : Option ℕ → Buffer → Buffer
put_overlay none out = out
put_overlay (some effect) out = out ▸ put 7 1 ▸ put 8 effect

module _ (z : Sizes) (values : ExtensionReplicaParams → List ℕ) where
  unfoldable pub encode_extension :
      ℕ → ℕ → Option ExtensionState → Option ExtensionReplicaParams → List ℕ
  encode_extension generation revision extension params =
      slice
        (header tag_extension
          ▸ put 2 generation
          ▸ put_u32 3 revision
          ▸ put_extension extension
          ▸ put_params values 12 params)
        0 (extension_len z)

  unfoldable pub encode_extension_overlay :
      ℕ → ℕ → Option ℕ → Option ExtensionReplicaParams → List ℕ
  encode_extension_overlay generation revision overlay params =
      slice
        (header tag_extension_overlay
          ▸ put 2 generation
          ▸ put_u32 3 revision
          ▸ put_overlay overlay
          ▸ put_params values 9 params)
        0 (extension_overlay_len z)

unfoldable pub encode_conditional_scene_begin : ℕ → ℕ → ℕ → List ℕ
encode_conditional_scene_begin generation revision cell_count =
    slice
      (header tag_conditional_scene_begin
        ▸ put 2 generation
        ▸ put_u32 3 revision
        ▸ put 7 cell_count)
      0 conditional_scene_begin_len

unfoldable pub encode_commit : ℕ → ℕ → ℕ → ℕ → List ℕ
encode_commit generation revision cell_count scene_count =
    slice
      (header tag_commit
        ▸ put 2 generation
        ▸ put_u32 3 revision
        ▸ put 7 cell_count
        ▸ put 8 scene_count)
      0 commit_len
