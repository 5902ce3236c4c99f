-- ===== src/Wire/RoundTrip/Snapshot.antt =====
-- The packets that open and close a snapshot transaction read back as they were written.
use moergo_rmk.Prelude.{ℕ, ◌≡◌, Bool, ok, arith, if◌then◌else◌, to_u8}
use moergo_rmk.Prelude.Bits.{has_bit}
use moergo_rmk.Wire.Rmk.{Foreign, LayerOps, Sizes}
use moergo_rmk.Wire.Types.{
  ReplicatedContext, BatteryPair, StandardMutableState, BackgroundMode, OutputMode, LayerPolicy,
}
use moergo_rmk.Wire.Message.{
  Message, tag_context, context_len, tag_context_update, context_update_len,
}
use moergo_rmk.Wire.Buffer.{u32_le_bytes, u64_le_bytes}
use moergo_rmk.Wire.Fits.{IsU32, IsU64, BatteryFits}
use moergo_rmk.Wire.Encode.Snapshot.{
  encode_begin, encode_wake_layers, encode_context, encode_commit, encode_conditional_scene_begin,
  with_breathe,
}
use moergo_rmk.Wire.Decode.{decode, decode_tag, decode_side_tag}
use moergo_rmk.Wire.Decode.Snapshot.{
  decode_begin, decode_wake_layers, decode_context, decode_commit, decode_conditional_scene_begin,
}
use moergo_rmk.Wire.RoundTrip.Fields.{
  flag-to_u8, get_policy-policy_code, get_output_mode-output_mode_code, get_indicators-indicators,
  get_status_lem,
}

-- The byte that packs the background's `enabled` and mode.
background_bits :
    (enabled : Bool) (mode : BackgroundMode)
    → let v = with_breathe mode (to_u8 enabled) in
      (has_bit v 0x7f ≡ enabled)
      × ((if has_bit v 0x80 then BackgroundMode.breathe else BackgroundMode.solid) ≡ mode)
background_bits enabled mode = ground arith

module _ {F : Foreign} (z : Sizes) (ops : LayerOps F) where
  pub decode-encode_begin :
      (g r cells scenes : ℕ) (policy : LayerPolicy) (time : ℕ) (m : StandardMutableState)
      (mode : OutputMode)
      → IsU32 r
      → IsU64 time
      → decode z ops (encode_begin g r cells scenes policy time m mode)
        ≡ ok (Message.begin g r cells scenes policy time m mode)
  unfolding decode decode_tag decode_begin encode_begin
  decode-encode_begin g r cells scenes policy time m mode hr ht =
      let (low, high, whole) = u64_le_bytes time ht in
      let (enabled, breathe) = background_bits m.background.enabled m.background.mode in
      rw (
        get_policy-policy_code policy,
        flag-to_u8 m.output_enabled,
        get_output_mode-output_mode_code mode,
        u32_le_bytes r hr,
        u32_le_bytes _ low,
        u32_le_bytes _ high,
        whole,
        enabled,
        breathe,
      )

  pub decode-encode_wake_layers :
      (g r w : ℕ)
      → IsU32 r
      → IsU64 w
      → decode z ops (encode_wake_layers g r w) ≡ ok (Message.wake_layers g r w)
  unfolding decode decode_tag decode_wake_layers encode_wake_layers
  decode-encode_wake_layers g r w hr hw =
      let (low, high, whole) = u64_le_bytes w hw in
      rw (u32_le_bytes r hr, u32_le_bytes _ low, u32_le_bytes _ high, whole)

  pub decode-encode_context :
      (g r : ℕ) (c : ReplicatedContext) (b : BatteryPair)
      → IsU32 r
      → BatteryFits b.left
      → BatteryFits b.right
      → (decode z ops (encode_context tag_context context_len g r c b)
          ≡ ok (Message.context g r c b))
        × (decode z ops (encode_context tag_context_update context_update_len g r c b)
            ≡ ok (Message.context_update g r c b))
  unfolding decode decode_tag decode_context encode_context
  decode-encode_context g r c b hr hl hb = (
    rw (
      flag-to_u8 c.powered,
      get_status_lem b.left hl,
      get_status_lem b.right hb,
      u32_le_bytes r hr,
      get_indicators-indicators c.indicators,
    ),
    rw (
      flag-to_u8 c.powered,
      get_status_lem b.left hl,
      get_status_lem b.right hb,
      u32_le_bytes r hr,
      get_indicators-indicators c.indicators,
    ),
  )

  pub decode-encode_conditional_scene_begin :
      (g r n : ℕ)
      → IsU32 r
      → decode z ops (encode_conditional_scene_begin g r n)
        ≡ ok (Message.conditional_scene_begin g r n)
  unfolding decode decode_tag decode_conditional_scene_begin encode_conditional_scene_begin
  decode-encode_conditional_scene_begin g r n hr = rw (u32_le_bytes r hr)

  pub decode-encode_commit :
      (g r cells scenes : ℕ)
      → IsU32 r
      → decode z ops (encode_commit g r cells scenes) ≡ ok (Message.commit g r cells scenes)
  unfolding decode decode_tag decode_side_tag decode_commit encode_commit
  decode-encode_commit g r cells scenes hr = rw (u32_le_bytes r hr)
