-- ===== src/Wire/RoundTrip/Cells.antt =====
-- Overlay cells and scene cells read back as they were written.
use moergo_rmk.Prelude.{ℕ, ◌%◌, ◌≤◌, ◌<◌, ◌≡◌, Option, none, some, ok, arith}
use moergo_rmk.Wire.Rmk.{Foreign, LayerOps, Sizes}
use moergo_rmk.Wire.Types.{OverlayCell, SceneTableCell}
use moergo_rmk.Wire.Message.{Message}
use moergo_rmk.Wire.Buffer.{u16_le_bytes, u32_le_bytes}
use moergo_rmk.Wire.Fits.{IsU32, OnSome, SlotFits, EffectFits, TtlFits}
use moergo_rmk.Wire.Encode.Cells.{or_zero, encode_cell, encode_scene_cell}
use moergo_rmk.Wire.Decode.{decode, decode_tag}
use moergo_rmk.Wire.Decode.Cells.{decode_cell, decode_scene_cell}
use moergo_rmk.Wire.RoundTrip.Fields.{
  in_right_half_of_fits, get_effect_lem, effect_parts_fit, non_zero-or_zero,
}

ttl_parts : (o : Option ℕ) → TtlFits o → OnSome (λ v. 0 < v) o × IsU32 (or_zero o)
ttl_parts none h = (tt, omega arith)
ttl_parts (some v) h = h

pub slot_in_byte :
    (z : Sizes) → z.leds_per_half ≤ 64 → (slot : ℕ) → SlotFits z slot → slot % 256 ≡ slot
slot_in_byte z small slot h = omega arith

module _ {F : Foreign} (z : Sizes) (ops : LayerOps F) (small : z.leds_per_half ≤ 64) where
  pub decode-encode_cell :
      (g r : ℕ) (c : OverlayCell)
      → IsU32 r
      → SlotFits z c.slot
      → EffectFits c.effect
      → TtlFits c.ttl_ms
      → decode z ops (encode_cell g r c) ≡ ok (Message.cell g r c)
  unfolding decode decode_tag decode_cell encode_cell
  decode-encode_cell g r c hr hs he ht =
      let (period, phase, auxiliary) = effect_parts_fit c.effect he in
      let (positive, ttl) = ttl_parts c.ttl_ms ht in
      rw (
        slot_in_byte z small c.slot hs,
        in_right_half_of_fits z c.slot hs,
        u32_le_bytes _ period,
        u32_le_bytes _ phase,
        u16_le_bytes _ auxiliary,
        get_effect_lem c.effect he,
        u32_le_bytes r hr,
        u32_le_bytes _ ttl,
        non_zero-or_zero c.ttl_ms positive,
      )

  pub decode-encode_scene_cell :
      (g r : ℕ) (c : SceneTableCell)
      → IsU32 r
      → SlotFits z c.slot
      → EffectFits c.effect
      → decode z ops (encode_scene_cell g r c) ≡ ok (Message.scene_cell g r c)
  unfolding decode decode_tag decode_scene_cell encode_scene_cell
  decode-encode_scene_cell g r c hr hs he =
      let (period, phase, auxiliary) = effect_parts_fit c.effect he in
      rw (
        slot_in_byte z small c.slot hs,
        in_right_half_of_fits z c.slot hs,
        u32_le_bytes _ period,
        u32_le_bytes _ phase,
        u16_le_bytes _ auxiliary,
        get_effect_lem c.effect he,
        u32_le_bytes r hr,
      )
