-- ===== src/Wire/RoundTrip/Conditions.antt =====
-- The two packets of a conditional-scene cell read back as they were written.
use moergo_rmk.Prelude.{ℕ, ◌≤◌, ◌<◌, ◌≡◌, Option, none, some, ok, arith}
use moergo_rmk.Wire.Rmk.{Foreign, LayerOps, Sizes}
use moergo_rmk.Wire.Types.{RuntimeConditionalSceneCell, ConnectionCondition, EffectsCondition}
use moergo_rmk.Wire.Message.{Message}
use moergo_rmk.Wire.Buffer.{u16_le_bytes, u32_le_bytes}
use moergo_rmk.Wire.Fits.{
  IsU32, OnSome, SlotFits, EffectFits, LayerFits, BatteryConditionFits, ConnectionFits, BondedFits,
  cell_part,
}
use moergo_rmk.Wire.Encode.Conditions.{
  encode_conditional_scene_cell, encode_conditional_scene_ext, connection_or_default,
}
use moergo_rmk.Wire.Decode.{decode, decode_tag}
use moergo_rmk.Wire.Decode.Conditions.{decode_conditional_scene_cell, decode_conditional_scene_ext}
use moergo_rmk.Wire.RoundTrip.Fields.{in_right_half_of_fits, get_effect_lem, effect_parts_fit}
use moergo_rmk.Wire.RoundTrip.Gates.{
  slot_byte_lem, get_layer_gate_lem, get_kind_lem, get_battery_condition_lem,
  get_mode_gate-mode_gate, gates_byte_lem, get_profile-profile_gate, get_bonded-bonded_gate,
  get_usb-usb_gate, connection_of_lem,
}
use moergo_rmk.Wire.RoundTrip.Cells.{slot_in_byte}

connection_parts :
    (o : Option ConnectionCondition)
    → ConnectionFits o
    → OnSome (λ v. v < 128) (connection_or_default o).profile
      × BondedFits (connection_or_default o).bonded
connection_parts none h = (tt, tt)
connection_parts (some c) h = (h.0, h.1)

module _ {F : Foreign} (z : Sizes) (ops : LayerOps F) (small : z.leds_per_half ≤ 64) where
  pub decode-encode_conditional_scene_cell :
      (g r : ℕ) (c : RuntimeConditionalSceneCell F)
      → IsU32 r
      → SlotFits z c.slot
      → EffectFits c.effect
      → LayerFits c.conditions.layer
      → BatteryConditionFits c.conditions.battery
      → decode z ops (encode_conditional_scene_cell g r c)
        ≡ ok (Message.conditional_scene_cell g r (cell_part c))
  unfolding decode decode_tag decode_conditional_scene_cell encode_conditional_scene_cell
  decode-encode_conditional_scene_cell g r c hr hs he hl hb =
      let (period, phase, auxiliary) = effect_parts_fit c.effect he in
      let in_bits : c.slot < 128 = omega arith in
      rw (
        slot_in_byte z small c.slot hs,
        (slot_byte_lem c.effect c.slot in_bits).0,
        in_right_half_of_fits z c.slot hs,
        get_battery_condition_lem c.conditions.battery hb,
        get_kind_lem c.effect c.slot c.conditions.layer in_bits hl,
        u32_le_bytes _ period,
        u32_le_bytes _ phase,
        u16_le_bytes _ auxiliary,
        get_effect_lem c.effect he,
        get_mode_gate-mode_gate c.conditions.output_mode,
        u32_le_bytes r hr,
        get_layer_gate_lem c.effect c.conditions.layer hl,
      )

  pub decode-encode_conditional_scene_ext :
      (g r : ℕ) (c : Option ConnectionCondition) (e : Option EffectsCondition)
      → IsU32 r
      → ConnectionFits c
      → decode z ops (encode_conditional_scene_ext g r c e)
        ≡ ok (Message.conditional_scene_ext g r c e)
  unfolding decode decode_tag decode_conditional_scene_ext encode_conditional_scene_ext
  decode-encode_conditional_scene_ext g r c e hr hc =
      let d = connection_or_default c in
      let (transport, ble_state, effects) = gates_byte_lem d.transport d.ble_state e in
      let (profile, bonded) = connection_parts c hc in
      rw (
        transport,
        ble_state,
        get_usb-usb_gate d.usb_connected,
        u32_le_bytes r hr,
        get_profile-profile_gate d.profile profile,
        get_bonded-bonded_gate d.bonded bonded,
        connection_of_lem c hc,
        effects,
      )
