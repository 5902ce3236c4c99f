-- ===== src/Wire/Encode/Conditions.antt =====
-- The two packets of a conditional-scene cell: the cell, and the predicates that do not fit it.
use moergo_rmk.Prelude.{ℕ, ◌%◌, Bool, List, Option, none, some, bit_and, bit_or, to_u8}
use moergo_rmk.Prelude.Bits.{shl8}
use moergo_rmk.Wire.Rmk.{Foreign}
use moergo_rmk.Wire.Types.{
  RuntimeConditionalSceneCell, LayerCondition, BatteryCondition, OutputMode, ConnectionCondition,
  EffectsCondition, ActiveTransport, BleState, BondedSlotCondition,
}
use moergo_rmk.Wire.Buffer.{Buffer, put, put_u16, put_u32, slice, ◌▸◌}
use moergo_rmk.Wire.Message.{
  tag_conditional_scene_cell, conditional_scene_cell_len, tag_conditional_scene_ext,
  conditional_scene_ext_len,
}
use moergo_rmk.Wire.Encode.Codes.{
  header, effect_parts, charge_code, transport_code, ble_state_code, output_mode_code, or_max,
}

-- `layer & 0x3f | active << 6`, or 0x3f for no layer gate.
abbrev pub layer_gate : Option LayerCondition → ℕ
layer_gate none = 0x3f
layer_gate (some c) = bit_or (bit_and c.layer 0x3f) (shl8 (to_u8 c.active) 6)

-- The three bytes of a battery gate; no gate fills them with 0xff.
abbrev pub node_gate : Option BatteryCondition → ℕ
node_gate none = 255
node_gate (some c) = bit_or (bit_and c.node 0x3f) (shl8 (charge_code c.charge) 6)

abbrev pub min_gate : Option BatteryCondition → ℕ
min_gate none = 255
min_gate (some c) = or_max c.min_level

abbrev pub max_gate : Option BatteryCondition → ℕ
max_gate none = 255
max_gate (some c) = or_max c.max_level

abbrev pub put_battery_condition : Option BatteryCondition → Buffer → Buffer
put_battery_condition c out = out ▸ put 9 (node_gate c) ▸ put 10 (min_gate c) ▸ put 11 (max_gate c)

abbrev pub mode_gate : Option OutputMode → ℕ
mode_gate none = 255
mode_gate (some mode) = output_mode_code mode

unfoldable pub encode_conditional_scene_cell :
    {F : Foreign} → ℕ → ℕ → RuntimeConditionalSceneCell F → List ℕ
encode_conditional_scene_cell generation revision cell =
    let (kind, color, period_ms, phase_ms, auxiliary) = effect_parts cell.effect in
    slice
      (header tag_conditional_scene_cell
        ▸ put 2 generation
        ▸ put_u32 3 revision
        ▸ put 7 (bit_or (cell.slot % 256) (shl8 (bit_and kind 1) 7))
        ▸ put 8 (bit_or (layer_gate cell.conditions.layer) (shl8 (bit_and kind 2) 6))
        ▸ put_battery_condition cell.conditions.battery
        ▸ put 12 color.r
        ▸ put 13 color.g
        ▸ put 14 color.b
        ▸ put_u32 15 period_ms
        ▸ put_u32 19 phase_ms
        ▸ put_u16 23 auxiliary
        ▸ put 25 (mode_gate cell.conditions.output_mode))
      0 conditional_scene_cell_len

-- `connection.unwrap_or_default()`: every predicate of the default is absent.
abbrev pub connection_or_default : Option ConnectionCondition → ConnectionCondition
connection_or_default none = record {
  transport = none;
  profile = none;
  ble_state = none;
  bonded = none;
  usb_connected = none;
}
connection_or_default (some c) = c

abbrev pub transport_gate : Option ActiveTransport → ℕ → ℕ
transport_gate none gates = gates
transport_gate (some t) gates = bit_or gates (bit_or 0x80 (transport_code t))

abbrev pub ble_gate : Option BleState → ℕ → ℕ
ble_gate none gates = gates
ble_gate (some s) gates = bit_or gates (bit_or 0x40 (shl8 (ble_state_code s) 2))

abbrev pub effects_gate : Option EffectsCondition → ℕ → ℕ
effects_gate none gates = gates
effects_gate (some e) gates = bit_or gates (bit_or 0x20 (shl8 (to_u8 e.enabled) 4))

abbrev pub profile_gate : Option ℕ → ℕ
profile_gate none = 0
profile_gate (some profile) = bit_or 0x80 (bit_and profile 0x7f)

abbrev pub bonded_gate : Option BondedSlotCondition → ℕ
bonded_gate none = 0
bonded_gate (some b) = bit_or (bit_or 0x80 (shl8 (to_u8 b.bonded) 6)) (bit_and b.slot 0x3f)

abbrev pub usb_gate : Option Bool → ℕ
usb_gate none = 255
usb_gate (some c) = to_u8 c

unfoldable pub encode_conditional_scene_ext :
    ℕ → ℕ → Option ConnectionCondition → Option EffectsCondition → List ℕ
encode_conditional_scene_ext generation revision connection effects =
    let c = connection_or_default connection in
    slice
      (header tag_conditional_scene_ext
        ▸ put 2 generation
        ▸ put_u32 3 revision
        ▸ put 7 (effects_gate effects (ble_gate c.ble_state (transport_gate c.transport 0)))
        ▸ put 8 (profile_gate c.profile)
        ▸ put 9 (bonded_gate c.bonded)
        ▸ put 10 (usb_gate c.usb_connected))
      0 conditional_scene_ext_len
