-- ===== src/Wire/Decode/Conditions.antt =====
-- The two packets of a conditional-scene cell.
use moergo_rmk.Prelude.{
  ℕ, not, Bool, true, false, ◌||◌, List, Option, none, some, Result, ok, err, ◌==◌, if◌then◌else◌,
  ◌>>=◌, bit_and, bit_or,
}
use moergo_rmk.Prelude.Bits.{shl8, shr, has_bit}
use moergo_rmk.Wire.Rmk.{Foreign, Sizes}
use moergo_rmk.Wire.Types.{
  LayerCondition, BatteryCondition, ChargeCondition, OutputMode, ConnectionCondition,
  EffectsCondition, ActiveTransport, BleState, BondedSlotCondition,
}
use moergo_rmk.Wire.Buffer.{byte, get_u16, get_u32}
use moergo_rmk.Wire.Message.{Message, DecodeError, value_error}
use moergo_rmk.Wire.Decode.Fields.{get_effect, get_rgb, in_right_half, get_output_mode}
use moergo_rmk.Wire.Encode.Side.{is_some}

unfoldable pub get_layer_gate : ℕ → Option LayerCondition
get_layer_gate v =
    if bit_and v 0x3f == 0x3f
    then none
    else some (record { layer = bit_and v 0x3f; active = has_bit v 0x40 })

-- `v >> 6` of a byte has these four values.
abbrev pub get_charge : ℕ → Result DecodeError ChargeCondition
get_charge v =
    if v == 0
    then ok ChargeCondition.any
    else if v == 1
    then ok ChargeCondition.charging
    else if v == 2
    then ok ChargeCondition.discharging
    else if v == 3
    then ok ChargeCondition.unknown
    else err value_error

-- `(v != u8::MAX).then_some(v)`
abbrev pub unless_max : ℕ → Option ℕ
unless_max v = if v == 255 then none else some v

unfoldable pub get_battery_condition : ℕ → ℕ → ℕ → Result DecodeError (Option BatteryCondition)
get_battery_condition node min_level max_level = if node == 255 then ok none else do
  charge ← get_charge (shr node 6)
  ok (
      some (record {
        node = bit_and node 0x3f;
        min_level = unless_max min_level;
        max_level = unless_max max_level;
        charge = charge;
      }))

unfoldable pub get_mode_gate : ℕ → Result DecodeError (Option OutputMode)
unfolding get_output_mode
get_mode_gate v = if v == 255 then ok none else do mode ← get_output_mode v; ok (some mode)

-- `bytes[7] >> 7 | (bytes[8] >> 7) << 1`
unfoldable pub get_kind : ℕ → ℕ → ℕ
get_kind low high = bit_or (shr low 7) (shl8 (shr high 7) 1)

module _ (z : Sizes) where
  unfoldable pub decode_conditional_scene_cell :
      {F : Foreign} → List ℕ → Result DecodeError (Message F)
  decode_conditional_scene_cell bytes =
      let slot = bit_and (byte bytes 7) 0x7f in
      if not (in_right_half z slot) then err value_error else do
        battery ← get_battery_condition (byte bytes 9) (byte bytes 10) (byte bytes 11)
        effect ←
            get_effect (get_kind (byte bytes 7) (byte bytes 8)) (get_rgb bytes 12)
              (get_u32 bytes 15) (get_u32 bytes 19) (get_u16 bytes 23)
        output_mode ← get_mode_gate (byte bytes 25)
        ok (
            Message.conditional_scene_cell (byte bytes 2) (get_u32 bytes 3) (record {
              conditions = record {
                layer = get_layer_gate (byte bytes 8);
                battery = battery;
                layers = none;
                indicators = none;
                maintenance = none;
                split_transport = none;
                output_mode = output_mode;
                connection = none;
                effects = none;
              };
              slot = slot;
              effect = effect;
            }))

unfoldable pub get_transport : ℕ → Result DecodeError (Option ActiveTransport)
get_transport gates =
    if has_bit gates 0x80
    then if bit_and gates 0x03 == 0
      then ok (some ActiveTransport.usb)
      else if bit_and gates 0x03 == 1
      then ok (some ActiveTransport.ble)
      else if bit_and gates 0x03 == 2
      then ok (some ActiveTransport.none_active)
      else err value_error
    else ok none

unfoldable pub get_ble_state : ℕ → Result DecodeError (Option BleState)
get_ble_state gates =
    if has_bit gates 0x40
    then if bit_and (shr gates 2) 0x03 == 0
      then ok (some BleState.advertising)
      else if bit_and (shr gates 2) 0x03 == 1
      then ok (some BleState.connected)
      else if bit_and (shr gates 2) 0x03 == 2
      then ok (some BleState.inactive)
      else err value_error
    else ok none

unfoldable pub get_profile : ℕ → Option ℕ
get_profile v = if has_bit v 0x80 then some (bit_and v 0x7f) else none

unfoldable pub get_bonded : ℕ → Option BondedSlotCondition
get_bonded v =
    if has_bit v 0x80
    then some (record { slot = bit_and v 0x3f; bonded = has_bit v 0x40 })
    else none

unfoldable pub get_usb : ℕ → Result DecodeError (Option Bool)
get_usb v =
    if v == 0
    then ok (some false)
    else if v == 1
    then ok (some true)
    else if v == 255
    then ok none
    else err value_error

-- A condition with no predicate is no condition.
unfoldable pub connection_of : ConnectionCondition → Option ConnectionCondition
connection_of c =
    if is_some c.transport
      || is_some c.profile
      || is_some c.ble_state
      || is_some c.bonded
      || is_some c.usb_connected
    then some c
    else none

unfoldable pub get_effects_gate : ℕ → Option EffectsCondition
get_effects_gate gates =
    if has_bit gates 0x20 then some (record { enabled = has_bit gates 0x10 }) else none

unfoldable pub decode_conditional_scene_ext :
    {F : Foreign} → List ℕ → Result DecodeError (Message F)
decode_conditional_scene_ext bytes = do
  transport ← get_transport (byte bytes 7)
  ble_state ← get_ble_state (byte bytes 7)
  usb_connected ← get_usb (byte bytes 10)
  ok (
      Message.conditional_scene_ext (byte bytes 2) (get_u32 bytes 3)
        (connection_of (record {
          transport = transport;
          profile = get_profile (byte bytes 8);
          ble_state = ble_state;
          bonded = get_bonded (byte bytes 9);
          usb_connected = usb_connected;
        }))
        (get_effects_gate (byte bytes 7)))
