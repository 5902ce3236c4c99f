-- ===== src/Wire/Encode/Codes.antt =====
-- The byte codes of enumerations and the helpers `indicators` and `put_battery`.
use moergo_rmk.Prelude.{ℕ, ◌+◌, Option, none, some, bit_or, to_u8}
use moergo_rmk.Prelude.Bits.{shl8}
use moergo_rmk.Wire.Types.{
  IndicatorState, BatteryStatus, ChargeState, OutputMode, LayerPolicy, BuiltinEffect, Rgb8,
  ChargeCondition, ActiveTransport, BleState,
}
use moergo_rmk.Wire.Buffer.{Buffer, put, zeros, ◌▸◌}
use moergo_rmk.Wire.Message.{version}

-- The buffer with its first two bytes written.
abbrev pub header : ℕ → Buffer
header tag = zeros ▸ put 0 version ▸ put 1 tag

abbrev pub indicators : IndicatorState → ℕ
indicators v =
    bit_or
      (bit_or
        (bit_or (bit_or (to_u8 v.num_lock) (shl8 (to_u8 v.caps_lock) 1))
          (shl8 (to_u8 v.scroll_lock) 2))
        (shl8 (to_u8 v.compose) 3))
      (shl8 (to_u8 v.kana) 4)

-- `level.unwrap_or(u8::MAX)`
abbrev pub or_max : Option ℕ → ℕ
or_max none = 255
or_max (some level) = level

-- `state` and `level` of `put_battery`.
abbrev pub battery_state : BatteryStatus → ℕ
battery_state BatteryStatus.unavailable = 0
battery_state (BatteryStatus.available ChargeState.charging level) = 1
battery_state (BatteryStatus.available ChargeState.discharging level) = 2
battery_state (BatteryStatus.available ChargeState.unknown level) = 3

abbrev pub battery_level : BatteryStatus → Option ℕ
battery_level BatteryStatus.unavailable = none
battery_level (BatteryStatus.available _ level) = level

abbrev pub put_battery : ℕ → BatteryStatus → Buffer → Buffer
put_battery at status out =
    out ▸ put at (battery_state status) ▸ put (at + 1) (or_max (battery_level status))

abbrev pub policy_code : LayerPolicy → ℕ
policy_code LayerPolicy.effective_only = 0
policy_code LayerPolicy.active_stack = 1

abbrev pub output_mode_code : OutputMode → ℕ
output_mode_code OutputMode.always_on = 0
output_mode_code OutputMode.always_off = 1
output_mode_code OutputMode.powered_only = 2

-- `kind`, `color`, `period_ms`, `phase_ms` and `auxiliary` of an effect.
abbrev pub effect_parts : BuiltinEffect → ℕ × Rgb8 × ℕ × ℕ × ℕ
effect_parts (BuiltinEffect.solid c) = (0, c, 0, 0, 0)
effect_parts (BuiltinEffect.blink c period phase duty) = (1, c, period, phase, duty)
effect_parts (BuiltinEffect.breathe c period phase step) = (2, c, period, phase, step)

abbrev pub charge_code : ChargeCondition → ℕ
charge_code ChargeCondition.any = 0
charge_code ChargeCondition.charging = 1
charge_code ChargeCondition.discharging = 2
charge_code ChargeCondition.unknown = 3

abbrev pub transport_code : ActiveTransport → ℕ
transport_code ActiveTransport.usb = 0
transport_code ActiveTransport.ble = 1
transport_code ActiveTransport.none_active = 2

abbrev pub ble_state_code : BleState → ℕ
ble_state_code BleState.advertising = 0
ble_state_code BleState.connected = 1
ble_state_code BleState.inactive = 2
