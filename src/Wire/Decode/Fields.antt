-- ===== src/Wire/Decode/Fields.antt =====
-- Readers of single fields: `flag`, `get_indicators`, `get_battery`, and the codes of enumerations.
use moergo_rmk.Prelude.{
  ℕ, ◌+◌, Bool, true, false, ◌&&◌, List, Option, none, some, Result, ok, err, ltb, leb, ◌==◌,
  if◌then◌else◌, ◌>>=◌,
}
use moergo_rmk.Prelude.Bits.{has_bit}
use moergo_rmk.Wire.Rmk.{Sizes, total_leds}
use moergo_rmk.Wire.Types.{
  IndicatorState, BatteryStatus, ChargeState, OutputMode, LayerPolicy, BuiltinEffect, Rgb8,
}
use moergo_rmk.Wire.Buffer.{byte}
use moergo_rmk.Wire.Message.{DecodeError, value_error}

unfoldable pub flag : ℕ → Result DecodeError Bool
flag v = if v == 0 then ok false else if v == 1 then ok true else err value_error

unfoldable pub get_indicators : ℕ → IndicatorState
get_indicators v = record {
  num_lock = has_bit v 1;
  caps_lock = has_bit v 2;
  scroll_lock = has_bit v 4;
  compose = has_bit v 8;
  kana = has_bit v 16;
}

abbrev pub get_level : ℕ → Result DecodeError (Option ℕ)
get_level v = if v == 255 then ok none else if leb v 100 then ok (some v) else err value_error

abbrev pub is_none {ℓ} : {A : Type ℓ} → Option A → Bool
is_none none = true
is_none (some _) = false

abbrev pub battery_of : ℕ → Option ℕ → Result DecodeError BatteryStatus
battery_of state level =
    if state == 0 && is_none level
    then ok BatteryStatus.unavailable
    else if state == 1
    then ok (BatteryStatus.available ChargeState.charging level)
    else if state == 2
    then ok (BatteryStatus.available ChargeState.discharging level)
    else if state == 3
    then ok (BatteryStatus.available ChargeState.unknown level)
    else err value_error

-- The two bytes that `get_battery` reads, `bytes[at]` and `bytes[at + 1]`.
unfoldable pub get_status : ℕ → ℕ → Result DecodeError BatteryStatus
get_status state level_byte = do level ← get_level level_byte; battery_of state level

abbrev pub get_battery : List ℕ → ℕ → Result DecodeError BatteryStatus
get_battery bytes at = get_status (byte bytes at) (byte bytes (at + 1))

unfoldable pub get_policy : ℕ → Result DecodeError LayerPolicy
get_policy v =
    if v == 0
    then ok LayerPolicy.effective_only
    else if v == 1
    then ok LayerPolicy.active_stack
    else err value_error

unfoldable pub get_output_mode : ℕ → Result DecodeError OutputMode
get_output_mode v =
    if v == 0
    then ok OutputMode.always_on
    else if v == 1
    then ok OutputMode.always_off
    else if v == 2
    then ok OutputMode.powered_only
    else err value_error

unfoldable pub get_effect : ℕ → Rgb8 → ℕ → ℕ → ℕ → Result DecodeError BuiltinEffect
get_effect kind color period_ms phase_ms auxiliary =
    if kind == 0
    then ok (BuiltinEffect.solid color)
    else if kind == 1 && leb auxiliary 100
    then ok (BuiltinEffect.blink color period_ms phase_ms auxiliary)
    else if kind == 2
    then ok (BuiltinEffect.breathe color period_ms phase_ms auxiliary)
    else err value_error

abbrev pub get_rgb : List ℕ → ℕ → Rgb8
get_rgb bytes at = record { r = byte bytes at; g = byte bytes (at + 1); b = byte bytes (at + 2) }

-- `(LEDS_PER_HALF..TOTAL_LEDS).contains(&slot)`
unfoldable pub in_right_half : Sizes → ℕ → Bool
in_right_half z slot = leb z.leds_per_half slot && ltb slot (total_leds z)

-- `has_revision.then(|| v)`
abbrev pub then_some : Bool → ℕ → Option ℕ
then_some true v = some v
then_some false v = none

-- `NonZeroU32::new`
unfoldable pub non_zero : ℕ → Option ℕ
non_zero v = if v == 0 then none else some v
