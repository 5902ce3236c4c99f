-- ===== src/Wire/RoundTrip/Fields.antt =====
-- Each reader of a field undoes its writer.
use moergo_rmk.Prelude.{
  ℕ, ◌≤◌, ◌<◌, ◌≡◌, refl, Bool, true, false, Option, none, some, ok, leb, ◌==◌, to_u8, arith,
}
use moergo_rmk.Wire.Rmk.{Sizes}
use moergo_rmk.Wire.Types.{
  IndicatorState, BatteryStatus, ChargeState, OutputMode, LayerPolicy, BuiltinEffect,
}
use moergo_rmk.Wire.Fits.{IsU16, IsU32, OnSome, BatteryFits, EffectFits, SlotFits}
use moergo_rmk.Wire.Encode.Codes.{
  indicators, battery_state, battery_level, or_max, policy_code, output_mode_code, effect_parts,
}
use moergo_rmk.Wire.Encode.Cells.{or_zero}
use moergo_rmk.Wire.Encode.Side.{is_some}
use moergo_rmk.Wire.Decode.Fields.{
  flag, get_indicators, get_status, get_policy, get_output_mode, get_effect, in_right_half,
  then_some, non_zero,
}

pub flag-to_u8 : (b : Bool) → flag (to_u8 b) ≡ ok b
unfolding flag
flag-to_u8 true = refl
flag-to_u8 false = refl

pub get_policy-policy_code : (p : LayerPolicy) → get_policy (policy_code p) ≡ ok p
unfolding get_policy
get_policy-policy_code LayerPolicy.effective_only = refl
get_policy-policy_code LayerPolicy.active_stack = refl

pub get_output_mode-output_mode_code :
    (m : OutputMode) → get_output_mode (output_mode_code m) ≡ ok m
unfolding get_output_mode
get_output_mode-output_mode_code OutputMode.always_on = refl
get_output_mode-output_mode_code OutputMode.always_off = refl
get_output_mode-output_mode_code OutputMode.powered_only = refl

pub get_indicators-indicators : (v : IndicatorState) → get_indicators (indicators v) ≡ v
unfolding get_indicators
get_indicators-indicators v = ground arith

level_in_range : (v : ℕ) → v ≤ 100 → ((v == 255) ≡ false) × (leb v 100 ≡ true)
level_in_range v h = ground arith

pub get_status_lem :
    (s : BatteryStatus)
    → BatteryFits s
    → get_status (battery_state s) (or_max (battery_level s)) ≡ ok s
unfolding get_status
get_status_lem BatteryStatus.unavailable h = refl
get_status_lem (BatteryStatus.available ChargeState.charging none) h = refl
get_status_lem (BatteryStatus.available ChargeState.discharging none) h = refl
get_status_lem (BatteryStatus.available ChargeState.unknown none) h = refl
get_status_lem (BatteryStatus.available ChargeState.charging (some v)) h = ground arith
get_status_lem (BatteryStatus.available ChargeState.discharging (some v)) h = ground arith
get_status_lem (BatteryStatus.available ChargeState.unknown (some v)) h = ground arith

pub get_effect_lem :
    (e : BuiltinEffect)
    → EffectFits e
    → let (kind, color, period, phase, auxiliary) = effect_parts e in
      get_effect kind color period phase auxiliary ≡ ok e
unfolding get_effect
get_effect_lem (BuiltinEffect.solid c) h = refl
get_effect_lem (BuiltinEffect.blink c period phase duty) h = ground arith
get_effect_lem (BuiltinEffect.breathe c period phase step) h = refl

pub effect_parts_fit :
    (e : BuiltinEffect)
    → EffectFits e
    → IsU32 (effect_parts e).2 × IsU32 (effect_parts e).3 × IsU16 (effect_parts e).4
effect_parts_fit (BuiltinEffect.solid c) h = omega arith
effect_parts_fit (BuiltinEffect.blink c period phase duty) h = omega arith
effect_parts_fit (BuiltinEffect.breathe c period phase step) h = omega arith

pub non_zero-or_zero : (o : Option ℕ) → OnSome (λ v. 0 < v) o → non_zero (or_zero o) ≡ o
unfolding non_zero
non_zero-or_zero none h = refl
non_zero-or_zero (some v) h = ground arith

pub then_some-or_zero : (o : Option ℕ) → then_some (is_some o) (or_zero o) ≡ o
then_some-or_zero none = refl
then_some-or_zero (some v) = refl

pub in_right_half_of_fits : (z : Sizes) (slot : ℕ) → SlotFits z slot → in_right_half z slot ≡ true
unfolding in_right_half
in_right_half_of_fits z slot h = ground arith
