-- ===== src/Pointing/Tests.antt =====
-- A concrete configuration of two devices.
use moergo_rmk.Prelude.{ℕ, ◌≡◌, refl, true, false, [], ◌∷◌, some, Result, ok, err, arith}
use moergo_rmk.Pointing.Modes.{
  PointingError, pos, Cursor, Axes, Directions, PointingModeConfig, PointingMode, KeyCodes,
  validate,
}
use moergo_rmk.Pointing.Wire.{
  PointingConfig, WirePointingConfig, WireDevice, WireOverride, Capacities, WireLists, listed,
  put_devices, put_overrides, to_wire, from_wire,
}
use moergo_rmk.Pointing.Checks.{Checked}
use moergo_rmk.Pointing.RoundTrip.{to_wire-Checked, from_wire-to_wire}

abbrev codes : KeyCodes
codes = record { Key = ℕ; of_code = λ k. k; code = λ k. k }

abbrev cursor : Cursor
cursor = record {
  multiplier_x = 2;
  multiplier_y = 2;
  divisor_x = 1;
  divisor_y = 1;
  invert_x = false;
  invert_y = true;
}

abbrev axes : Axes
axes = record { disable_x = false; disable_y = false; invert_x = false; invert_y = false }

abbrev arrows : Directions ℕ
arrows = record { keycode_up = 82; keycode_down = 81; keycode_left = 80; keycode_right = 79 }

abbrev config : PointingConfig
config = record {
  devices =
      record { device_id = 0; mode = PointingModeConfig.cursor cursor (some 2) }
      ∷ record { device_id = 1; mode = PointingModeConfig.keypad axes (pos 100) (pos 50) arrows 40 }
      ∷ [];
  overrides =
      record { layer = 3; device_id = 0; mode = PointingModeConfig.scroll 1 8 1 8 false false }
      ∷ [];
}

abbrev caps : Capacities
caps = record { device_capacity = 4; override_capacity = 8 }

abbrev no_device : WireDevice codes
no_device = record { device_id = 0; mode = PointingMode.cursor_mode cursor }

abbrev no_override : WireOverride codes
no_override = record { layer = 0; device_id = 0; mode = PointingMode.cursor_mode cursor }

abbrev wire_or : Result PointingError (WirePointingConfig codes) → WirePointingConfig codes
wire_or r = elim r [
  | ok w ↦ w
  | err e ↦ record {
    device_count = 0;
    override_count = 0;
    devices = λ i. no_device;
    overrides = λ i. no_override;
  }
]

abbrev sent : WirePointingConfig codes
sent = wire_or (to_wire codes caps no_device no_override 8 config)

abbrev lists : WireLists codes
lists = record {
  devices_of = λ w. listed 0 w.device_count w.devices;
  overrides_of = λ w. listed 0 w.override_count w.overrides;
}

to_wire-Checked_example : Checked caps 8 config
unfolding to_wire put_devices put_overrides validate
to_wire-Checked_example = to_wire-Checked codes caps no_device no_override 8 config sent refl

from_wire-to_wire_example : from_wire codes lists sent ≡ config
unfolding to_wire put_devices put_overrides validate
from_wire-to_wire_example =
    from_wire-to_wire codes caps no_device no_override 8 config sent refl (omega arith)
      (omega arith) (tt, (((refl, refl, refl, refl), refl), tt)) (tt, tt) lists
      (record { devices_listed = λ w. refl; overrides_listed = λ w. refl })
