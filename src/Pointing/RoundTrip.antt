-- ===== src/Pointing/RoundTrip.antt =====
-- What a configuration that is sent to the keyboard satisfies, and that it is read back.
use moergo_rmk.Prelude.{
  ℕ, ◌%◌, ◌≤◌, ◌<◌, ◌≡◌, refl, sym, ap, ap₂, ◌∙◌, List, [], ◌∷◌, All, map, length, none, some,
  Result, ok, err, ◌>>=◌, arith,
}
use moergo_rmk.Pointing.Modes.{
  PointingModeConfig, PointingError, KeyCodes, Directions, mode_to_wire, mode_from_wire,
  map_directions,
}
use moergo_rmk.Pointing.Wire.{
  PointingDeviceConfig, PointingLayerOverride, PointingConfig, WireDevice, WireOverride,
  WirePointingConfig, Capacities, WireLists, WireListsLaws, device_to_wire, override_to_wire,
  put_devices, put_overrides, build, to_wire, from_wire,
}
use moergo_rmk.Pointing.Checks.{
  Checked, devices-ThresholdsPositive, overrides-ThresholdsPositive, unique_from-distinct,
}
use moergo_rmk.Pointing.Slots.{value_or, put_devices_ok, put_overrides_ok}

module _ (K : KeyCodes) where
  -- The keycode is one of `HidKeyCode`.
  abbrev pub Known : ℕ → Type 0
  Known k = K.code (K.of_code k) ≡ k

  abbrev pub KnownDirections : Directions ℕ → Type 0
  KnownDirections d =
      Known d.keycode_up × Known d.keycode_down × Known d.keycode_left × Known d.keycode_right

  abbrev pub KnownKeys : PointingModeConfig → Type 0
  KnownKeys (PointingModeConfig.caret axes t keys) = KnownDirections keys
  KnownKeys (PointingModeConfig.keypad axes x y keys tap) = KnownDirections keys × Known tap
  KnownKeys _ = Unit {0}

  directions_lem :
      (d : Directions ℕ)
      → KnownDirections d
      → map_directions K.code (map_directions K.of_code d) ≡ d
  directions_lem d (up, down, left, right) = rw (up, down, left, right)

  pub mode_from_wire-mode_to_wire :
      (m : PointingModeConfig) → KnownKeys m → mode_from_wire K (mode_to_wire K m) ≡ m
  unfolding mode_from_wire mode_to_wire
  mode_from_wire-mode_to_wire (PointingModeConfig.cursor c none) h = refl
  mode_from_wire-mode_to_wire (PointingModeConfig.cursor c (some button)) h = refl
  mode_from_wire-mode_to_wire (PointingModeConfig.scroll mx dx my dy ix iy) h = refl
  mode_from_wire-mode_to_wire (PointingModeConfig.sniper m d ix iy) h = refl
  mode_from_wire-mode_to_wire (PointingModeConfig.caret axes t keys) h =
      ap (PointingModeConfig.caret axes t) (directions_lem keys h)
  mode_from_wire-mode_to_wire (PointingModeConfig.keypad axes x y keys tap) (h, k) =
      ap₂ (PointingModeConfig.keypad axes x y) (directions_lem keys h) k
  mode_from_wire-mode_to_wire (PointingModeConfig.drag c toggled_by latches) h = refl
  mode_from_wire-mode_to_wire (PointingModeConfig.press c holds) h = refl

module _ (K : KeyCodes) where
  abbrev pub read_device : WireDevice K → PointingDeviceConfig
  read_device d = record { device_id = d.device_id; mode = mode_from_wire K d.mode }

  abbrev pub read_override : WireOverride K → PointingLayerOverride
  read_override o = record {
    layer = o.layer;
    device_id = o.device_id;
    mode = mode_from_wire K o.mode;
  }

  read_devices :
      (ds : List PointingDeviceConfig)
      → All (λ d. KnownKeys K d.mode) ds
      → map read_device (map (device_to_wire K) ds) ≡ ds
  read_devices [] known = refl
  read_devices (d ∷ ds) (k, known) =
      ap₂ (λ m rest. record { device_id = d.device_id; mode = m } ∷ rest)
        (mode_from_wire-mode_to_wire K d.mode k) (read_devices ds known)

  read_overrides :
      (os : List PointingLayerOverride)
      → All (λ o. KnownKeys K o.mode) os
      → map read_override (map (override_to_wire K) os) ≡ os
  read_overrides [] known = refl
  read_overrides (o ∷ os) (k, known) =
      ap₂ (λ m rest. record { layer = o.layer; device_id = o.device_id; mode = m } ∷ rest)
        (mode_from_wire-mode_to_wire K o.mode k) (read_overrides os known)

  module _ (caps : Capacities) (no_device : WireDevice K) (no_override : WireOverride K)
      (layer_count : ℕ) (config : PointingConfig) (w : WirePointingConfig K) where
    within_capacity :
        to_wire K caps no_device no_override layer_count config ≡ ok w
        → (length config.devices ≤ caps.device_capacity)
          × (length config.overrides ≤ caps.override_capacity)
          × (build K caps no_device no_override layer_count config ≡ ok w)
    unfolding to_wire
    within_capacity h = ground (arith, h)

    abbrev assembled : (ℕ → WireDevice K) → (ℕ → WireOverride K) → WirePointingConfig K
    assembled devices overrides = record {
      device_count = length config.devices % 256;
      override_count = length config.overrides % 256;
      devices = devices;
      overrides = overrides;
    }

    build_ok :
        (ds : Result PointingError (ℕ → WireDevice K))
        (os : Result PointingError (ℕ → WireOverride K))
        → (ds >>= (λ d. os >>= (λ o. ok (assembled d o)))) ≡ ok w
        → (d : ℕ → WireDevice K) × (o : ℕ → WireOverride K) × (ds ≡ ok d)
          × (os ≡ ok o)
          × (assembled d o ≡ w)
    build_ok (err e) os h = absurd (ground (arith, h))
    build_ok (ok d) (err e) h = absurd (ground (arith, h))
    build_ok (ok d) (ok o) h = (d, o, refl, refl, ap (value_or w) h)

    -- A configuration that is taken satisfies every requirement: it fits the capacities, no two devices
    -- have one identifier, each override names a layer that exists, and the thresholds of every keypad
    -- mode, of a device or of an override, are above zero.
    pub to_wire-Checked :
        to_wire K caps no_device no_override layer_count config ≡ ok w
        → Checked caps layer_count config
    to_wire-Checked sent =
        let (fit_d, fit_o, built) = within_capacity sent in
        let (d, o, ds, os, same) =
          build_ok (put_devices K config.devices 0 config.devices (λ i. no_device))
            (put_overrides K layer_count 0 config.overrides (λ i. no_override)) built in
        let (listed_d, kept_d, unique, modes_d) =
          put_devices_ok K config.devices 0 config.devices (λ i. no_device) d ds in
        let (listed_o, kept_o, modes_o) =
          put_overrides_ok K layer_count 0 config.overrides (λ i. no_override) o os in
        record {
          devices_fit = fit_d;
          overrides_fit = fit_o;
          devices_distinct = unique_from-distinct config.devices unique;
          device_modes = devices-ThresholdsPositive config.devices modes_d;
          override_modes = overrides-ThresholdsPositive layer_count config.overrides modes_o;
        }

    -- A configuration that is taken is read back: when each of its keycodes is known, the capacities
    -- go into a byte, and the accessors of the form that is sent give the slots that it counts, that
    -- form is turned into the same configuration again.
    pub from_wire-to_wire :
        to_wire K caps no_device no_override layer_count config ≡ ok w
        → caps.device_capacity < 256
        → caps.override_capacity < 256
        → All (λ d. KnownKeys K d.mode) config.devices
        → All (λ o. KnownKeys K o.mode) config.overrides
        → (lists : WireLists K) → WireListsLaws K lists
        → from_wire K lists w ≡ config
    unfolding from_wire
    from_wire-to_wire sent byte_d byte_o known_d known_o lists laws =
        let (fit_d, fit_o, built) = within_capacity sent in
        let (d, o, ds, os, same) =
          build_ok (put_devices K config.devices 0 config.devices (λ i. no_device))
            (put_overrides K layer_count 0 config.overrides (λ i. no_override)) built in
        let (listed_d, kept_d, unique, modes_d) =
          put_devices_ok K config.devices 0 config.devices (λ i. no_device) d ds in
        let (listed_o, kept_o, modes_o) =
          put_overrides_ok K layer_count 0 config.overrides (λ i. no_override) o os in
        let count_d : length config.devices % 256 ≡ length config.devices =
          omega (arith, fit_d, byte_d) in
        let count_o : length config.overrides % 256 ≡ length config.overrides =
          omega (arith, fit_o, byte_o) in
        ap (from_wire K lists) (sym same)
        ∙ ap₂ (λ x y. record { devices = x; overrides = y })
            (rw (laws.devices_listed (assembled d o), count_d, listed_d)
              (read_devices config.devices known_d))
            (rw (laws.overrides_listed (assembled d o), count_o, listed_o)
              (read_overrides config.overrides known_o))
