-- ===== src/Pointing/Wire.antt =====
-- `PointingConfig` and its exchange with `WirePointingConfig`.
use moergo_rmk.Prelude.{
  ℕ, zero, suc, ◌%◌, List, [], ◌∷◌, map, take, any, length, Result, ok, err, ◌>>=◌, ◌==◌, ltb,
  if◌then◌else◌, ◌≡◌,
}
use moergo_rmk.Pointing.Modes.{
  PointingModeConfig, PointingMode, PointingError, KeyCodes, validate, mode_to_wire, mode_from_wire,
}

pub record PointingDeviceConfig : Type 0 where
  pub device_id : ℕ
  pub mode : PointingModeConfig

pub record PointingLayerOverride : Type 0 where
  pub layer : ℕ
  pub device_id : ℕ
  pub mode : PointingModeConfig

pub record PointingConfig : Type 0 where
  pub devices : List PointingDeviceConfig
  pub overrides : List PointingLayerOverride

module _ (K : KeyCodes) where
  -- `WirePointingDeviceConfig`, `WirePointingLayerOverride` and `WirePointingConfig` of rmk, whose
  -- arrays give the entry at each slot.
  pub record WireDevice : Type 0 where
    pub device_id : ℕ
    pub mode : PointingMode K.Key

  pub record WireOverride : Type 0 where
    pub layer : ℕ
    pub device_id : ℕ
    pub mode : PointingMode K.Key

  pub record WirePointingConfig : Type 0 where
    pub device_count : ℕ
    pub override_count : ℕ
    pub devices : ℕ → WireDevice
    pub overrides : ℕ → WireOverride

-- `POINTING_DEVICE_CAPACITY` and `POINTING_LAYER_OVERRIDE_CAPACITY`.
pub record Capacities : Type 0 where
  pub device_capacity : ℕ
  pub override_capacity : ℕ

-- `result[slot] = value`
abbrev pub set_slot : {A : Type 0} → ℕ → A → (ℕ → A) → ℕ → A
set_slot slot value slots i = if i == slot then value else slots i

-- The entries of the first `n` slots from `slot` on.
abbrev pub listed : {A : Type 0} → ℕ → ℕ → (ℕ → A) → List A
listed slot zero slots = []
listed slot (suc n) slots = slots slot ∷ listed (suc slot) n slots

module _ (K : KeyCodes) where
  abbrev pub device_to_wire : PointingDeviceConfig → WireDevice K
  device_to_wire d = record { device_id = d.device_id; mode = mode_to_wire K d.mode }

  abbrev pub override_to_wire : PointingLayerOverride → WireOverride K
  override_to_wire o = record {
    layer = o.layer;
    device_id = o.device_id;
    mode = mode_to_wire K o.mode;
  }

  -- The loop over the devices: `rest` is what is left of `all` from `slot` on.
  unfoldable pub put_devices :
      List PointingDeviceConfig
      → ℕ
      → List PointingDeviceConfig
      → (ℕ → WireDevice K)
      → Result PointingError (ℕ → WireDevice K)
  put_devices all slot [] slots = ok slots
  put_devices all slot (d ∷ rest) slots = do
    checked ← validate d.mode
    (let others = put_devices all (suc slot) rest (set_slot slot (device_to_wire d) slots) in
        if any (λ old. old.device_id == d.device_id) (take slot all)
        then err PointingError.duplicate_device
        else others)

  -- The loop over the overrides.
  unfoldable pub put_overrides :
      ℕ
      → ℕ
      → List PointingLayerOverride
      → (ℕ → WireOverride K)
      → Result PointingError (ℕ → WireOverride K)
  put_overrides layer_count slot [] slots = ok slots
  put_overrides layer_count slot (o ∷ rest) slots = do
    checked ← validate o.mode
    (let others =
          put_overrides layer_count (suc slot) rest (set_slot slot (override_to_wire o) slots) in
        if ltb o.layer layer_count then others else err PointingError.missing_layer)

  module _ (caps : Capacities) (no_device : WireDevice K) (no_override : WireOverride K) where
    -- The two loops, from the default arrays.
    abbrev pub build : ℕ → PointingConfig → Result PointingError (WirePointingConfig K)
    build layer_count config = do
      devices ← put_devices config.devices 0 config.devices (λ i. no_device)
      overrides ← put_overrides layer_count 0 config.overrides (λ i. no_override)
      ok (record {
        device_count = length config.devices % 256;
        override_count = length config.overrides % 256;
        devices = devices;
        overrides = overrides;
      })

    unfoldable pub to_wire : ℕ → PointingConfig → Result PointingError (WirePointingConfig K)
    to_wire layer_count config =
        if ltb caps.device_capacity (length config.devices)
        then err PointingError.too_many_devices
        else if ltb caps.override_capacity (length config.overrides)
        then err PointingError.too_many_overrides
        else build layer_count config

  -- The methods `devices()` and `overrides()` of rmk.
  pub record WireLists : Type 0 where
    pub devices_of : WirePointingConfig K → List (WireDevice K)
    pub overrides_of : WirePointingConfig K → List (WireOverride K)

  -- They give the slots that are counted.
  pub record WireListsLaws (lists : WireLists) : Type 0 where
    pub devices_listed :
        (w : WirePointingConfig K) → lists.devices_of w ≡ listed 0 w.device_count w.devices
    pub overrides_listed :
        (w : WirePointingConfig K) → lists.overrides_of w ≡ listed 0 w.override_count w.overrides

  -- Reading a mode never fails, so the result is the configuration.
  unfoldable pub from_wire : WireLists → WirePointingConfig K → PointingConfig
  from_wire lists w = record {
    devices =
        map (λ d. record { device_id = d.device_id; mode = mode_from_wire K d.mode })
          (lists.devices_of w);
    overrides =
        map
          (λ o. record { layer = o.layer; device_id = o.device_id; mode = mode_from_wire K o.mode })
          (lists.overrides_of w);
  }
