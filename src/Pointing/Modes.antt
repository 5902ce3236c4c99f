-- ===== src/Pointing/Modes.antt =====
-- `PointingModeConfig` and its exchange with `PointingMode`.
use moergo_rmk.Prelude.{
  ℕ, zero, suc, Bool, true, false, Option, none, some, Result, ok, err, if◌then◌else◌,
}

-- `i16`: `pos n` is n, `negsuc n` is -(n + 1).
pub data ℤ : Type 0 where
  pos negsuc : ℕ → ℤ

-- `WireCursorConfig`, which four modes share.
pub record Cursor : Type 0 where
  pub multiplier_x : ℕ
  pub multiplier_y : ℕ
  pub divisor_x : ℕ
  pub divisor_y : ℕ
  pub invert_x : Bool
  pub invert_y : Bool

-- The axes of the modes that send keys.
pub record Axes : Type 0 where
  pub disable_x : Bool
  pub disable_y : Bool
  pub invert_x : Bool
  pub invert_y : Bool

-- The keys of the four directions.
pub record Directions (K : Type 0) : Type 0 where
  pub keycode_up : K
  pub keycode_down : K
  pub keycode_left : K
  pub keycode_right : K

-- The fields of a variant that two modes have alike stand in one record.
pub data PointingModeConfig : Type 0 where
  -- the cursor, primary_button
  cursor : Cursor → Option ℕ → PointingModeConfig
  -- multiplier_x, divisor_x, multiplier_y, divisor_y, invert_x, invert_y
  scroll : ℕ → ℕ → ℕ → ℕ → Bool → Bool → PointingModeConfig
  -- multiplier, divisor, invert_x, invert_y
  sniper : ℕ → ℕ → Bool → Bool → PointingModeConfig
  -- threshold
  caret : Axes → ℤ → Directions ℕ → PointingModeConfig
  -- threshold_x, threshold_y, the directions, keycode_tap
  keypad : Axes → ℤ → ℤ → Directions ℕ → ℕ → PointingModeConfig
  -- the cursor, toggled_by, latches
  drag : Cursor → ℕ → ℕ → PointingModeConfig
  -- the cursor, holds
  press : Cursor → ℕ → PointingModeConfig

-- `PointingMode` of rmk; `K` is `HidKeyCode`.
pub data PointingMode (K : Type 0) : Type 0 where
  cursor_mode : Cursor → PointingMode K
  cursor_remap : Cursor → ℕ → PointingMode K
  scroll_mode : ℕ → ℕ → ℕ → ℕ → Bool → Bool → PointingMode K
  sniper_mode : ℕ → ℕ → Bool → Bool → PointingMode K
  caret_mode : Axes → ℤ → Directions K → PointingMode K
  keypad_mode : Axes → ℤ → ℤ → Directions K → K → PointingMode K
  drag_mode : Cursor → ℕ → ℕ → PointingMode K
  press_mode : Cursor → ℕ → PointingMode K

pub data PointingError : Type 0 where
  too_many_devices too_many_overrides threshold_x_low threshold_y_low : PointingError
  duplicate_device missing_layer : PointingError

abbrev pub is_positive : ℤ → Bool
is_positive (pos zero) = false
is_positive (pos (suc n)) = true
is_positive (negsuc n) = false

abbrev pub check : Bool → PointingError → Result PointingError (Unit {0})
check true e = ok tt
check false e = err e

abbrev pub validate_thresholds : ℤ → ℤ → Result PointingError (Unit {0})
validate_thresholds x y =
    if is_positive x
    then check (is_positive y) PointingError.threshold_y_low
    else err PointingError.threshold_x_low

unfoldable pub validate : PointingModeConfig → Result PointingError (Unit {0})
validate (PointingModeConfig.keypad axes x y keys tap) = validate_thresholds x y
validate _ = ok tt

abbrev pub map_directions : {K L : Type 0} → (K → L) → Directions K → Directions L
map_directions f d = record {
  keycode_up = f d.keycode_up;
  keycode_down = f d.keycode_down;
  keycode_left = f d.keycode_left;
  keycode_right = f d.keycode_right;
}

-- `HidKeyCode`: `of_code` is `From<u8>`, `code` is `as u8`.
pub record KeyCodes : Type 1 where
  pub Key : Type 0
  pub of_code : ℕ → Key
  pub code : Key → ℕ

module _ (K : KeyCodes) where
  unfoldable pub mode_to_wire : PointingModeConfig → PointingMode K.Key
  mode_to_wire (PointingModeConfig.cursor c none) = PointingMode.cursor_mode c
  mode_to_wire (PointingModeConfig.cursor c (some button)) = PointingMode.cursor_remap c button
  mode_to_wire (PointingModeConfig.scroll mx dx my dy ix iy) =
      PointingMode.scroll_mode mx dx my dy ix iy
  mode_to_wire (PointingModeConfig.sniper m d ix iy) = PointingMode.sniper_mode m d ix iy
  mode_to_wire (PointingModeConfig.caret axes t keys) =
      PointingMode.caret_mode axes t (map_directions K.of_code keys)
  mode_to_wire (PointingModeConfig.keypad axes x y keys tap) =
      PointingMode.keypad_mode axes x y (map_directions K.of_code keys) (K.of_code tap)
  mode_to_wire (PointingModeConfig.drag c toggled_by latches) =
      PointingMode.drag_mode c toggled_by latches
  mode_to_wire (PointingModeConfig.press c holds) = PointingMode.press_mode c holds

  unfoldable pub mode_from_wire : PointingMode K.Key → PointingModeConfig
  mode_from_wire (PointingMode.cursor_mode c) = PointingModeConfig.cursor c none
  mode_from_wire (PointingMode.cursor_remap c button) = PointingModeConfig.cursor c (some button)
  mode_from_wire (PointingMode.scroll_mode mx dx my dy ix iy) =
      PointingModeConfig.scroll mx dx my dy ix iy
  mode_from_wire (PointingMode.sniper_mode m d ix iy) = PointingModeConfig.sniper m d ix iy
  mode_from_wire (PointingMode.drag_mode c toggled_by latches) =
      PointingModeConfig.drag c toggled_by latches
  mode_from_wire (PointingMode.press_mode c holds) = PointingModeConfig.press c holds
  mode_from_wire (PointingMode.caret_mode axes t keys) =
      PointingModeConfig.caret axes t (map_directions K.code keys)
  mode_from_wire (PointingMode.keypad_mode axes x y keys tap) =
      PointingModeConfig.keypad axes x y (map_directions K.code keys) (K.code tap)
