-- ===== src/Wire/Decode/Cells.antt =====
-- The packets of an overlay cell and of a scene cell.
use moergo_rmk.Prelude.{ℕ, not, List, Result, ok, err, ◌>>=◌, if◌then◌else◌}
use moergo_rmk.Wire.Rmk.{Foreign, Sizes}
use moergo_rmk.Wire.Buffer.{byte, get_u16, get_u32}
use moergo_rmk.Wire.Message.{Message, DecodeError, value_error}
use moergo_rmk.Wire.Decode.Fields.{get_effect, get_rgb, in_right_half, non_zero}

module _ (z : Sizes) where
  unfoldable pub decode_cell : {F : Foreign} → List ℕ → Result DecodeError (Message F)
  decode_cell bytes = if not (in_right_half z (byte bytes 7)) then err value_error else do
    effect ←
        get_effect (byte bytes 8) (get_rgb bytes 9) (get_u32 bytes 12) (get_u32 bytes 16)
          (get_u16 bytes 20)
    ok (
        Message.cell (byte bytes 2) (get_u32 bytes 3)
          (record { slot = byte bytes 7; effect = effect; ttl_ms = non_zero (get_u32 bytes 22) }))

  unfoldable pub decode_scene_cell : {F : Foreign} → List ℕ → Result DecodeError (Message F)
  decode_scene_cell bytes = if not (in_right_half z (byte bytes 8)) then err value_error else do
    effect ←
        get_effect (byte bytes 9) (get_rgb bytes 10) (get_u32 bytes 13) (get_u32 bytes 17)
          (get_u16 bytes 21)
    ok (
        Message.scene_cell (byte bytes 2) (get_u32 bytes 3)
          (record { layer = byte bytes 7; slot = byte bytes 8; effect = effect }))
