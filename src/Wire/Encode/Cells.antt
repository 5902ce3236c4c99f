-- ===== src/Wire/Encode/Cells.antt =====
-- The packets of an overlay cell and of a scene cell.
use moergo_rmk.Prelude.{ℕ, ◌%◌, List, Option, none, some}
use moergo_rmk.Wire.Types.{OverlayCell, SceneTableCell}
use moergo_rmk.Wire.Buffer.{put, put_u16, put_u32, slice, ◌▸◌}
use moergo_rmk.Wire.Message.{tag_cell, cell_len, tag_scene_cell, scene_cell_len}
use moergo_rmk.Wire.Encode.Codes.{header, effect_parts}

-- `ttl_ms.map(NonZeroU32::get).unwrap_or(0)`
abbrev pub or_zero : Option ℕ → ℕ
or_zero none = 0
or_zero (some v) = v

unfoldable pub encode_cell : ℕ → ℕ → OverlayCell → List ℕ
encode_cell generation revision cell =
    let (kind, color, period_ms, phase_ms, auxiliary) = effect_parts cell.effect in
    slice
      (header tag_cell
        ▸ put 2 generation
        ▸ put_u32 3 revision
        ▸ put 7 (cell.slot % 256)
        ▸ put 8 kind
        ▸ put 9 color.r
        ▸ put 10 color.g
        ▸ put 11 color.b
        ▸ put_u32 12 period_ms
        ▸ put_u32 16 phase_ms
        ▸ put_u16 20 auxiliary
        ▸ put_u32 22 (or_zero cell.ttl_ms))
      0 cell_len

unfoldable pub encode_scene_cell : ℕ → ℕ → SceneTableCell → List ℕ
encode_scene_cell generation revision cell =
    let (kind, color, period_ms, phase_ms, auxiliary) = effect_parts cell.effect in
    slice
      (header tag_scene_cell
        ▸ put 2 generation
        ▸ put_u32 3 revision
        ▸ put 7 cell.layer
        ▸ put 8 (cell.slot % 256)
        ▸ put 9 kind
        ▸ put 10 color.r
        ▸ put 11 color.g
        ▸ put 12 color.b
        ▸ put_u32 13 period_ms
        ▸ put_u32 17 phase_ms
        ▸ put_u16 21 auxiliary)
      0 scene_cell_len
