-- ===== src/Wire/Rmk.antt =====
-- What split_lighting.rs takes from the `rmk` crate and from the board crate: types that it only
-- passes on, accessors that it calls, and the sizes of fixed arrays.
use moergo_rmk.Prelude.{ℕ, ◌*◌}

-- Types of `rmk` whose values the protocol moves and never builds field by field.
pub record Foreign : Type 1 where
  pub LayerState : Type 0
  pub LayersCondition : Type 0
  pub IndicatorsCondition : Type 0
  pub MaintenanceCondition : Type 0
  pub SplitTransportCondition : Type 0
  -- The fields of `LightingContext` that split replication never touches.
  pub ContextRest : Type 0

-- `LayerState::new`, its public fields and `active_bits`.
pub record LayerOps (F : Foreign) : Type 0 where
  pub new : ℕ → ℕ → ℕ → F.LayerState
  pub effective : F.LayerState → ℕ
  pub default_layer : F.LayerState → ℕ
  pub active_bits : F.LayerState → ℕ

-- BOARD_LEDS_PER_HALF and BOARD_SCENE_CAPACITY of the board crate, OVERLAY_CAPACITY of
-- lighting.rs, EXTENSION_PARAM_CHUNK and FRAME_CHUNK_SIZE of `rmk`.
pub record Sizes : Type 0 where
  pub leds_per_half : ℕ
  pub scene_capacity : ℕ
  pub overlay_capacity : ℕ
  pub param_chunk : ℕ
  pub frame_chunk_size : ℕ

abbrev pub total_leds : Sizes → ℕ
total_leds z = z.leds_per_half * 2
