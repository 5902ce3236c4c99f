-- ===== src/Fixtures.antt =====
-- Concrete instances of what the model takes from other crates, for the tests: the sizes of the
-- glove80 board, and unit types in place of the types that the protocol only passes on.
pub mod ListTables
pub mod Queue
pub mod Snapshots
use moergo_rmk.Prelude.{ℕ, List, some, take}
use moergo_rmk.Wire.Rmk.{Foreign, LayerOps, Sizes}
use moergo_rmk.Wire.Types.{ExtensionReplicaParams, OverlayCell, SceneTableCell, BuiltinEffect, Rgb8}

abbrev pub example_foreign : Foreign
example_foreign = record {
  LayerState = ℕ;
  LayersCondition = Unit {0};
  IndicatorsCondition = Unit {0};
  MaintenanceCondition = Unit {0};
  SplitTransportCondition = Unit {0};
  ContextRest = Unit {0};
}

abbrev pub example_ops : LayerOps example_foreign
example_ops = record {
  new = λ e d a. a;
  effective = λ l. 0;
  default_layer = λ l. 0;
  active_bits = λ l. l;
}

abbrev pub glove80 : Sizes
glove80 = record {
  leds_per_half = 40;
  scene_capacity = 100;
  overlay_capacity = 64;
  param_chunk = 12;
  frame_chunk_size = 20;
}

-- `ExtensionReplicaParams::values`: the values that count.
abbrev pub example_values : ExtensionReplicaParams → List ℕ
example_values p = take p.len p.values

abbrev pub red : Rgb8
red = record { r = 255; g = 0; b = 0 }

abbrev pub blinking : BuiltinEffect
blinking = BuiltinEffect.blink red 500 250 50

abbrev pub overlay_cell : ℕ → OverlayCell
overlay_cell slot = record { slot = slot; effect = blinking; ttl_ms = some 900 }

abbrev pub scene_cell_at : ℕ → ℕ → SceneTableCell
scene_cell_at layer slot = record { layer = layer; slot = slot; effect = blinking }
