-- ===== src/Fixtures/Snapshots.antt =====
-- A concrete snapshot of the central's state.
use moergo_rmk.Prelude.{refl, [], ◌∷◌, Option, none, some, true, arith}
use moergo_rmk.Wire.Types.{
  RuntimeConditionalSceneCell, BatteryPair, BatteryStatus, ChargeState, BackgroundMode, LayerPolicy,
  OutputMode, ActiveTransport, ConnectionCondition,
}
use moergo_rmk.Fixtures.{example_foreign, glove80, overlay_cell, scene_cell_at, blinking}
use moergo_rmk.Fixtures.ListTables.{list_tables}
use moergo_rmk.Replica.Snapshot.{Snapshot}
use moergo_rmk.Replica.Stage.{Receiver}
use moergo_rmk.Replica.Transfer.{SizesFit, Sendable}

-- A rule on slot 50, with a gate on the transport or without.
abbrev rule : Option ConnectionCondition → RuntimeConditionalSceneCell example_foreign
rule connection = record {
  conditions = record {
    layer = some (record { layer = 3; active = true });
    battery = none;
    layers = none;
    indicators = none;
    maintenance = none;
    split_transport = none;
    output_mode = some OutputMode.powered_only;
    connection = connection;
    effects = none;
  };
  slot = 50;
  effect = blinking;
}

abbrev on_usb : ConnectionCondition
on_usb = record {
  transport = some ActiveTransport.usb;
  profile = none;
  ble_state = none;
  bonded = none;
  usb_connected = none;
}

-- Cells on both halves, of each kind.
abbrev pub example_snapshot : Snapshot list_tables
example_snapshot = record {
  revision = 7;
  settings = record {
    output_enabled = true;
    output_brightness = 128;
    background = record {
      enabled = true;
      hue = 10;
      saturation = 200;
      value = 90;
      speed = 5;
      mode = BackgroundMode.breathe;
    };
  };
  output_mode = OutputMode.always_on;
  wake_layers = 6;
  overlay = overlay_cell 3 ∷ overlay_cell 41 ∷ overlay_cell 60 ∷ [];
  scenes =
      (LayerPolicy.active_stack, scene_cell_at 0 44 ∷ scene_cell_at 1 44 ∷ scene_cell_at 1 2 ∷ []);
  rules = rule none ∷ rule (some on_usb) ∷ [];
  context = record (list_tables.default_context) { powered = true; bonded_slots = 5 };
  sample_time_ms = 1000;
  extension = some (record { effect = 2; palette = 1; value = 80; speed = 3 });
  extension_layers = none;
  extension_params = none;
  extension_overlay_params = none;
}

abbrev pub example_batteries : BatteryPair
example_batteries = record {
  left = BatteryStatus.available ChargeState.charging (some 80);
  right = BatteryStatus.unavailable;
}

abbrev pub empty_receiver : Receiver list_tables
empty_receiver = record { stage = none; debug = 0 }

pub glove80-SizesFit : SizesFit glove80 list_tables
glove80-SizesFit = record {
  half_fits = omega arith;
  half_byte = omega arith;
  scenes_byte = omega arith;
}

pub example_snapshot-Sendable : Sendable glove80 list_tables example_snapshot
example_snapshot-Sendable = record {
  overlay_fits = omega arith;
  scenes_fit = omega arith;
  rules_fit = omega arith;
  overlay_distinct = refl;
  scenes_distinct = refl;
}

-- With extension layers, and without conditional cells.
abbrev pub layered_snapshot : Snapshot list_tables
layered_snapshot = record example_snapshot {
  extension_layers = some (record { overlay = some 4 });
  rules = [];
}

pub layered_snapshot-Sendable : Sendable glove80 list_tables layered_snapshot
layered_snapshot-Sendable = record {
  overlay_fits = omega arith;
  scenes_fit = omega arith;
  rules_fit = omega arith;
  overlay_distinct = refl;
  scenes_distinct = refl;
}
