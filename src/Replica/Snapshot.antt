-- ===== src/Replica/Snapshot.antt =====
-- `StandardReplicaState` and the exchange of `LightingContext` with `ReplicatedContext`.
use moergo_rmk.Prelude.{ℕ, Option}
use moergo_rmk.Wire.Rmk.{Foreign}
use moergo_rmk.Wire.Types.{
  StandardMutableState, OutputMode, LightingContext, ReplicatedContext, ExtensionState,
  ExtensionLayerState, ExtensionReplicaParams,
}
use moergo_rmk.Replica.Tables.{Tables}

pub record Snapshot {F : Foreign} (T : Tables F) : Type 0 where
  pub revision : ℕ
  pub settings : StandardMutableState
  pub output_mode : OutputMode
  pub wake_layers : ℕ
  pub overlay : T.Overlay
  pub scenes : T.Scenes
  pub rules : T.Rules
  pub context : LightingContext F
  pub sample_time_ms : ℕ
  pub extension : Option ExtensionState
  pub extension_layers : Option ExtensionLayerState
  pub extension_params : Option ExtensionReplicaParams
  pub extension_overlay_params : Option ExtensionReplicaParams

-- `From<LightingContext> for ReplicatedContext`
abbrev pub to_replicated : {F : Foreign} → LightingContext F → ReplicatedContext
to_replicated c = record {
  indicators = c.indicators;
  powered = c.powered;
  bonded_slots = c.bonded_slots;
}

-- `ReplicatedContext::apply_to`
abbrev pub apply_to : {F : Foreign} → ReplicatedContext → LightingContext F → LightingContext F
apply_to r c = record c {
  indicators = r.indicators;
  powered = r.powered;
  bonded_slots = r.bonded_slots;
}
