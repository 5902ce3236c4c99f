-- ===== src/Wire/Message.antt =====
-- `Message`, its tags and its packet lengths (split_lighting.rs).
use moergo_rmk.Prelude.{ℕ, ◌+◌, Bool, List, Option}
use moergo_rmk.Wire.Rmk.{Foreign, Sizes}
use moergo_rmk.Wire.Types.{
  ReplicatedContext, BatteryPair, StandardMutableState, OutputMode, LayerPolicy, ExtensionState,
  ExtensionReplicaParams, Rgb8, OverlayCell, SceneTableCell, ConnectionCondition, EffectsCondition,
  RuntimeConditionalSceneCell, ReplicaDigests,
}

-- The fields of each variant stand in the order of the source. A `[T; 2]` is two fields.
pub data Message (F : Foreign) : Type 0 where
  -- generation, revision, cell_count, scene_count, scene_policy, sample_time_ms, mutable,
  -- output_mode
  begin : ℕ → ℕ → ℕ → ℕ → LayerPolicy → ℕ → StandardMutableState → OutputMode → Message F
  -- generation, revision, wake_layers
  wake_layers : ℕ → ℕ → ℕ → Message F
  -- generation, revision, context, batteries
  context : ℕ → ℕ → ReplicatedContext → BatteryPair → Message F
  context_update : ℕ → ℕ → ReplicatedContext → BatteryPair → Message F
  -- generation, revision, extension, params
  extension : ℕ → ℕ → Option ExtensionState → Option ExtensionReplicaParams → Message F
  -- generation, revision, overlay, params
  extension_overlay : ℕ → ℕ → Option ℕ → Option ExtensionReplicaParams → Message F
  -- generation, revision, cell
  cell : ℕ → ℕ → OverlayCell → Message F
  scene_cell : ℕ → ℕ → SceneTableCell → Message F
  -- generation, revision, cell_count
  conditional_scene_begin : ℕ → ℕ → ℕ → Message F
  -- generation, revision, cell
  conditional_scene_cell : ℕ → ℕ → RuntimeConditionalSceneCell F → Message F
  -- generation, revision, connection, effects
  conditional_scene_ext : ℕ → ℕ → Option ConnectionCondition → Option EffectsCondition → Message F
  -- generation, revision, cell_count, scene_count
  commit : ℕ → ℕ → ℕ → ℕ → Message F
  -- generation, revision
  ack : ℕ → ℕ → Message F
  -- slot
  effect_hit : ℕ → Message F
  -- generation, digests
  attestation : ℕ → ReplicaDigests → Message F
  -- generation
  replica_probe : ℕ → Message F
  -- request_id
  status_request : ℕ → Message F
  -- request_id, applied_revision, engine_revision, layers, powered, wake_active,
  -- effective_output_enabled
  status_report : ℕ → Option ℕ → ℕ → F.LayerState → Bool → Bool → Bool → Message F
  -- request_id, offset
  frame_chunk_request : ℕ → ℕ → Message F
  -- request_id, revision, total, start, len, the four cells
  frame_chunk : ℕ → Option ℕ → ℕ → ℕ → ℕ → Rgb8 → Rgb8 → Rgb8 → Rgb8 → Message F
  -- auto, wired
  transport_status : Bool → Bool → Message F
  -- stage, boots, rr[0], rr[1], cause[0], cause[1]
  debug_trace : ℕ → ℕ → ℕ → ℕ → ℕ → ℕ → Message F
  -- len, text
  debug_panic_loc : ℕ → List ℕ → Message F

pub data DecodeError : Type 0 where
  version_error tag_error length_error value_error : DecodeError

-- `VERSION`, the tags and the packet lengths.
abbrev pub version : ℕ
version = 11

abbrev pub tag_begin : ℕ
tag_begin = 1

abbrev pub tag_context : ℕ
tag_context = 2

abbrev pub tag_cell : ℕ
tag_cell = 3

abbrev pub tag_commit : ℕ
tag_commit = 4

abbrev pub tag_ack : ℕ
tag_ack = 5

abbrev pub tag_scene_cell : ℕ
tag_scene_cell = 6

abbrev pub tag_extension : ℕ
tag_extension = 7

abbrev pub tag_conditional_scene_begin : ℕ
tag_conditional_scene_begin = 8

abbrev pub tag_conditional_scene_cell : ℕ
tag_conditional_scene_cell = 9

abbrev pub tag_extension_overlay : ℕ
tag_extension_overlay = 10

abbrev pub tag_effect_hit : ℕ
tag_effect_hit = 11

abbrev pub tag_context_update : ℕ
tag_context_update = 12

abbrev pub tag_conditional_scene_ext : ℕ
tag_conditional_scene_ext = 13

abbrev pub tag_attestation : ℕ
tag_attestation = 14

abbrev pub tag_replica_probe : ℕ
tag_replica_probe = 15

abbrev pub tag_status_request : ℕ
tag_status_request = 16

abbrev pub tag_status_report : ℕ
tag_status_report = 17

abbrev pub tag_frame_chunk_request : ℕ
tag_frame_chunk_request = 18

abbrev pub tag_frame_chunk : ℕ
tag_frame_chunk = 19

abbrev pub tag_wake_layers : ℕ
tag_wake_layers = 20

abbrev pub tag_transport_status : ℕ
tag_transport_status = 21

abbrev pub tag_debug_trace : ℕ
tag_debug_trace = 22

abbrev pub tag_debug_panic_loc : ℕ
tag_debug_panic_loc = 23

abbrev pub begin_len : ℕ
begin_len = 26

abbrev pub wake_layers_len : ℕ
wake_layers_len = 15

abbrev pub context_len : ℕ
context_len = 24

abbrev pub cell_len : ℕ
cell_len = 26

abbrev pub scene_cell_len : ℕ
scene_cell_len = 23

abbrev pub conditional_scene_begin_len : ℕ
conditional_scene_begin_len = 8

abbrev pub conditional_scene_cell_len : ℕ
conditional_scene_cell_len = 26

abbrev pub conditional_scene_ext_len : ℕ
conditional_scene_ext_len = 11

abbrev pub commit_len : ℕ
commit_len = 9

abbrev pub ack_len : ℕ
ack_len = 7

abbrev pub effect_hit_len : ℕ
effect_hit_len = 3

abbrev pub context_update_len : ℕ
context_update_len = 24

abbrev pub attestation_len : ℕ
attestation_len = 24

abbrev pub replica_probe_len : ℕ
replica_probe_len = 3

abbrev pub status_request_len : ℕ
status_request_len = 3

abbrev pub status_report_len : ℕ
status_report_len = 23

abbrev pub frame_chunk_request_len : ℕ
frame_chunk_request_len = 5

abbrev pub transport_status_len : ℕ
transport_status_len = 4

abbrev pub debug_trace_len : ℕ
debug_trace_len = 26

abbrev pub debug_panic_loc_len : ℕ
debug_panic_loc_len = 26

abbrev pub frame_chunk_cells : ℕ
frame_chunk_cells = 4

abbrev pub frame_chunk_len : ℕ
frame_chunk_len = 25

abbrev pub extension_len : Sizes → ℕ
extension_len z = 14 + z.param_chunk

abbrev pub extension_overlay_len : Sizes → ℕ
extension_overlay_len z = 11 + z.param_chunk
