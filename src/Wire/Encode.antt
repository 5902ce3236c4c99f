-- ===== src/Wire/Encode.antt =====
-- `Message::encode` of split_lighting.rs: one function for each arm of its `match`, in the child
-- modules, and the `match`. `packet` is `out[..len]`.
pub mod Codes
pub mod Snapshot
pub mod Cells
pub mod Conditions
pub mod Side
use moergo_rmk.Prelude.{ℕ, List}
use moergo_rmk.Wire.Rmk.{Foreign, LayerOps, Sizes}
use moergo_rmk.Wire.Types.{ExtensionReplicaParams}
use moergo_rmk.Wire.Message.{Message}
use Snapshot.{
  encode_begin, encode_wake_layers, encode_context, encode_extension, encode_extension_overlay,
  encode_commit, encode_conditional_scene_begin,
}
use Cells.{encode_cell, encode_scene_cell}
use Conditions.{encode_conditional_scene_cell, encode_conditional_scene_ext}
use Side.{
  encode_ack, encode_effect_hit, encode_attestation, encode_replica_probe, encode_status_request,
  encode_status_report, encode_frame_chunk_request, encode_frame_chunk, encode_transport_status,
  encode_debug_trace, encode_debug_panic_loc,
}
use moergo_rmk.Wire.Message.{tag_context, tag_context_update, context_len, context_update_len}

-- `values` is the accessor `ExtensionReplicaParams::values`.
module _ {F : Foreign} (z : Sizes) (ops : LayerOps F)
    (values : ExtensionReplicaParams → List ℕ) where
  unfoldable pub packet : Message F → List ℕ
  packet (Message.begin g r cells scenes policy time m mode) =
      encode_begin g r cells scenes policy time m mode
  packet (Message.wake_layers g r w) = encode_wake_layers g r w
  packet (Message.context g r c b) = encode_context tag_context context_len g r c b
  packet (Message.context_update g r c b) =
      encode_context tag_context_update context_update_len g r c b
  packet (Message.extension g r e p) = encode_extension z values g r e p
  packet (Message.extension_overlay g r o p) = encode_extension_overlay z values g r o p
  packet (Message.cell g r c) = encode_cell g r c
  packet (Message.scene_cell g r c) = encode_scene_cell g r c
  packet (Message.conditional_scene_begin g r n) = encode_conditional_scene_begin g r n
  packet (Message.conditional_scene_cell g r c) = encode_conditional_scene_cell g r c
  packet (Message.conditional_scene_ext g r c e) = encode_conditional_scene_ext g r c e
  packet (Message.commit g r cells scenes) = encode_commit g r cells scenes
  packet (Message.ack g r) = encode_ack g r
  packet (Message.effect_hit slot) = encode_effect_hit slot
  packet (Message.attestation g d) = encode_attestation g d
  packet (Message.replica_probe g) = encode_replica_probe g
  packet (Message.status_request id) = encode_status_request id
  packet (Message.status_report id applied engine layers powered wake output) =
      encode_status_report ops id applied engine layers powered wake output
  packet (Message.frame_chunk_request id offset) = encode_frame_chunk_request id offset
  packet (Message.frame_chunk id revision total start len c0 c1 c2 c3) =
      encode_frame_chunk id revision total start len c0 c1 c2 c3
  packet (Message.transport_status auto wired) = encode_transport_status auto wired
  packet (Message.debug_trace stage boots rr0 rr1 cause0 cause1) =
      encode_debug_trace stage boots rr0 rr1 cause0 cause1
  packet (Message.debug_panic_loc len text) = encode_debug_panic_loc len text
