-- ===== src/Wire/Decode.antt =====
-- `Message::decode` of split_lighting.rs: one function for each arm of its `match`, in the child
-- modules, and the `match` on the tag with its length guards.
pub mod Fields
pub mod Snapshot
pub mod Cells
pub mod Conditions
pub mod Side
use moergo_rmk.Prelude.{
  ℕ, ◌*◌, ◌%◌, Bool, true, false, ◌&&◌, ◌||◌, List, [], ◌∷◌, Option, none, some, Result, ok, err,
  ltb, ◌==◌, if◌then◌else◌, length, get_elem?,
}
use moergo_rmk.Wire.Rmk.{Foreign, LayerOps, Sizes, total_leds}
use moergo_rmk.Wire.Buffer.{byte}
use moergo_rmk.Wire.Message.{
  Message, DecodeError, version_error, tag_error, length_error, version, tag_begin, begin_len,
  tag_wake_layers, wake_layers_len, tag_context, context_len, tag_context_update,
  context_update_len, tag_extension, extension_len, tag_extension_overlay, extension_overlay_len,
  tag_cell, cell_len, tag_scene_cell, scene_cell_len, tag_conditional_scene_begin,
  conditional_scene_begin_len, tag_conditional_scene_cell, conditional_scene_cell_len,
  tag_conditional_scene_ext, conditional_scene_ext_len, tag_commit, commit_len, tag_ack, ack_len,
  tag_effect_hit, effect_hit_len, tag_attestation, attestation_len, tag_replica_probe,
  replica_probe_len, tag_status_request, status_request_len, tag_status_report, status_report_len,
  tag_frame_chunk_request, frame_chunk_request_len, tag_frame_chunk, frame_chunk_len,
  tag_transport_status, transport_status_len, tag_debug_trace, debug_trace_len, tag_debug_panic_loc,
  debug_panic_loc_len,
}
use Snapshot.{
  decode_begin, decode_wake_layers, decode_context, decode_extension, decode_extension_overlay,
  decode_commit, decode_conditional_scene_begin,
}
use Cells.{decode_cell, decode_scene_cell}
use Conditions.{decode_conditional_scene_cell, decode_conditional_scene_ext}
use Side.{
  decode_ack, decode_effect_hit, decode_attestation, decode_replica_probe, decode_status_request,
  decode_status_report, decode_frame_chunk_request, decode_frame_chunk, decode_transport_status,
  decode_debug_trace, decode_debug_panic_loc,
}

-- The last but one arm: the tags that answer `Length`. `TAG_WAKE_LAYERS` is not among them.
abbrev pub has_length_arm : ℕ → Bool
has_length_arm tag =
    tag == tag_begin
    || tag == tag_context
    || tag == tag_cell
    || tag == tag_commit
    || tag == tag_ack
    || tag == tag_scene_cell
    || tag == tag_extension
    || tag == tag_extension_overlay
    || tag == tag_conditional_scene_begin
    || tag == tag_conditional_scene_cell
    || tag == tag_conditional_scene_ext
    || tag == tag_effect_hit
    || tag == tag_context_update
    || tag == tag_attestation
    || tag == tag_replica_probe
    || tag == tag_status_request
    || tag == tag_status_report
    || tag == tag_frame_chunk_request
    || tag == tag_frame_chunk
    || tag == tag_transport_status
    || tag == tag_debug_trace
    || tag == tag_debug_panic_loc

module _ {F : Foreign} (z : Sizes) (ops : LayerOps F) where
  -- The arms from `TAG_COMMIT` on.
  unfoldable pub decode_side_tag : ℕ → List ℕ → Result DecodeError (Message F)
  decode_side_tag tag bytes =
      let len = length bytes in
      if tag == tag_commit && len == commit_len
      then decode_commit bytes
      else if tag == tag_ack && len == ack_len
      then decode_ack bytes
      else if tag == tag_effect_hit
          && len == effect_hit_len
          && ltb (byte bytes 2) (total_leds z % 256)
      then decode_effect_hit bytes
      else if tag == tag_attestation && len == attestation_len
      then decode_attestation bytes
      else if tag == tag_replica_probe && len == replica_probe_len
      then decode_replica_probe bytes
      else if tag == tag_status_request && len == status_request_len
      then decode_status_request bytes
      else if tag == tag_status_report && len == status_report_len
      then decode_status_report ops bytes
      else if tag == tag_frame_chunk_request && len == frame_chunk_request_len
      then decode_frame_chunk_request bytes
      else if tag == tag_frame_chunk && len == frame_chunk_len
      then decode_frame_chunk bytes
      else if tag == tag_transport_status && len == transport_status_len
      then decode_transport_status bytes
      else if tag == tag_debug_trace && len == debug_trace_len
      then decode_debug_trace bytes
      else if tag == tag_debug_panic_loc && len == debug_panic_loc_len
      then decode_debug_panic_loc bytes
      else if has_length_arm tag
      then err length_error
      else err tag_error

  unfoldable pub decode_tag : ℕ → List ℕ → Result DecodeError (Message F)
  decode_tag tag bytes =
      let len = length bytes in
      if tag == tag_begin && len == begin_len
      then decode_begin bytes
      else if tag == tag_wake_layers && len == wake_layers_len
      then decode_wake_layers bytes
      else if tag == tag_context && len == context_len
      then decode_context Message.context bytes
      else if tag == tag_context_update && len == context_update_len
      then decode_context Message.context_update bytes
      else if tag == tag_extension && len == extension_len z
      then decode_extension z bytes
      else if tag == tag_extension_overlay && len == extension_overlay_len z
      then decode_extension_overlay z bytes
      else if tag == tag_cell && len == cell_len
      then decode_cell z bytes
      else if tag == tag_scene_cell && len == scene_cell_len
      then decode_scene_cell z bytes
      else if tag == tag_conditional_scene_begin && len == conditional_scene_begin_len
      then decode_conditional_scene_begin bytes
      else if tag == tag_conditional_scene_cell && len == conditional_scene_cell_len
      then decode_conditional_scene_cell z bytes
      else if tag == tag_conditional_scene_ext && len == conditional_scene_ext_len
      then decode_conditional_scene_ext bytes
      else decode_side_tag tag bytes

  -- `bytes` is the payload of the packet.
  unfoldable pub decode : List ℕ → Result DecodeError (Message F)
  decode [] = err version_error
  decode (first ∷ rest) =
      if first == version
      then elim (get_elem? rest 0) [
        | none ↦ err length_error
        | some tag ↦ decode_tag tag (first ∷ rest)
      ]
      else err version_error
