-- ===== src/Wire/Errors.antt =====
-- The error arms of `Message::decode`.
use moergo_rmk.Prelude.{
  ℕ, ◌≡◌, ◌≢◌, true, false, List, ◌∷◌, err, length, ◌==◌, if◌then◌else◌, arith,
}
use moergo_rmk.Wire.Rmk.{Foreign, LayerOps, Sizes}
use moergo_rmk.Wire.Message.{
  ack_len, attestation_len, begin_len, cell_len, commit_len, conditional_scene_begin_len,
  conditional_scene_cell_len, conditional_scene_ext_len, context_len, context_update_len,
  debug_panic_loc_len, debug_trace_len, effect_hit_len, extension_len, extension_overlay_len,
  frame_chunk_len, frame_chunk_request_len, length_error, replica_probe_len, scene_cell_len,
  status_report_len, status_request_len, tag_ack, tag_attestation, tag_begin, tag_cell, tag_commit,
  tag_conditional_scene_begin, tag_conditional_scene_cell, tag_conditional_scene_ext, tag_context,
  tag_context_update, tag_debug_trace, tag_effect_hit, tag_error, tag_extension,
  tag_extension_overlay, tag_frame_chunk, tag_frame_chunk_request, tag_replica_probe,
  tag_scene_cell, tag_status_report, tag_status_request, tag_transport_status, tag_wake_layers,
  transport_status_len, version, version_error, wake_layers_len,
}
use moergo_rmk.Wire.Decode.{decode, decode_tag, decode_side_tag, has_length_arm}

-- The length that the packet of a tag has.
abbrev pub tag_len : Sizes → ℕ → ℕ
tag_len z tag =
    if tag == tag_begin
    then begin_len
    else if tag == tag_wake_layers
    then wake_layers_len
    else if tag == tag_context
    then context_len
    else if tag == tag_context_update
    then context_update_len
    else if tag == tag_extension
    then extension_len z
    else if tag == tag_extension_overlay
    then extension_overlay_len z
    else if tag == tag_cell
    then cell_len
    else if tag == tag_scene_cell
    then scene_cell_len
    else if tag == tag_conditional_scene_begin
    then conditional_scene_begin_len
    else if tag == tag_conditional_scene_cell
    then conditional_scene_cell_len
    else if tag == tag_conditional_scene_ext
    then conditional_scene_ext_len
    else if tag == tag_commit
    then commit_len
    else if tag == tag_ack
    then ack_len
    else if tag == tag_effect_hit
    then effect_hit_len
    else if tag == tag_attestation
    then attestation_len
    else if tag == tag_replica_probe
    then replica_probe_len
    else if tag == tag_status_request
    then status_request_len
    else if tag == tag_status_report
    then status_report_len
    else if tag == tag_frame_chunk_request
    then frame_chunk_request_len
    else if tag == tag_frame_chunk
    then frame_chunk_len
    else if tag == tag_transport_status
    then transport_status_len
    else if tag == tag_debug_trace
    then debug_trace_len
    else debug_panic_loc_len

module _ {F : Foreign} (z : Sizes) (ops : LayerOps F) (first tag : ℕ) (rest : List ℕ) where
  abbrev bytes : List ℕ
  bytes = first ∷ tag ∷ rest

  -- A packet of another version is refused by its first byte alone. Of this version, a packet whose
  -- length is not that of its tag answers `Length` for each tag but `TAG_WAKE_LAYERS`, which
  -- answers `Tag`, as does a tag that no message has.
  pub decode_errors :
      (first ≢ version → decode z ops bytes ≡ err version_error)
      × (first ≡ version
          → has_length_arm tag ≡ true
          → length bytes ≢ tag_len z tag
          → decode z ops bytes ≡ err length_error)
      × (first ≡ version
          → tag ≡ tag_wake_layers
          → length bytes ≢ wake_layers_len
          → decode z ops bytes ≡ err tag_error)
      × (first ≡ version
          → has_length_arm tag ≡ false
          → tag ≢ tag_wake_layers
          → decode z ops bytes ≡ err tag_error)
  unfolding decode decode_tag decode_side_tag
  decode_errors = (ground arith, ground arith, ground arith, ground arith)
