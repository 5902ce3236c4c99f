-- ===== src/Wire/Encode/Side.antt =====
-- The packets outside the snapshot transaction.
use moergo_rmk.Prelude.{
  ℕ, ◌+◌, ◌%◌, min, Bool, true, false, List, Option, none, some, bit_or, to_u8,
}
use moergo_rmk.Prelude.Bits.{shl8}
use moergo_rmk.Wire.Rmk.{Foreign, LayerOps}
use moergo_rmk.Wire.Types.{ReplicaDigests, Rgb8}
use moergo_rmk.Wire.Buffer.{Buffer, put, put_u16, put_u32, put_u64, put_bytes, slice, ◌▸◌}
use moergo_rmk.Wire.Message.{
  tag_ack, ack_len, tag_effect_hit, effect_hit_len, tag_attestation, attestation_len,
  tag_replica_probe, replica_probe_len, tag_status_request, status_request_len, tag_status_report,
  status_report_len, tag_frame_chunk_request, frame_chunk_request_len, tag_frame_chunk,
  frame_chunk_len, tag_transport_status, transport_status_len, tag_debug_trace, debug_trace_len,
  tag_debug_panic_loc, debug_panic_loc_len,
}
use moergo_rmk.Wire.Encode.Codes.{header}
use moergo_rmk.Wire.Encode.Cells.{or_zero}

unfoldable pub encode_ack : ℕ → ℕ → List ℕ
encode_ack generation revision =
    slice (header tag_ack ▸ put 2 generation ▸ put_u32 3 revision) 0 ack_len

unfoldable pub encode_effect_hit : ℕ → List ℕ
encode_effect_hit slot = slice (header tag_effect_hit ▸ put 2 (slot % 256)) 0 effect_hit_len

unfoldable pub encode_attestation : ℕ → ReplicaDigests → List ℕ
encode_attestation generation d =
    slice
      (header tag_attestation
        ▸ put 2 generation
        ▸ put 3 d.schema
        ▸ put_u32 4 d.revision
        ▸ put_u32 8 d.settings
        ▸ put_u32 12 d.overlay
        ▸ put_u32 16 d.scenes
        ▸ put_u32 20 d.conditional_scenes)
      0 attestation_len

unfoldable pub encode_replica_probe : ℕ → List ℕ
encode_replica_probe generation =
    slice (header tag_replica_probe ▸ put 2 generation) 0 replica_probe_len

unfoldable pub encode_status_request : ℕ → List ℕ
encode_status_request request_id =
    slice (header tag_status_request ▸ put 2 request_id) 0 status_request_len

abbrev pub is_some {ℓ} : {A : Type ℓ} → Option A → Bool
is_some none = false
is_some (some _) = true

unfoldable pub encode_status_report :
    {F : Foreign} → LayerOps F → ℕ → Option ℕ → ℕ → F.LayerState → Bool → Bool → Bool → List ℕ
encode_status_report ops request_id applied engine layers powered wake output =
    slice
      (header tag_status_report
        ▸ put 2 request_id
        ▸ put 3 (to_u8 (is_some applied))
        ▸ put_u32 4 (or_zero applied)
        ▸ put_u32 8 engine
        ▸ put 12 (ops.effective layers)
        ▸ put 13 (ops.default_layer layers)
        ▸ put_u64 14 (ops.active_bits layers)
        ▸ put 22 (bit_or (bit_or (to_u8 powered) (shl8 (to_u8 wake) 1)) (shl8 (to_u8 output) 2)))
      0 status_report_len

unfoldable pub encode_frame_chunk_request : ℕ → ℕ → List ℕ
encode_frame_chunk_request request_id offset =
    slice (header tag_frame_chunk_request ▸ put 2 request_id ▸ put_u16 3 offset) 0
      frame_chunk_request_len

-- One round of the loop over `cells`.
abbrev pub put_rgb : ℕ → Rgb8 → Buffer → Buffer
put_rgb at c out = out ▸ put at c.r ▸ put (at + 1) c.g ▸ put (at + 2) c.b

unfoldable pub encode_frame_chunk : ℕ → Option ℕ → ℕ → ℕ → ℕ → Rgb8 → Rgb8 → Rgb8 → Rgb8 → List ℕ
encode_frame_chunk request_id revision total start len c0 c1 c2 c3 =
    slice
      (header tag_frame_chunk
        ▸ put 2 request_id
        ▸ put 3 (to_u8 (is_some revision))
        ▸ put_u32 4 (or_zero revision)
        ▸ put_u16 8 total
        ▸ put_u16 10 start
        ▸ put 12 len
        ▸ put_rgb 13 c0
        ▸ put_rgb 16 c1
        ▸ put_rgb 19 c2
        ▸ put_rgb 22 c3)
      0 frame_chunk_len

unfoldable pub encode_transport_status : Bool → Bool → List ℕ
encode_transport_status auto wired =
    slice (header tag_transport_status ▸ put 2 (to_u8 auto) ▸ put 3 (to_u8 wired)) 0
      transport_status_len

unfoldable pub encode_debug_trace : ℕ → ℕ → ℕ → ℕ → ℕ → ℕ → List ℕ
encode_debug_trace stage boots rr0 rr1 cause0 cause1 =
    slice
      (header tag_debug_trace
        ▸ put_u32 2 stage
        ▸ put_u32 6 boots
        ▸ put_u32 10 rr0
        ▸ put_u32 14 rr1
        ▸ put_u32 18 cause0
        ▸ put_u32 22 cause1)
      0 debug_trace_len

unfoldable pub encode_debug_panic_loc : ℕ → List ℕ → List ℕ
encode_debug_panic_loc len text =
    slice (header tag_debug_panic_loc ▸ put 2 (min len 23) ▸ put_bytes 3 text) 0 debug_panic_loc_len
