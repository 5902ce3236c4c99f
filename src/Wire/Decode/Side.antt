-- ===== src/Wire/Decode/Side.antt =====
-- The packets outside the snapshot transaction.
use moergo_rmk.Prelude.{ℕ, min, List, Result, ok, err, ltb, if◌then◌else◌, ◌>>=◌}
use moergo_rmk.Prelude.Bits.{has_bit}
use moergo_rmk.Wire.Rmk.{Foreign, LayerOps}
use moergo_rmk.Wire.Buffer.{byte, get_u16, get_u32, get_u64}
use moergo_rmk.Wire.Message.{Message, DecodeError, value_error, frame_chunk_cells}
use moergo_rmk.Wire.Decode.Fields.{flag, get_rgb, then_some}
use moergo_rmk.Wire.Decode.Snapshot.{sub_slice}

unfoldable pub decode_ack : {F : Foreign} → List ℕ → Result DecodeError (Message F)
decode_ack bytes = ok (Message.ack (byte bytes 2) (get_u32 bytes 3))

-- The guard on the slot stands in the arm's pattern.
unfoldable pub decode_effect_hit : {F : Foreign} → List ℕ → Result DecodeError (Message F)
decode_effect_hit bytes = ok (Message.effect_hit (byte bytes 2))

unfoldable pub decode_attestation : {F : Foreign} → List ℕ → Result DecodeError (Message F)
decode_attestation bytes = ok (
    Message.attestation (byte bytes 2) (record {
      schema = byte bytes 3;
      revision = get_u32 bytes 4;
      settings = get_u32 bytes 8;
      overlay = get_u32 bytes 12;
      scenes = get_u32 bytes 16;
      conditional_scenes = get_u32 bytes 20;
    }))

unfoldable pub decode_replica_probe : {F : Foreign} → List ℕ → Result DecodeError (Message F)
decode_replica_probe bytes = ok (Message.replica_probe (byte bytes 2))

unfoldable pub decode_status_request : {F : Foreign} → List ℕ → Result DecodeError (Message F)
decode_status_request bytes = ok (Message.status_request (byte bytes 2))

-- `bytes[22] & !0x07 != 0` is a value error.
unfoldable pub decode_status_report :
    {F : Foreign} → LayerOps F → List ℕ → Result DecodeError (Message F)
decode_status_report ops bytes = do
  has_revision ← flag (byte bytes 3)
  if has_bit (byte bytes 22) 0xf8
      then err value_error
      else ok (
          Message.status_report (byte bytes 2) (then_some has_revision (get_u32 bytes 4))
            (get_u32 bytes 8) (ops.new (byte bytes 12) (byte bytes 13) (get_u64 bytes 14))
            (has_bit (byte bytes 22) 1) (has_bit (byte bytes 22) 2) (has_bit (byte bytes 22) 4))

unfoldable pub decode_frame_chunk_request : {F : Foreign} → List ℕ → Result DecodeError (Message F)
decode_frame_chunk_request bytes = ok (Message.frame_chunk_request (byte bytes 2) (get_u16 bytes 3))

unfoldable pub decode_frame_chunk : {F : Foreign} → List ℕ → Result DecodeError (Message F)
decode_frame_chunk bytes = do
  has_revision ← flag (byte bytes 3)
  if ltb frame_chunk_cells (byte bytes 12)
      then err value_error
      else ok (
          Message.frame_chunk (byte bytes 2) (then_some has_revision (get_u32 bytes 4))
            (get_u16 bytes 8) (get_u16 bytes 10) (byte bytes 12) (get_rgb bytes 13)
            (get_rgb bytes 16) (get_rgb bytes 19) (get_rgb bytes 22))

unfoldable pub decode_transport_status : {F : Foreign} → List ℕ → Result DecodeError (Message F)
decode_transport_status bytes = do
  auto ← flag (byte bytes 2)
  wired ← flag (byte bytes 3)
  ok (Message.transport_status auto wired)

unfoldable pub decode_debug_trace : {F : Foreign} → List ℕ → Result DecodeError (Message F)
decode_debug_trace bytes = ok (
    Message.debug_trace (get_u32 bytes 2) (get_u32 bytes 6) (get_u32 bytes 10) (get_u32 bytes 14)
      (get_u32 bytes 18) (get_u32 bytes 22))

unfoldable pub decode_debug_panic_loc : {F : Foreign} → List ℕ → Result DecodeError (Message F)
decode_debug_panic_loc bytes =
    ok (Message.debug_panic_loc (min (byte bytes 2) 23) (sub_slice bytes 3 23))
