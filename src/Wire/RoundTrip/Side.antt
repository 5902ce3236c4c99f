-- ===== src/Wire/RoundTrip/Side.antt =====
-- Packets outside the snapshot transaction read back as they were written.
use moergo_rmk.Prelude.{
  ℕ, ◌%◌, ◌≤◌, ◌<◌, ◌≡◌, refl, Bool, false, List, Option, none, some, ok, ap₂, Result, min, length,
  arith, ltb, to_u8, bit_or,
}
use moergo_rmk.Prelude.Bits.{shl8, has_bit}
use moergo_rmk.Wire.Rmk.{Foreign, LayerOps, Sizes, total_leds}
use moergo_rmk.Wire.Types.{ReplicaDigests, Rgb8}
use moergo_rmk.Wire.Message.{Message, DecodeError, tag_debug_panic_loc}
use moergo_rmk.Wire.Buffer.{
  u16_le_bytes, u32_le_bytes, u64_le_bytes, put_bytes_below, slice-put_bytes, put, Buffer, ◌▸◌,
}
use moergo_rmk.Wire.Encode.Codes.{header}
use moergo_rmk.Wire.Fits.{IsU16, IsU32, IsU64, OnSome, DigestsFit}
use moergo_rmk.Wire.Encode.Cells.{or_zero}
use moergo_rmk.Wire.Encode.Side.{
  is_some, encode_ack, encode_effect_hit, encode_attestation, encode_replica_probe,
  encode_status_request, encode_status_report, encode_frame_chunk_request, encode_frame_chunk,
  encode_transport_status, encode_debug_trace, encode_debug_panic_loc,
}
use moergo_rmk.Wire.Decode.{decode, decode_tag, decode_side_tag}
use moergo_rmk.Wire.Decode.Side.{
  decode_ack, decode_effect_hit, decode_attestation, decode_replica_probe, decode_status_request,
  decode_status_report, decode_frame_chunk_request, decode_frame_chunk, decode_transport_status,
  decode_debug_trace, decode_debug_panic_loc,
}
use moergo_rmk.Wire.RoundTrip.Fields.{flag-to_u8, then_some-or_zero}

or_zero_fits : (o : Option ℕ) → OnSome IsU32 o → IsU32 (or_zero o)
or_zero_fits none h = omega arith
or_zero_fits (some v) h = h

-- The flags byte of a status report.
status_flags :
    (powered wake output : Bool)
    → let v = bit_or (bit_or (to_u8 powered) (shl8 (to_u8 wake) 1)) (shl8 (to_u8 output) 2) in
      (has_bit v 0xf8 ≡ false)
      × (has_bit v 1 ≡ powered)
      × (has_bit v 2 ≡ wake)
      × (has_bit v 4 ≡ output)
status_flags powered wake output = ground arith

module _ {F : Foreign} (z : Sizes) (ops : LayerOps F) where
  pub decode-encode_ack : (g r : ℕ) → IsU32 r → decode z ops (encode_ack g r) ≡ ok (Message.ack g r)
  unfolding decode decode_tag decode_side_tag decode_ack encode_ack
  decode-encode_ack g r h = rw (u32_le_bytes r h)

  pub decode-encode_effect_hit :
      (slot : ℕ)
      → slot < total_leds z
      → total_leds z < 256
      → decode z ops (encode_effect_hit slot) ≡ ok (Message.effect_hit slot)
  unfolding decode decode_tag decode_side_tag decode_effect_hit encode_effect_hit
  decode-encode_effect_hit slot h small =
      let m : slot % 256 ≡ slot = omega arith in rw m (ground arith)

  pub decode-encode_attestation :
      (g : ℕ) (d : ReplicaDigests)
      → DigestsFit d
      → decode z ops (encode_attestation g d) ≡ ok (Message.attestation g d)
  unfolding decode decode_tag decode_side_tag decode_attestation encode_attestation
  decode-encode_attestation g d (h0, h1, h2, h3, h4) = rw (
    u32_le_bytes d.revision h0,
    u32_le_bytes d.settings h1,
    u32_le_bytes d.overlay h2,
    u32_le_bytes d.scenes h3,
    u32_le_bytes d.conditional_scenes h4,
  )

  pub decode-encode_replica_probe :
      (g : ℕ) → decode z ops (encode_replica_probe g) ≡ ok (Message.replica_probe g)
  unfolding decode decode_tag decode_side_tag decode_replica_probe encode_replica_probe
  decode-encode_replica_probe g = refl

  pub decode-encode_status_request :
      (id : ℕ) → decode z ops (encode_status_request id) ≡ ok (Message.status_request id)
  unfolding decode decode_tag decode_side_tag decode_status_request encode_status_request
  decode-encode_status_request id = refl

  pub decode-encode_status_report :
      (id : ℕ) (applied : Option ℕ) (engine : ℕ) (layers : F.LayerState) (p w o : Bool)
      → OnSome IsU32 applied
      → IsU32 engine
      → IsU64 (ops.active_bits layers)
      → ops.new (ops.effective layers) (ops.default_layer layers) (ops.active_bits layers) ≡ layers
      → decode z ops (encode_status_report ops id applied engine layers p w o)
        ≡ ok (Message.status_report id applied engine layers p w o)
  unfolding decode decode_tag decode_side_tag decode_status_report encode_status_report
  decode-encode_status_report id applied engine layers p w o ha he hl law =
      let (low, high, bits) = u64_le_bytes (ops.active_bits layers) hl in
      let (no_rest, bit0, bit1, bit2) = status_flags p w o in
      rw (
        flag-to_u8 (is_some applied),
        u32_le_bytes (or_zero applied) (or_zero_fits applied ha),
        u32_le_bytes engine he,
        u32_le_bytes _ low,
        u32_le_bytes _ high,
        bits,
        law,
        no_rest,
        bit0,
        bit1,
        bit2,
        then_some-or_zero applied,
      )

  pub decode-encode_frame_chunk_request :
      (id offset : ℕ)
      → IsU16 offset
      → decode z ops (encode_frame_chunk_request id offset)
        ≡ ok (Message.frame_chunk_request id offset)
  unfolding decode decode_tag decode_side_tag decode_frame_chunk_request encode_frame_chunk_request
  decode-encode_frame_chunk_request id offset h = rw (u16_le_bytes offset h)

  pub decode-encode_frame_chunk :
      (id : ℕ) (revision : Option ℕ) (total start len : ℕ) (c0 c1 c2 c3 : Rgb8)
      → OnSome IsU32 revision
      → IsU16 total
      → IsU16 start
      → len ≤ 4
      → decode z ops (encode_frame_chunk id revision total start len c0 c1 c2 c3)
        ≡ ok (Message.frame_chunk id revision total start len c0 c1 c2 c3)
  unfolding decode decode_tag decode_side_tag decode_frame_chunk encode_frame_chunk
  decode-encode_frame_chunk id revision total start len c0 c1 c2 c3 hr ht hs hl =
      let small : ltb 4 len ≡ false = ground arith in
      rw (
        flag-to_u8 (is_some revision),
        u32_le_bytes (or_zero revision) (or_zero_fits revision hr),
        u16_le_bytes total ht,
        u16_le_bytes start hs,
        small,
        then_some-or_zero revision,
      )

  pub decode-encode_transport_status :
      (auto wired : Bool)
      → decode z ops (encode_transport_status auto wired) ≡ ok (Message.transport_status auto wired)
  unfolding decode decode_tag decode_side_tag decode_transport_status encode_transport_status
  decode-encode_transport_status auto wired = rw (flag-to_u8 auto, flag-to_u8 wired)

  pub decode-encode_debug_trace :
      (s b r0 r1 c0 c1 : ℕ)
      → IsU32 s
      → IsU32 b
      → IsU32 r0
      → IsU32 r1
      → IsU32 c0
      → IsU32 c1
      → decode z ops (encode_debug_trace s b r0 r1 c0 c1) ≡ ok (Message.debug_trace s b r0 r1 c0 c1)
  unfolding decode decode_tag decode_side_tag decode_debug_trace encode_debug_trace
  decode-encode_debug_trace s b r0 r1 c0 c1 h0 h1 h2 h3 h4 h5 = rw (
    u32_le_bytes s h0,
    u32_le_bytes b h1,
    u32_le_bytes r0 h2,
    u32_le_bytes r1 h3,
    u32_le_bytes c0 h4,
    u32_le_bytes c1 h5,
  )

  pub decode-encode_debug_panic_loc :
      (len : ℕ) (text : List ℕ)
      → len ≤ 23
      → length text ≡ 23
      → decode z ops (encode_debug_panic_loc len text) ≡ ok (Message.debug_panic_loc len text)
  unfolding decode decode_tag decode_side_tag decode_debug_panic_loc encode_debug_panic_loc
  decode-encode_debug_panic_loc len text hl ht =
      rw
        (
          put_bytes_below text 3 0 start (omega arith),
          put_bytes_below text 3 1 start (omega arith),
          put_bytes_below text 3 2 start (omega arith),
        )
        (ap₂ {C = Result DecodeError (Message F)} (λ l t. ok (Message.debug_panic_loc l t))
          (omega arith) (rw ht at (slice-put_bytes text 3 start)))
    where
      start : Buffer
      start = header tag_debug_panic_loc ▸ put 2 (min len 23)
