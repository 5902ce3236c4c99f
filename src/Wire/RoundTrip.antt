-- ===== src/Wire/RoundTrip.antt =====
-- `Message::decode` after `Message::encode` (split_lighting.rs): each variant in a child module, and
-- the whole message here.
mod Fields
mod Params
mod Extension
mod Gates
mod Snapshot
mod Cells
mod Conditions
mod Side
use moergo_rmk.Prelude.{ℕ, ◌*◌, ◌≤◌, ◌<◌, ◌≡◌, List, ok, length, arith}
use moergo_rmk.Wire.Rmk.{Foreign, LayerOps, Sizes, total_leds}
use moergo_rmk.Wire.Types.{ExtensionReplicaParams}
use moergo_rmk.Wire.Message.{Message}
use moergo_rmk.Wire.Fits.{
  carried, IsU16, IsU32, IsU64, OnSome, BatteryFits, EffectFits, LayerFits, BatteryConditionFits,
  ConnectionFits, DigestsFit, SlotFits, ParamsFit, TtlFits, Fits,
}
use moergo_rmk.Wire.Encode.{packet}
use moergo_rmk.Wire.Decode.{decode}
use Extension.{decode-encode_extension, decode-encode_extension_overlay}
use Snapshot.{
  decode-encode_begin, decode-encode_wake_layers, decode-encode_context,
  decode-encode_conditional_scene_begin, decode-encode_commit,
}
use Cells.{decode-encode_cell, decode-encode_scene_cell}
use Conditions.{decode-encode_conditional_scene_cell, decode-encode_conditional_scene_ext}
use Side.{
  decode-encode_ack, decode-encode_effect_hit, decode-encode_attestation,
  decode-encode_replica_probe, decode-encode_status_request, decode-encode_status_report,
  decode-encode_frame_chunk_request, decode-encode_frame_chunk, decode-encode_transport_status,
  decode-encode_debug_trace, decode-encode_debug_panic_loc,
}

module _ {F : Foreign} (z : Sizes) (ops : LayerOps F) (values : ExtensionReplicaParams → List ℕ)
    (small : z.leds_per_half ≤ 64) where
  -- Every message that fits its byte form is read back from its packet, whatever its variant: a
  -- conditional cell without the predicates that its packet has no room for, any other unchanged.
  -- The board has at most 64 LEDs in a half.
  pub decode-packet :
      (m : Message F) → Fits z ops values m → decode z ops (packet z ops values m) ≡ ok (carried m)
  unfolding packet
  decode-packet (Message.begin g r cells scenes policy time m mode) (hr, ht) =
      decode-encode_begin z ops g r cells scenes policy time m mode hr ht
  decode-packet (Message.wake_layers g r w) (hr, hw) = decode-encode_wake_layers z ops g r w hr hw
  decode-packet (Message.context g r c b) (hr, hl, hb) =
      (decode-encode_context z ops g r c b hr hl hb).0
  decode-packet (Message.context_update g r c b) (hr, hl, hb) =
      (decode-encode_context z ops g r c b hr hl hb).1
  decode-packet (Message.extension g r e p) (hr, hp) =
      decode-encode_extension z ops values g r p hr hp e
  decode-packet (Message.extension_overlay g r o p) (hr, hp) =
      decode-encode_extension_overlay z ops values g r p hr hp o
  decode-packet (Message.cell g r c) (hr, hs, he, ht) =
      decode-encode_cell z ops small g r c hr hs he ht
  decode-packet (Message.scene_cell g r c) (hr, hs, he) =
      decode-encode_scene_cell z ops small g r c hr hs he
  decode-packet (Message.conditional_scene_begin g r n) hr =
      decode-encode_conditional_scene_begin z ops g r n hr
  decode-packet (Message.conditional_scene_cell g r c) (hr, hs, he, hl, hb) =
      decode-encode_conditional_scene_cell z ops small g r c hr hs he hl hb
  decode-packet (Message.conditional_scene_ext g r c e) (hr, hc) =
      decode-encode_conditional_scene_ext z ops small g r c e hr hc
  decode-packet (Message.commit g r cells scenes) hr =
      decode-encode_commit z ops g r cells scenes hr
  decode-packet (Message.ack g r) hr = decode-encode_ack z ops g r hr
  decode-packet (Message.effect_hit slot) h = decode-encode_effect_hit z ops slot h (omega arith)
  decode-packet (Message.attestation g d) h = decode-encode_attestation z ops g d h
  decode-packet (Message.replica_probe g) h = decode-encode_replica_probe z ops g
  decode-packet (Message.status_request id) h = decode-encode_status_request z ops id
  decode-packet (Message.status_report id applied engine layers p w o) (ha, he, hl, law) =
      decode-encode_status_report z ops id applied engine layers p w o ha he hl law
  decode-packet (Message.frame_chunk_request id offset) h =
      decode-encode_frame_chunk_request z ops id offset h
  decode-packet (Message.frame_chunk id revision total start len c0 c1 c2 c3) (hr, ht, hs, hl) =
      decode-encode_frame_chunk z ops id revision total start len c0 c1 c2 c3 hr ht hs hl
  decode-packet (Message.transport_status auto wired) h =
      decode-encode_transport_status z ops auto wired
  decode-packet (Message.debug_trace s b r0 r1 c0 c1) (h0, h1, h2, h3, h4, h5) =
      decode-encode_debug_trace z ops s b r0 r1 c0 c1 h0 h1 h2 h3 h4 h5
  decode-packet (Message.debug_panic_loc len text) (hl, ht) =
      decode-encode_debug_panic_loc z ops len text hl ht
