-- ===== src/Wire/RoundTrip/Extension.antt =====
-- The two extension packets read back as they were written.
use moergo_rmk.Prelude.{
  ℕ, ◌≤◌, ◌<◌, ◌≡◌, refl, ◌∙◌, false, List, Option, none, some, ok, arith, ==_refl, ltb,
}
use moergo_rmk.Wire.Rmk.{Foreign, LayerOps, Sizes}
use moergo_rmk.Wire.Types.{ExtensionState, ExtensionReplicaParams}
use moergo_rmk.Wire.Message.{
  Message, version, tag_extension, extension_len, tag_extension_overlay, extension_overlay_len,
}
use moergo_rmk.Wire.Buffer.{
  Buffer, put, put_u32, slice, byte, get_u32, ◌▸◌, length-slice, u32_le_bytes,
}
use moergo_rmk.Wire.Fits.{IsU32, ParamsFit}
use moergo_rmk.Wire.Encode.Codes.{header}
use moergo_rmk.Wire.Encode.Snapshot.{
  put_params, put_extension, put_overlay, encode_extension, encode_extension_overlay,
}
use moergo_rmk.Wire.Decode.{decode, decode_tag}
use moergo_rmk.Wire.Decode.Fields.{flag}
use moergo_rmk.Wire.Decode.Snapshot.{decode_extension, decode_extension_overlay}
use moergo_rmk.Wire.RoundTrip.Params.{
  reads, decode-slice, params_len, put_params_below, put_params_len, get_params-put_params,
}

params_len_le :
    (z : Sizes) (values : ExtensionReplicaParams → List ℕ) (p : Option ExtensionReplicaParams)
    → ParamsFit z values p
    → ltb z.param_chunk (params_len p) ≡ false
params_len_le z values none h = ground arith
params_len_le z values (some p) h = ground arith

-- The bytes of a packet before its parameter block, and its parameter length.
module _ (z : Sizes) (values : ExtensionReplicaParams → List ℕ) (at : ℕ) (base : Buffer)
    (p : Option ExtensionReplicaParams) where
  abbrev bytes_of : ℕ → List ℕ
  bytes_of n = slice (put_params values at p base) 0 n

  byte_below : (n k : ℕ) → k < at → at < n → byte (bytes_of n) k ≡ base k
  byte_below n k h hn =
      reads (put_params values at p base) n k (omega arith)
      ∙ put_params_below z values at base p k h

  byte_len :
      (n : ℕ) → at < n → ParamsFit z values p → base at ≡ 0 → byte (bytes_of n) at ≡ params_len p
  byte_len n hn hp e =
      reads (put_params values at p base) n at hn ∙ put_params_len z values at base p hp e

module _ {F : Foreign} (z : Sizes) (ops : LayerOps F) (values : ExtensionReplicaParams → List ℕ)
    (p : Option ExtensionReplicaParams) where
  -- A packet with its tag reaches its arm.
  extension_arm :
      (base : Buffer)
      → base 0 ≡ version
      → base 1 ≡ tag_extension
      → decode z ops (bytes_of z values 12 base p (extension_len z))
        ≡ decode_extension z {F = F} (bytes_of z values 12 base p (extension_len z))
  unfolding decode_tag
  extension_arm base e0 e1 =
      decode-slice z ops (put_params values 12 p base) (extension_len z) (omega arith)
        (put_params_below z values 12 base p 0 (omega arith) ∙ e0)
      ∙ rw (
        put_params_below z values 12 base p 1 (omega arith),
        e1,
        length-slice (put_params values 12 p base) 0 (extension_len z),
        ==_refl (extension_len z),
      )

  overlay_arm :
      (base : Buffer)
      → base 0 ≡ version
      → base 1 ≡ tag_extension_overlay
      → decode z ops (bytes_of z values 9 base p (extension_overlay_len z))
        ≡ decode_extension_overlay z {F = F} (bytes_of z values 9 base p (extension_overlay_len z))
  unfolding decode_tag
  overlay_arm base e0 e1 =
      decode-slice z ops (put_params values 9 p base) (extension_overlay_len z) (omega arith)
        (put_params_below z values 9 base p 0 (omega arith) ∙ e0)
      ∙ rw (
        put_params_below z values 9 base p 1 (omega arith),
        e1,
        length-slice (put_params values 9 p base) 0 (extension_overlay_len z),
        ==_refl (extension_overlay_len z),
      )

-- The common head of both packets, and what follows it up to index `at`.
abbrev head : ℕ → ℕ → ℕ → Buffer
head tag g r = header tag ▸ put 2 g ▸ put_u32 3 r

revision_of :
    (z : Sizes) (values : ExtensionReplicaParams → List ℕ) (at : ℕ) (base : Buffer)
    (p : Option ExtensionReplicaParams) (tag g r n : ℕ)
    → IsU32 r
    → 7 ≤ at
    → at < n
    → ((k : ℕ) → k < 7 → base k ≡ head tag g r k)
    → (byte (bytes_of z values at base p n) 2 ≡ g) × (get_u32 (bytes_of z values at base p n) 3 ≡ r)
revision_of z values at base p tag g r n hr h7 hn same = (
  below 2 (omega arith),
  rw (below 3 (omega arith), below 4 (omega arith), below 5 (omega arith), below 6 (omega arith))
      (u32_le_bytes r hr),
)
  where
    below : (k : ℕ) → k < 7 → byte (bytes_of z values at base p n) k ≡ head tag g r k
    below k h = byte_below z values at base p n k (omega arith) hn ∙ same k h

module _ {F : Foreign} (z : Sizes) (ops : LayerOps F) (values : ExtensionReplicaParams → List ℕ)
    (g r : ℕ) (p : Option ExtensionReplicaParams) (hr : IsU32 r) (hp : ParamsFit z values p) where
  pub decode-encode_extension :
      (e : Option ExtensionState)
      → decode z ops (encode_extension z values g r e p) ≡ ok (Message.extension g r e p)
  unfolding encode_extension decode_extension flag
  decode-encode_extension none =
      let base = head tag_extension g r in
      let n = extension_len z in
      let (generation, revision) =
        revision_of z values 12 base p tag_extension g r n hr (omega arith) (omega arith)
          (λ k h. refl) in
      extension_arm {F = F} z ops values p base refl refl
      ∙ rw (
        byte_len z values 12 base p n (omega arith) hp refl,
        params_len_le z values p hp,
        byte_below z values 12 base p n 7 (omega arith) (omega arith),
        generation,
        revision,
        get_params-put_params z values 12 base p n hp (omega arith),
      )
  decode-encode_extension (some e) =
      let base = head tag_extension g r ▸ put_extension (some e) in
      let n = extension_len z in
      let (generation, revision) =
        revision_of z values 12 base p tag_extension g r n hr (omega arith) (omega arith)
          (λ k h. ground arith) in
      extension_arm {F = F} z ops values p base refl refl
      ∙ rw (
        byte_len z values 12 base p n (omega arith) hp refl,
        params_len_le z values p hp,
        byte_below z values 12 base p n 7 (omega arith) (omega arith),
        generation,
        revision,
        byte_below z values 12 base p n 8 (omega arith) (omega arith),
        byte_below z values 12 base p n 9 (omega arith) (omega arith),
        byte_below z values 12 base p n 10 (omega arith) (omega arith),
        byte_below z values 12 base p n 11 (omega arith) (omega arith),
        get_params-put_params z values 12 base p n hp (omega arith),
      )

  pub decode-encode_extension_overlay :
      (o : Option ℕ)
      → decode z ops (encode_extension_overlay z values g r o p)
        ≡ ok (Message.extension_overlay g r o p)
  unfolding encode_extension_overlay decode_extension_overlay flag
  decode-encode_extension_overlay none =
      let base = head tag_extension_overlay g r in
      let n = extension_overlay_len z in
      let (generation, revision) =
        revision_of z values 9 base p tag_extension_overlay g r n hr (omega arith) (omega arith)
          (λ k h. refl) in
      overlay_arm {F = F} z ops values p base refl refl
      ∙ rw (
        byte_len z values 9 base p n (omega arith) hp refl,
        params_len_le z values p hp,
        byte_below z values 9 base p n 7 (omega arith) (omega arith),
        generation,
        revision,
        get_params-put_params z values 9 base p n hp (omega arith),
      )
  decode-encode_extension_overlay (some effect) =
      let base = head tag_extension_overlay g r ▸ put_overlay (some effect) in
      let n = extension_overlay_len z in
      let (generation, revision) =
        revision_of z values 9 base p tag_extension_overlay g r n hr (omega arith) (omega arith)
          (λ k h. ground arith) in
      overlay_arm {F = F} z ops values p base refl refl
      ∙ rw (
        byte_len z values 9 base p n (omega arith) hp refl,
        params_len_le z values p hp,
        byte_below z values 9 base p n 7 (omega arith) (omega arith),
        generation,
        revision,
        byte_below z values 9 base p n 8 (omega arith) (omega arith),
        get_params-put_params z values 9 base p n hp (omega arith),
      )
