-- ===== src/Wire/RoundTrip/Params.antt =====
-- The parameter block of the extension packets, whose length the board's chunk size decides.
use moergo_rmk.Prelude.{
  ℕ, zero, suc, ◌+◌, ◌-◌, ◌%◌, ◌≤◌, ◌<◌, ◌≡◌, refl, sym, ap, ◌∙◌, false, List, ◌++◌, Option, none,
  some, length, arith, ◌==◌, replicate,
}
use mathlib.Core.Path.{subst}
use moergo_rmk.Wire.Rmk.{Foreign, LayerOps, Sizes}
use moergo_rmk.Wire.Types.{ExtensionReplicaParams}
use moergo_rmk.Wire.Message.{version}
use moergo_rmk.Wire.Buffer.{
  Buffer, put, put_bytes, slice, byte, ◌▸◌, byte-slice, slice-put_bytes, put_bytes_below,
  slice-byte-slice,
}
use moergo_rmk.Wire.Fits.{ParamsFit}
use moergo_rmk.Wire.Encode.Snapshot.{put_params}
use moergo_rmk.Wire.Decode.{decode, decode_tag}
use moergo_rmk.Wire.Decode.Snapshot.{sub_slice, get_params}

-- A byte of a packet is the buffer's.
pub reads : (out : Buffer) (n k : ℕ) → k < n → byte (slice out 0 n) k ≡ out k
reads out n k h = byte-slice out n 0 k h ∙ ap out (omega arith)

-- A packet of this version goes to the arms of its tag.
pub decode-slice :
    {F : Foreign} (z : Sizes) (ops : LayerOps F) (out : Buffer) (n : ℕ)
    → 2 ≤ n
    → out 0 ≡ version
    → decode z ops (slice out 0 n) ≡ decode_tag z ops (out 1) (slice out 0 n)
unfolding decode
decode-slice z ops out zero h e = absurd (omega arith)
decode-slice z ops out (suc zero) h e = absurd (omega arith)
decode-slice z ops out (suc (suc n)) h e = rw (e)

abbrev pub params_len : Option ExtensionReplicaParams → ℕ
params_len none = 0
params_len (some p) = p.len

module _ (z : Sizes) (values : ExtensionReplicaParams → List ℕ) (at : ℕ) (base : Buffer) where
  pub put_params_below :
      (p : Option ExtensionReplicaParams) (k : ℕ) → k < at → put_params values at p base k ≡ base k
  put_params_below none k h = refl
  put_params_below (some p) k h = ground (
    arith,
    put_bytes_below (values p) (at + 2) k
        (base ▸ put at (length (values p) % 256) ▸ put (at + 1) p.effect),
  )

  pub put_params_len :
      (p : Option ExtensionReplicaParams)
      → ParamsFit z values p
      → base at ≡ 0
      → put_params values at p base at ≡ params_len p
  put_params_len none h e = e
  put_params_len (some p) h e = ground (
    arith,
    put_bytes_below (values p) (at + 2) at
        (base ▸ put at (length (values p) % 256) ▸ put (at + 1) p.effect),
  )

  pub get_params-put_params :
      (p : Option ExtensionReplicaParams) (n : ℕ)
      → ParamsFit z values p
      → at + 2 + z.param_chunk ≤ n
      → get_params z (slice (put_params values at p base) 0 n) (params_len p) (at + 1) ≡ p
  get_params-put_params none n h room = refl
  get_params-put_params (some p) n (positive, byte_len, in_chunk, len, tail) room =
      rw not_zero (ap some (λ i. record { effect = effect i; len = whole i; values = block i }))
    where
      start : Buffer
      start = base ▸ put at (length (values p) % 256) ▸ put (at + 1) p.effect

      out : Buffer
      out = put_bytes (at + 2) (values p) start

      not_zero : (p.len == 0) ≡ false
      not_zero = ground arith

      whole : p.len % 256 ≡ p.len
      whole = omega arith

      effect : byte (slice out 0 n) (at + 1) ≡ p.effect
      effect =
          reads out n (at + 1) (omega arith)
          ∙ put_bytes_below (values p) (at + 2) (at + 1) start (omega arith)
          ∙ ground arith

      copied : sub_slice (slice out 0 n) (at + 2) p.len ≡ values p
      copied =
          slice-byte-slice out p.len n (at + 2) (omega arith)
          ∙ subst (λ k. slice out (at + 2) k ≡ values p) len
              (slice-put_bytes (values p) (at + 2) start)

      same_at : at + 1 + 1 ≡ at + 2
      same_at = omega arith

      block :
          sub_slice (slice out 0 n) (at + 1 + 1) p.len ++ replicate (z.param_chunk - p.len) 0
          ≡ p.values
      block =
          ap (λ k. sub_slice (slice out 0 n) k p.len ++ replicate (z.param_chunk - p.len) 0) same_at
          ∙ ap (λ vs. vs ++ replicate (z.param_chunk - p.len) 0) copied
          ∙ sym tail
