-- ===== src/Wire/Buffer.antt =====
-- The packet buffer of `Message::encode` and the byte accessors at the end of split_lighting.rs.
-- A buffer gives the byte at each index; a slice of it is a list.
use moergo_rmk.Prelude.{
  ℕ, zero, suc, ◌+◌, ◌*◌, ◌/◌, ◌%◌, ◌^◌, ◌<◌, ◌≡◌, List, [], ◌∷◌, ◌==◌, if◌then◌else◌, get_or,
  length, refl, arith, ap, ap₂, ◌∙◌, ◌≤◌,
}

abbrev pub Buffer : Type 0
Buffer = ℕ → ℕ

abbrev pub zeros : Buffer
zeros i = 0

-- `out[at] = v`
abbrev pub put : ℕ → ℕ → Buffer → Buffer
put at v out i = if i == at then v else out i

infixl 10 ◌▸◌
abbrev pub ◌▸◌ {ℓ κ} : {A : Type ℓ} {B : Type κ} → A → (A → B) → B
a ▸ f = f a

-- `to_le_bytes`, copied into the buffer.
abbrev pub put_u16 : ℕ → ℕ → Buffer → Buffer
put_u16 at v out = out ▸ put at (v % 256) ▸ put (at + 1) (v / 256 % 256)

abbrev pub put_u32 : ℕ → ℕ → Buffer → Buffer
put_u32 at v out =
    out
    ▸ put at (v % 256)
    ▸ put (at + 1) (v / 256 % 256)
    ▸ put (at + 2) (v / 2 ^ 16 % 256)
    ▸ put (at + 3) (v / 2 ^ 24 % 256)

abbrev pub put_u64 : ℕ → ℕ → Buffer → Buffer
put_u64 at v out = out ▸ put_u32 at (v % 2 ^ 32) ▸ put_u32 (at + 4) (v / 2 ^ 32)

-- `out[at..at + vs.len()].copy_from_slice(vs)`
unfoldable pub put_bytes : ℕ → List ℕ → Buffer → Buffer
put_bytes at [] out = out
put_bytes at (v ∷ vs) out = put_bytes (suc at) vs (put at v out)

-- `out[at..at + n]`
abbrev pub slice : Buffer → ℕ → ℕ → List ℕ
slice out at zero = []
slice out at (suc n) = out at ∷ slice out (suc at) n

-- `bytes[i]`; every read of the decoder stands behind a test of the length.
abbrev pub byte : List ℕ → ℕ → ℕ
byte bytes i = get_or bytes i 0

-- `from_le_bytes`
abbrev pub get_u16 : List ℕ → ℕ → ℕ
get_u16 bytes at = byte bytes at + byte bytes (at + 1) * 2 ^ 8

abbrev pub get_u32 : List ℕ → ℕ → ℕ
get_u32 bytes at =
    byte bytes at
    + byte bytes (at + 1) * 2 ^ 8
    + byte bytes (at + 2) * 2 ^ 16
    + byte bytes (at + 3) * 2 ^ 24

abbrev pub get_u64 : List ℕ → ℕ → ℕ
get_u64 bytes at = get_u32 bytes at + get_u32 bytes (at + 4) * 2 ^ 32

pub u16_le_bytes : (v : ℕ) → v < 2 ^ 16 → v % 256 + v / 256 % 256 * 2 ^ 8 ≡ v
u16_le_bytes v h = omega arith

pub u32_le_bytes :
    (v : ℕ)
    → v < 2 ^ 32
    → v % 256 + v / 256 % 256 * 2 ^ 8 + v / 2 ^ 16 % 256 * 2 ^ 16 + v / 2 ^ 24 % 256 * 2 ^ 24 ≡ v
u32_le_bytes v h = omega arith

-- The two halves of `get_u64` over `put_u64`.
pub u64_le_bytes :
    (v : ℕ)
    → v < 2 ^ 64
    → (v % 2 ^ 32 < 2 ^ 32) × (v / 2 ^ 32 < 2 ^ 32) × (v % 2 ^ 32 + v / 2 ^ 32 * 2 ^ 32 ≡ v)
u64_le_bytes v h = omega arith

-- Bytes below the written range stay.
pub put_bytes_below :
    (vs : List ℕ) (at i : ℕ) (out : Buffer) → i < at → put_bytes at vs out i ≡ out i
unfolding put_bytes
put_bytes_below [] at i out h = refl
put_bytes_below (v ∷ vs) at i out h = ground (arith, put_bytes_below vs (suc at) i (put at v out))

-- The written range reads back.
pub slice-put_bytes :
    (vs : List ℕ) (at : ℕ) (out : Buffer) → slice (put_bytes at vs out) at (length vs) ≡ vs
unfolding put_bytes
slice-put_bytes [] at out = refl
slice-put_bytes (v ∷ vs) at out =
    ap₂ ◌∷◌ (put_bytes_below vs (suc at) at (put at v out) (omega arith) ∙ here)
      (slice-put_bytes vs (suc at) (put at v out))
  where
    here : put at v out at ≡ v
    here = ground arith

pub length-slice : (out : Buffer) (at n : ℕ) → length (slice out at n) ≡ n
length-slice out at zero = refl
length-slice out at (suc n) = ap suc (length-slice out (suc at) n)

-- A slice holds the buffer's bytes.
pub byte-slice : (out : Buffer) (n at i : ℕ) → i < n → byte (slice out at n) i ≡ out (at + i)
byte-slice out zero at i h = absurd (omega arith)
byte-slice out (suc n) at zero h = ap out (omega arith)
byte-slice out (suc n) at (suc i) h =
    byte-slice out n (suc at) i (omega arith) ∙ ap out (omega arith)

-- A slice of a slice.
pub slice-byte-slice :
    (out : Buffer) (k n at : ℕ) → at + k ≤ n → slice (byte (slice out 0 n)) at k ≡ slice out at k
slice-byte-slice out zero n at h = refl
slice-byte-slice out (suc k) n at h =
    ap₂ ◌∷◌ (byte-slice out n 0 at (omega arith) ∙ ap out (omega arith))
      (slice-byte-slice out k n (suc at) (omega arith))
