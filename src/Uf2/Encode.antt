-- ===== src/Uf2/Encode.antt =====
-- `encode_uf2`: the flat image of the segments, and its blocks of 512 bytes.
use moergo_rmk.Prelude.{
  ℕ, zero, suc, ◌+◌, ◌-◌, ◌*◌, ◌/◌, List, [], ◌∷◌, Result, ok, err, ◌>>=◌, leb, ltb, min,
  if◌then◌else◌,
}
use moergo_rmk.Uf2.{
  Uf2Error, Bytes, uf2_magic0, uf2_magic1, uf2_magic_end, uf2_flag_family_id, uf2_payload_size,
  u32_mod, to_u32, copy_slice, write_u32,
}
use moergo_rmk.Uf2.Elf.{Segment}

abbrev pub max : ℕ → ℕ → ℕ
max a b = if leb a b then b else a

-- `checked_add` of addresses.
abbrev pub checked_address : ℕ → Result Uf2Error ℕ
checked_address n = if ltb n u32_mod then ok n else err Uf2Error.address_overflow

-- The `try_fold` over the ends of the segments.
unfoldable pub image_end : ℕ → List Segment → Result Uf2Error ℕ
image_end last [] = ok last
image_end last (s ∷ ss) = do
  n ← to_u32 s.data_bytes.len
  segment_end ← checked_address (s.address + n)
  image_end (max last segment_end) ss

-- The copy of one segment into the image. The subtraction of a higher `start` underflows: it panics,
-- or wraps to an offset outside the image; both are an error here.
unfoldable pub place : ℕ → Segment → Bytes → Result Uf2Error Bytes
place start s image =
    let offset = s.address - start in
    if ltb s.address start
    then err Uf2Error.address_underflow
    else if leb (offset + s.data_bytes.len) image.len
    then ok (record image { at = copy_slice offset s.data_bytes.len s.data_bytes.at image.at })
    else err Uf2Error.outside_image

unfoldable pub place_all : ℕ → List Segment → Bytes → Result Uf2Error Bytes
place_all start [] image = ok image
place_all start (s ∷ ss) image = do image' ← place start s image; place_all start ss image'

-- `image.len().div_ceil(UF2_PAYLOAD_SIZE)`
unfoldable pub blocks_of : ℕ → ℕ
blocks_of n = (n + (uf2_payload_size - 1)) / uf2_payload_size

module _ (start family : ℕ) (image : Bytes) where
  -- One round of the loop, on the 512 bytes at `block * 512`.
  unfoldable pub fill_block : ℕ → Bytes → Result Uf2Error Bytes
  fill_block block uf2 =
      let base = block * 512 in
      let chunk_start = block * uf2_payload_size in
      let chunk_end = min (chunk_start + uf2_payload_size) image.len in
      do
        magic0 ← write_u32 base uf2_magic0 uf2
        magic1 ← write_u32 (base + 4) uf2_magic1 magic0
        flags ← write_u32 (base + 8) uf2_flag_family_id magic1
        address ← to_u32 (block * uf2_payload_size)
        addressed ← write_u32 (base + 12) (start + address) flags
        sized ← write_u32 (base + 16) uf2_payload_size addressed
        number ← to_u32 block
        numbered ← write_u32 (base + 20) number sized
        count ← to_u32 (blocks_of image.len)
        counted ← write_u32 (base + 24) count numbered
        tagged ← write_u32 (base + 28) family counted
        write_u32 (base + 508) uf2_magic_end (record tagged {
          at =
              copy_slice (base + 32) (chunk_end - chunk_start) (λ i. image.at (chunk_start + i))
                tagged.at;
        })

  -- The loop over `0..n`.
  unfoldable pub fill_blocks : ℕ → Bytes → Result Uf2Error Bytes
  fill_blocks zero uf2 = ok uf2
  fill_blocks (suc n) uf2 = do before ← fill_blocks n uf2; fill_block n before

abbrev pub filled_with : ℕ → ℕ → Bytes
filled_with value n = record { len = n; at = λ i. value }

-- `start` is the address of the first segment; the image is filled with 0xff.
unfoldable pub flatten : ℕ → List Segment → Result Uf2Error Bytes
flatten start segments = do
  last ← image_end start segments
  place_all start segments (filled_with 0xff (last - start))

unfoldable pub encode_uf2 : List Segment → ℕ → Result Uf2Error Bytes
encode_uf2 [] family = err Uf2Error.no_segments
encode_uf2 (s ∷ ss) family = do
  image ← flatten s.address (s ∷ ss)
  fill_blocks s.address family image (blocks_of image.len)
      (filled_with 0 (blocks_of image.len * 512))
