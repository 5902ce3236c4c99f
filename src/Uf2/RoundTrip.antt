-- ===== src/Uf2/RoundTrip.antt =====
-- What `inspect_uf2` says of a file that `encode_uf2` has made.
use moergo_rmk.Prelude.{
  ℕ, zero, suc, ◌+◌, ◌*◌, ◌/◌, ◌%◌, ◌^◌, ◌≤◌, ◌<◌, ◌≡◌, refl, ap, ◌∙◌, false, not, ◌||◌, List, ◌∷◌,
  some, ok, ◌>>=◌, ◌==◌, ==_refl, min, arith, leb_of_le,
}
use moergo_rmk.Uf2.{
  Bytes, uf2_magic0, uf2_magic1, uf2_magic_end, application_start, application_end, word, read_u32,
}
use moergo_rmk.Uf2.Elf.{Segment}
use moergo_rmk.Uf2.Encode.{max, blocks_of, flatten, filled_with, encode_uf2}
use moergo_rmk.Uf2.Inspect.{
  Seen, nothing_seen, differs, inspect_block, inspect_blocks, inspect_uf2, accept_seen,
}
use moergo_rmk.Uf2.Loop.{BlockWords, rounds_at, rounds-BlockWords, fill_blocks_ok}

read_u32_ok : (b : Bytes) (o v : ℕ) → o + 4 ≤ b.len → word o b.at ≡ v → read_u32 b o ≡ ok v
unfolding read_u32
read_u32_ok b o v fits same = rw (leb_of_le (o + 4) b.len fits, same)

module _ (start family : ℕ) (image data_bytes : Bytes)
    (size : data_bytes.len ≡ blocks_of image.len * 512) (low : application_start ≤ start)
    (high : start + blocks_of image.len * 256 ≤ application_end) where
  -- What has been seen behind the first `n` blocks.
  abbrev seen_after : ℕ → Seen
  seen_after zero = nothing_seen
  seen_after (suc n) = record { start = start; last = start + (suc n) * 256; family = some family }

  abbrev expected_blocks : ℕ
  expected_blocks = data_bytes.len / 512

  inspect_block_ok :
      (b : ℕ) (seen : Seen)
      → b < blocks_of image.len
      → differs family seen.family ≡ false
      → BlockWords start family image b data_bytes.at
      → inspect_block data_bytes (some family) b seen
        ≡ ok (record {
          start = min seen.start (start + b * 256);
          last = max seen.last (start + b * 256 + 256);
          family = some family;
        })
  unfolding inspect_block
  inspect_block_ok b seen below same w =
      rw
        (
          read_u32_ok data_bytes (b * 512) uf2_magic0 (omega (arith, size, below)) w.magic0,
          read_u32_ok data_bytes (b * 512 + 4) uf2_magic1 (omega (arith, size, below)) w.magic1,
          read_u32_ok data_bytes (b * 512 + 508) uf2_magic_end (omega (arith, size, below))
              w.magic_end,
          read_u32_ok data_bytes (b * 512 + 8) 0x2000 (omega (arith, size, below)) w.flags,
          read_u32_ok data_bytes (b * 512 + 12) (start + b * 256) (omega (arith, size, below))
              w.address,
          read_u32_ok data_bytes (b * 512 + 16) 256 (omega (arith, size, below)) w.size,
          read_u32_ok data_bytes (b * 512 + 20) b (omega (arith, size, below)) w.number,
          read_u32_ok data_bytes (b * 512 + 24) (blocks_of image.len) (omega (arith, size, below))
              w.count,
          read_u32_ok data_bytes (b * 512 + 28) family (omega (arith, size, below)) w.family_id,
          same,
        )
        (ground (arith, below, high, size))

  seen_after-differs : (n : ℕ) → differs family (seen_after n).family ≡ false
  seen_after-differs zero = refl
  seen_after-differs (suc n) = rw (==_refl family)

  seen_after_step :
      (n : ℕ)
      → n < blocks_of image.len
      → record {
        start = min (seen_after n).start (start + n * 256);
        last = max (seen_after n).last (start + n * 256 + 256);
        family = some family;
      }
        ≡ seen_after (suc n)
  seen_after_step zero below = ground (arith, high)
  seen_after_step (suc n) below = ground (arith, high)

  accepted :
      (n : ℕ)
      → 0 < n
      → start + n * 256 ≤ application_end
      → accept_seen data_bytes (some family) (seen_after n) ≡ ok (seen_after n)
  accepted zero some_block fits = absurd (omega (arith, some_block))
  accepted (suc n) some_block fits = ground (arith, low, fits)

  inspect_blocks_ok :
      (n : ℕ)
      → n ≤ blocks_of image.len
      → ((b : ℕ) → b < n → BlockWords start family image b data_bytes.at)
      → inspect_blocks data_bytes (some family) n ≡ ok (seen_after n)
  unfolding inspect_blocks
  inspect_blocks_ok zero fits words = refl
  inspect_blocks_ok (suc n) fits words =
      rw (inspect_blocks_ok n (omega (arith, fits)) (λ b below. words b (omega (arith, below)))) (
        inspect_block_ok n (seen_after n) (omega (arith, fits)) (seen_after-differs n)
          (words n (omega arith))
        ∙ ap ok (seen_after_step n (omega (arith, fits))))

  inspect_uf2_ok :
      0 < blocks_of image.len
      → ((b : ℕ) → b < blocks_of image.len → BlockWords start family image b data_bytes.at)
      → inspect_uf2 data_bytes (some family)
        ≡ ok (blocks_of image.len, seen_after (blocks_of image.len))
  unfolding inspect_uf2
  inspect_uf2_ok some_block words =
      let count : data_bytes.len / 512 ≡ blocks_of image.len = omega (arith, size) in
      let whole : (data_bytes.len == 0 || not (data_bytes.len % 512 == 0)) ≡ false =
        ground (arith, size, some_block) in
      rw (whole, count, inspect_blocks_ok (blocks_of image.len) (omega arith) words)
        (ap (λ r. r >>= (λ found. ok (blocks_of image.len, found)))
          (accepted (blocks_of image.len) some_block high))

  seen_after-nonzero :
      (n : ℕ)
      → 0 < n
      → seen_after n ≡ record { start = start; last = start + n * 256; family = some family }
  seen_after-nonzero zero some_block = absurd (omega (arith, some_block))
  seen_after-nonzero (suc n) some_block = refl

-- Where the byte at the offset `i` of the image stands in the file.
abbrev pub file_offset : ℕ → ℕ
file_offset i = i / 256 * 512 + (32 + i % 256)

-- The blocks of a file in order, and the image in their payloads.
module _ (first : Segment) (rest : List Segment) (family : ℕ) (image : Bytes)
    (flat : flatten first.address (first ∷ rest) ≡ ok image) (nonempty : 0 < image.len)
    (low : application_start ≤ first.address)
    (high : first.address + blocks_of image.len * 256 ≤ application_end)
    (hf : family < 2 ^ 32) where
  abbrev pub uf2_file : Bytes
  uf2_file = record {
    len = blocks_of image.len * 512;
    at = rounds_at first.address family image (blocks_of image.len) (λ i. 0);
  }

  some_block : 0 < blocks_of image.len
  unfolding blocks_of
  some_block = omega (arith, nonempty)

  image_small : first.address + image.len < 2 ^ 32
  unfolding blocks_of
  image_small = omega (arith, high)

  encoded : encode_uf2 (first ∷ rest) family ≡ ok uf2_file
  unfolding encode_uf2
  encoded = rw flat (
      fill_blocks_ok first.address family image image_small hf (blocks_of image.len)
        (filled_with 0 (blocks_of image.len * 512)) (omega arith) refl)

  words : (b : ℕ) → b < blocks_of image.len → BlockWords first.address family image b uf2_file.at
  words b below =
      rounds-BlockWords first.address family image image_small hf (blocks_of image.len) (λ i. 0)
        (omega arith) b below

  payload_at : (i : ℕ) → i < image.len → uf2_file.at (file_offset i) ≡ image.at i
  unfolding blocks_of
  payload_at i below =
      (words (i / 256) (omega (arith, below))).payload (i % 256) (omega (arith, below))
      ∙ ap image.at (omega arith)

  -- The UF2 file of a 32-bit family, made from segments that are flattened to an image without an
  -- error, when that image is not empty and its blocks lie in the application's range, is encoded without an error, and the inspection for that family accepts
  -- it: it finds the number of blocks, the address of the first segment as the start, the end of the
  -- last block as the end, and that family. Every byte of the image stands in the payload of its
  -- block.
  pub inspect_uf2-encode_uf2 :
      (uf2 : Bytes) × (encode_uf2 (first ∷ rest) family ≡ ok uf2)
      × (inspect_uf2 uf2 (some family)
          ≡ ok (
            blocks_of image.len,
            record {
              start = first.address;
              last = first.address + blocks_of image.len * 256;
              family = some family;
            },
          ))
      × ((i : ℕ) → i < image.len → uf2.at (file_offset i) ≡ image.at i)
  inspect_uf2-encode_uf2 = (
    uf2_file,
    encoded,
    inspect_uf2_ok first.address family image uf2_file refl low high some_block words
        ∙ ap (λ seen. ok (blocks_of image.len, seen))
            (seen_after-nonzero first.address family image uf2_file refl low high
              (blocks_of image.len) some_block),
    payload_at,
  )
