-- ===== src/Uf2/Tests.antt =====
-- A concrete image of two segments.
use moergo_rmk.Prelude.{ℕ, ◌+◌, ◌*◌, ◌≡◌, ◌<◌, refl, List, [], ◌∷◌, some, ok, arith}
use moergo_rmk.Uf2.{Bytes, copy_slice, put, read_u16, read_u32}
use moergo_rmk.Uf2.Elf.{Segment, slice, load_elf_segments, load_entries, load_entry, sort_segments}
use moergo_rmk.Uf2.Order.{Loaded, load_elf_segments-Loaded}
use moergo_rmk.Uf2.Encode.{encode_uf2, flatten, image_end, place_all, place, blocks_of}
use moergo_rmk.Uf2.Inspect.{inspect_uf2}
use moergo_rmk.Uf2.RoundTrip.{file_offset, inspect_uf2-encode_uf2}
use moergo_rmk.Uf2.Image.{HoldsAll, flatten-HoldsAll}

abbrev code : Segment
code = record { address = 0x26000; data_bytes = record { len = 300; at = λ i. i * 3 } }

abbrev data_segment : Segment
data_segment = record { address = 0x26200; data_bytes = record { len = 100; at = λ i. i } }

flatten-HoldsAll_example :
    (image : Bytes) × (flatten 0x26000 (code ∷ data_segment ∷ []) ≡ ok image)
    × (0x26000 + image.len ≡ 0x26264)
    × HoldsAll 0x26000 (code ∷ data_segment ∷ []) image.at
flatten-HoldsAll_example =
    flatten-HoldsAll code (data_segment ∷ []) (omega arith, (omega arith, tt)) (omega arith)

abbrev flat_image : Bytes
flat_image = record {
  len = 612;
  at = copy_slice 512 100 (λ i. i) (copy_slice 0 300 (λ i. i * 3) (λ i. 0xff));
}

flattened : flatten 0x26000 (code ∷ data_segment ∷ []) ≡ ok flat_image
unfolding flatten image_end place_all place
flattened = refl

inspect_uf2-encode_uf2_example :
    (uf2 : Bytes) × (encode_uf2 (code ∷ data_segment ∷ []) 0x9807b007 ≡ ok uf2)
    × (inspect_uf2 uf2 (some 0x9807b007)
        ≡ ok (3, record { start = 0x26000; last = 0x26300; family = some 0x9807b007 }))
    × ((i : ℕ) → i < 612 → uf2.at (file_offset i) ≡ flat_image.at i)
unfolding blocks_of
inspect_uf2-encode_uf2_example =
    inspect_uf2-encode_uf2 code (data_segment ∷ []) 0x9807b007 flat_image flattened (omega arith)
      (omega arith) (omega arith) (omega arith)

-- An ELF file with one loadable part of four bytes.
abbrev tiny_elf : Bytes
tiny_elf = record {
  len = 88;
  at = put 0 0x464c457f (
      put 4 0x0101 (
        put 28 52 (
          put 42 0x10020
            (put 52 1 (put 56 84 (put 64 0x26000 (put 68 4 (put 84 0xdeadbeef (λ i. 0)))))))));
}

abbrev tiny_segments : List Segment
tiny_segments = record { address = 0x26000; data_bytes = slice tiny_elf 84 4 } ∷ []

tiny_loaded : load_elf_segments tiny_elf ≡ ok tiny_segments
unfolding load_elf_segments load_entries load_entry sort_segments read_u16 read_u32 put
tiny_loaded = refl

load_elf_segments-Loaded_example : Loaded tiny_elf tiny_segments
load_elf_segments-Loaded_example = load_elf_segments-Loaded tiny_elf tiny_segments tiny_loaded
