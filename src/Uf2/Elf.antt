-- ===== src/Uf2/Elf.antt =====
-- `load_elf_segments`: the loadable parts of an ELF file, by address.
use moergo_rmk.Prelude.{
  ℕ, zero, suc, ◌+◌, ◌*◌, ◌^◌, Bool, not, ◌&&◌, List, [], ◌∷◌, ◌++◌, Result, ok, err, ◌>>=◌, ◌==◌,
  leb, ltb, if◌then◌else◌,
}
use moergo_rmk.Uf2.{Uf2Error, Bytes, read_u16, read_u32}

pub record Segment : Type 0 where
  pub address : ℕ
  pub data_bytes : Bytes

-- `checked_mul` and `checked_add` on a 64-bit `usize`.
abbrev pub checked : Uf2Error → ℕ → Result Uf2Error ℕ
checked e n = if ltb n (2 ^ 64) then ok n else err e

-- `elf.get(from..from + n)`
abbrev pub slice : Bytes → ℕ → ℕ → Bytes
slice b from n = record { len = n; at = λ i. b.at (from + i) }

-- A part that is loadable and not empty.
abbrev pub segment_at : Bytes → ℕ → ℕ → ℕ → Result Uf2Error (List Segment)
segment_at elf address file_offset file_size = do
  last ← checked Uf2Error.segment_overflow (file_offset + file_size)
  (if leb last elf.len
      then ok (record { address = address; data_bytes = slice elf file_offset file_size } ∷ [])
      else err Uf2Error.segment_out_of_bounds)

-- The entry of one index: a segment or none.
unfoldable pub load_entry : Bytes → ℕ → ℕ → ℕ → Result Uf2Error (List Segment)
load_entry elf header_offset entry_size index = do
  scaled ← checked Uf2Error.header_overflow (index * entry_size)
  offset ← checked Uf2Error.header_overflow (header_offset + scaled)
  kind ← read_u32 elf offset
  file_offset ← read_u32 elf (offset + 4)
  address ← read_u32 elf (offset + 12)
  file_size ← read_u32 elf (offset + 16)
  if kind == 1 && ltb 0 file_size then segment_at elf address file_offset file_size else ok []

-- The loop over `0..n`.
unfoldable pub load_entries : Bytes → ℕ → ℕ → ℕ → Result Uf2Error (List Segment)
load_entries elf header_offset entry_size zero = ok []
load_entries elf header_offset entry_size (suc n) = do
  before ← load_entries elf header_offset entry_size n
  found ← load_entry elf header_offset entry_size n
  ok (before ++ found)

-- `sort_by_key` is stable: a segment goes behind those of its address.
abbrev pub insert_segment : Segment → List Segment → List Segment
insert_segment s [] = s ∷ []
insert_segment s (t ∷ ts) =
    if ltb s.address t.address then s ∷ (t ∷ ts) else t ∷ insert_segment s ts

unfoldable pub sort_segments : List Segment → List Segment → List Segment
sort_segments sorted [] = sorted
sort_segments sorted (s ∷ ss) = sort_segments (insert_segment s sorted) ss

-- `elf.get(4) != Some(&1) || elf.get(5) != Some(&1)`, negated.
abbrev pub is_elf32_le : Bytes → Bool
is_elf32_le elf = ltb 5 elf.len && elf.at 4 == 1 && elf.at 5 == 1

abbrev pub some_segments : List Segment → Result Uf2Error (List Segment)
some_segments [] = err Uf2Error.no_load_segments
some_segments (s ∷ ss) = ok (s ∷ ss)

-- Behind the checks of the header.
abbrev pub load_segments : Bytes → Result Uf2Error (List Segment)
load_segments elf = do
  header_offset ← read_u32 elf 28
  entry_size ← read_u16 elf 42
  entry_count ← read_u16 elf 44
  segments ← load_entries elf header_offset entry_size entry_count
  some_segments (sort_segments [] segments)

unfoldable pub load_elf_segments : Bytes → Result Uf2Error (List Segment)
load_elf_segments elf = do
  magic ← read_u32 elf 0
  (if not (magic == 0x464c457f)
      then err Uf2Error.not_elf
      else if not (is_elf32_le elf)
      then err Uf2Error.not_elf32_le
      else load_segments elf)
