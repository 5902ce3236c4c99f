-- ===== src/Uf2.antt =====
-- crates/xtask/src/main.rs: the firmware image as UF2 blocks, from the segments of an ELF file, and the
-- inspection of such a file before a release.
pub mod Elf
pub mod Encode
pub mod Inspect
pub mod Blocks
pub mod Loop
pub mod RoundTrip
pub mod Image
pub mod Order
mod Tests
use moergo_rmk.Prelude.{
  ℕ, ◌+◌, ◌-◌, ◌*◌, ◌/◌, ◌%◌, ◌^◌, Bool, true, false, ◌&&◌, Result, ok, err, ◌==◌, leb, ltb,
  if◌then◌else◌,
}

-- One constructor for each message.
pub data Uf2Error : Type 0 where
  unexpected_end not_elf not_elf32_le header_overflow segment_overflow : Uf2Error
  segment_out_of_bounds no_load_segments no_segments address_overflow : Uf2Error
  outside_image address_underflow number_overflow : Uf2Error
  not_block_stream invalid_magic invalid_payload_size inconsistent_numbering : Uf2Error
  not_family_tagged multiple_families wrong_family outside_application : Uf2Error

abbrev pub uf2_magic0 : ℕ
uf2_magic0 = 0x0a324655

abbrev pub uf2_magic1 : ℕ
uf2_magic1 = 0x9e5d5157

abbrev pub uf2_magic_end : ℕ
uf2_magic_end = 0x0ab16f30

abbrev pub uf2_flag_family_id : ℕ
uf2_flag_family_id = 0x2000

abbrev pub uf2_payload_size : ℕ
uf2_payload_size = 256

abbrev pub application_start : ℕ
application_start = 0x26000

abbrev pub application_end : ℕ
application_end = 0xdc000

abbrev pub u32_mod : ℕ
u32_mod = 2 ^ 32

-- A buffer of bytes: its length, and the byte at each index.
pub record Bytes : Type 0 where
  pub len : ℕ
  pub at : ℕ → ℕ

-- `u32::try_from`
abbrev pub to_u32 : ℕ → Result Uf2Error ℕ
to_u32 n = if ltb n u32_mod then ok n else err Uf2Error.number_overflow

-- `u32::from_le_bytes` of four bytes, and `read_u16`, `read_u32`.
abbrev pub word : ℕ → (ℕ → ℕ) → ℕ
word o at = at o + at (o + 1) * 2 ^ 8 + at (o + 2) * 2 ^ 16 + at (o + 3) * 2 ^ 24

unfoldable pub read_u16 : Bytes → ℕ → Result Uf2Error ℕ
read_u16 b o =
    if leb (o + 2) b.len then ok (b.at o + b.at (o + 1) * 2 ^ 8) else err Uf2Error.unexpected_end

unfoldable pub read_u32 : Bytes → ℕ → Result Uf2Error ℕ
read_u32 b o = if leb (o + 4) b.len then ok (word o b.at) else err Uf2Error.unexpected_end

-- `u32::to_le_bytes`, `copy_from_slice` and `write_u32`.
unfoldable pub put : ℕ → ℕ → (ℕ → ℕ) → ℕ → ℕ
put o v at i =
    if i == o
    then v % 256
    else if i == o + 1
    then v / 2 ^ 8 % 256
    else if i == o + 2
    then v / 2 ^ 16 % 256
    else if i == o + 3
    then v / 2 ^ 24 % 256
    else at i

unfoldable pub copy_slice : ℕ → ℕ → (ℕ → ℕ) → (ℕ → ℕ) → ℕ → ℕ
copy_slice o n src at i = if leb o i && ltb i (o + n) then src (i - o) else at i

unfoldable pub write_u32 : ℕ → ℕ → Bytes → Result Uf2Error Bytes
write_u32 o v b =
    if leb (o + 4) b.len then ok (record b { at = put o v b.at }) else err Uf2Error.unexpected_end
